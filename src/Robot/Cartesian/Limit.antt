-- ===== src/Robot/Cartesian/Limit.antt =====
-- The firmware's contact limit over a whole call of `execute_cartesian_chunk`, on the fake backend.
use package.flexiv_control.Robot.{
  Robot, on_backend, check_lease, verify_chunk_profile, reset_filter, get_state,
  start_cartesian_impedance,
}
use package.flexiv_control.Robot.Gate.{Orders, Run, try_fire_close}
use package.flexiv_control.Robot.Cartesian.{run_ticks}
use package.flexiv_control.Robot.Cartesian.Method.{
  Envelope, settle, settle_pending, restore_limit, finally, arm_limit, run_chunk, report,
  aborted_at_entry, started, executed, execute_cartesian_chunk, first_run, envelope_of, raised_if,
}
use package.flexiv_control.Robot.Rules.{Respects, Framed, get_state-Framed, take_cancel-Framed}
use package.flexiv_control.Robot.Cartesian.Rule.{Filters, run_ticks-After, try_fire_close-Same}
use flexiv_control.Common.{
  ℕ, String, Bool, true, false, Option, none, some, List, [], ◌∷◌, All, ◌≡◌, inl, inr, refl, arith,
  is_some, Bool-cases, ap, if◌then◌else◌,
}
use flexiv_control.Common.Result.{Result, ok, err}
use flexiv_control.Common.Exec.{
  Exec, Hoare, Hoare-bind, Hoare-post, Hoare-return, Hoare-if, Post, return, attempt, gets, ◌>>=◌,
}
use flexiv_control.Number.{Number}
use flexiv_control.Types.{Vec6, Pose, RobotState, GripperCommand, is_cartesian, StopReason}
use flexiv_control.Safety.Profile.{SafetyProfile}
use flexiv_control.ActionChunk.{CartesianChunk, for_execution}
use flexiv_control.Interpolation.{Tick}
use flexiv_control.Backend.{Backend}
use flexiv_control.Backend.Fake.{
  FakeBackend, fake_backend, read_state, in_fault, set_mode, stream_cartesian,
  set_contact_wrench_limit, move_gripper, stop,
}
use flexiv_control.Robot.Report.{ExecutionResult}

module _ {F : Type 0} ⦃n : Number F⦄ (now : F) (p : SafetyProfile F) where
  abbrev ops : Backend F (FakeBackend F)
  ops = fake_backend now

  -- The firmware's limit, and the profile.
  abbrev At : Vec6 F → Robot F (FakeBackend F) → Type 0
  At w = Framed (λ b. b.max_wrench ≡ w) (λ q f. q ≡ p)

  abbrev Any : Pose F → Type 0
  Any t = Unit

  kept-Respects : (w : Vec6 F) → Respects ops (λ b. b.max_wrench ≡ w) Any (λ b. Unit)
  unfolding read_state in_fault stream_cartesian move_gripper stop
  kept-Respects w = record {
    read_state = record { at = λ b h. h };
    in_fault = record { at = λ b h. h };
    stop = record { at = λ b h. (h, tt) };
    stream_cartesian = λ pose f good. record { at = λ b h. ground arith };
    move_gripper = λ g. record { at = λ b h. h };
  }

  no_filter : Filters (λ q f. q ≡ p) Any Any
  no_filter = record {
    keeps = λ target state limit q f fits h. h;
    accepts = λ target state limit q f fits h pose accepted out. tt;
  }

  free_targets : (ts : List (Tick F)) → All (λ t. Any t.pose) ts
  free_targets [] = tt
  free_targets (t ∷ ts) = (tt, free_targets ts)

  state-At : (w : Vec6 F) → Hoare (At w) (get_state ops) (λ _. At w) (At w)
  state-At w = get_state-Framed _ _ ops (kept-Respects w).read_state

  fire-At :
      (o : Orders F) (w : Vec6 F) (g : GripperCommand F) (state : RobotState F) (run : Run F)
      → Hoare (At w) (try_fire_close ops o.chunk g state run) (λ _. At w) (At w)
  fire-At o w g state run =
      Hoare-post (λ run' r h. h.0)
        (try_fire_close-Same ops o (λ b. b.max_wrench ≡ w) (λ b. Unit) Any Any (λ q f. q ≡ p)
          (kept-Respects w) no_filter g state run)

  settle-At :
      (o : Orders F) (w : Vec6 F) (pending : Option (GripperCommand F × ℕ))
      (stopped : Option StopReason) (run : Run F)
      → Hoare (At w) (settle ops o.chunk pending stopped run) (λ _. At w) (At w)
  unfolding settle
  settle-At o w none stopped run = Hoare-return run λ r h. h
  settle-At o w (some (g, due)) none run =
      Hoare-bind _ _ (state-At w) λ state. fire-At o w g state (record run { pending_close = none })
  settle-At o w (some (g, due)) (some reason) run = record { at = λ r h. h }

  loop-At :
      (o : Orders F) (ts : List (Tick F)) (start : RobotState F) (w : Vec6 F)
      → Hoare
          (At w)
          (run_ticks ops o ts (first_run start) >>= λ run. settle_pending ops o.chunk run)
          (λ _. At w)
          (At w)
  unfolding ◌>>=◌ first_run settle_pending
  loop-At o ts start w =
      Hoare-bind _ _
        (run_ticks-After ops o (λ b. b.max_wrench ≡ w) (λ b. Unit) Any Any (λ q f. q ≡ p)
          (kept-Respects w) no_filter ts (first_run start) (free_targets ts) refl)
        λ run. record { at = λ r h. (settle-At o w run.pending_close run.stopped run).at r h.0 }

  abbrev Armed : Robot F (FakeBackend F) → Type 0
  Armed = At p.max_contact_wrench

  abbrev limit_if : Bool → Vec6 F → Vec6 F
  limit_if relaxed w = if relaxed then w else p.max_contact_wrench

  arm-At :
      (e : Envelope F)
      → Hoare Armed (arm_limit ops e) (λ _. At (limit_if (is_some e.allow) e.wrench_cap)) Armed
  unfolding arm_limit on_backend set_contact_wrench_limit
  arm-At e = record { at = λ r h. armed r h e.allow }
    where
      armed :
          (r : Robot F (FakeBackend F))
          → Armed r
          → (allow : Option (Vec6 F))
          → Post
              (λ _. At (limit_if (is_some allow) e.wrench_cap))
              Armed
              ((if is_some allow
                  then on_backend (ops.set_contact_wrench_limit e.wrench_cap)
                  else return tt)
                r)
      armed r h none = h
      armed r h (some w) = (refl, h.1)

  restore-Armed :
      (relaxed : Bool) (w : Vec6 F)
      → Hoare (At (limit_if relaxed w)) (restore_limit ops relaxed) (λ _. Armed) Armed
  unfolding restore_limit on_backend set_contact_wrench_limit
  restore-Armed true w = record { at = λ r h. (ap (λ q. q.max_contact_wrench) h.1, h.1) }
  restore-Armed false w = record { at = λ r h. h }

  module _ {A C : Type 0} {R : Robot F (FakeBackend F) → Type 0} where
    given :
        (a : Result A) (c : C) → Hoare R (attempt a >>= λ v. return {A = A × C} (v, c)) (λ _. R) R
    unfolding ◌>>=◌
    given (ok a) c = record { at = λ r h. h }
    given (err e) c = record { at = λ r h. h }

    finally-rule :
        {P Q : Robot F (FakeBackend F) → Type 0} (body : Exec (Robot F (FakeBackend F)) A)
        (cleanup : Exec (Robot F (FakeBackend F)) C)
        → Hoare P body (λ _. Q) Q
        → Hoare Q cleanup (λ _. R) R
        → Hoare P (finally ops body cleanup) (λ _. R) R
    unfolding finally
    finally-rule {P = P} {Q = Q} body cleanup hb hc = record {
      at = λ r h. after (body r) (hb.at r h);
    }
      where
        after :
            (o : Result A × Robot F (FakeBackend F))
            → Post (λ _. Q) Q o
            → Post
                (λ _. R)
                R
                ((cleanup >>= λ c. attempt o.0 >>= λ v. return {A = A × C} (v, c)) o.1)
        after (ok a, s) k = (Hoare-bind cleanup _ hc λ c. given (ok a) c).at s k
        after (err e, s) k = (Hoare-bind cleanup _ hc λ c. given (err e) c).at s k

  run_chunk-Armed :
      (chunk : CartesianChunk F) (e : Envelope F) (recorded : Bool) (requests : ℕ → Bool)
      (start : RobotState F)
      → Hoare Armed (run_chunk ops chunk e recorded requests start) (λ _. Armed) Armed
  unfolding run_chunk
  run_chunk-Armed chunk e recorded requests start = record {
    at = λ r h.
        (let orders : Orders F = record {
          chunk = chunk;
          wrench_cap = e.wrench_cap;
          recorded = recorded;
          requests = requests;
        } in
            Hoare-bind (arm_limit ops e) _ (arm-At e) λ u.
              finally-rule _ _ (loop-At orders _ start (limit_if (is_some e.allow) e.wrench_cap))
                (restore-Armed (is_some e.allow) e.wrench_cap)).at
          r h;
  }

  mode-Armed :
      (chunk : CartesianChunk F)
      → Hoare Armed
          (start_cartesian_impedance ops (some chunk.impedance) false none none)
          (λ _. Armed)
          Armed
  unfolding start_cartesian_impedance on_backend set_mode
  mode-Armed chunk = record { at = λ r h. (ap (λ q. q.max_contact_wrench) h.1, h.1) }

  started-Armed : (chunk : CartesianChunk F) → Hoare Armed (started ops chunk) (λ _. Armed) Armed
  unfolding started
  started-Armed chunk = Hoare-bind _ _ (state-At p.max_contact_wrench) λ state.
      elim (Bool-cases (is_cartesian state.control_mode)) [
        | inl h ↦ rw h (record { at = λ r i. i })
        | inr h ↦ rw h (
            Hoare-bind _ _ (mode-Armed chunk)
              λ u. Hoare-bind _ _ (state-At p.max_contact_wrench) λ s. record { at = λ r i. i })
      ]

  verify-Armed :
      (requested : String) → Hoare Armed (verify_chunk_profile requested) (λ _. Armed) Armed
  unfolding verify_chunk_profile
  verify-Armed requested = record { at = λ r h. ground arith }

  reset-Armed : (start : RobotState F) → Hoare Armed (reset_filter start) (λ _. Armed) Armed
  unfolding reset_filter
  reset-Armed start = record { at = λ r h. h }

  attempt-Armed : {A : Type 0} (m : Result A) → Hoare Armed (attempt m) (λ _. Armed) Armed
  attempt-Armed (ok a) = record { at = λ r h. h }
  attempt-Armed (err e) = record { at = λ r h. h }

  executed-Armed :
      (chunk : CartesianChunk F) (recorded : Bool) (requests : ℕ → Bool)
      → Hoare Armed (executed ops chunk recorded requests) (λ _. Armed) Armed
  unfolding executed
  executed-Armed chunk recorded requests = Hoare-bind _ _ (verify-Armed chunk.safety_profile) λ u.
      Hoare-bind _ _ (started-Armed chunk) λ (start, auto). Hoare-bind _ _ (reset-Armed start) λ u.
        Hoare-bind _ _ (attempt-Armed (for_execution chunk start.tcp_pose)) λ sliced.
          Hoare-bind (gets (λ r. r.profile)) _ (record { at = λ r h. h })
            λ q.
              Hoare-bind _ _ (run_chunk-Armed sliced (envelope_of q sliced) recorded requests start)
                λ out. Hoare-bind _ _ (state-At p.max_contact_wrench) λ end.
                  Hoare-return (report ops chunk q (envelope_of q sliced) auto start end out)
                    λ r h. h

  raised-Armed :
      (raise_on_stop : Bool) (res : ExecutionResult F)
      → Hoare Armed (raised_if ops raise_on_stop res) (λ _. Armed) Armed
  unfolding raised_if
  raised-Armed raise_on_stop res = record { at = λ r h. ground arith }

  aborted-Armed : Hoare Armed (aborted_at_entry ops) (λ _. Armed) Armed
  unfolding aborted_at_entry
  aborted-Armed = Hoare-bind _ _ (state-At p.max_contact_wrench) λ s. record { at = λ r h. h }

  method-Armed :
      (chunk : CartesianChunk F) (raise_on_stop recorded : Bool) (requests : ℕ → Bool)
      → Hoare Armed
          (execute_cartesian_chunk ops chunk raise_on_stop recorded requests)
          (λ _. Armed)
          Armed
  unfolding execute_cartesian_chunk check_lease
  method-Armed chunk raise_on_stop recorded requests =
      Hoare-bind check_lease _ (record { at = λ r h. h })
        λ u. Hoare-bind _ _ (take_cancel-Framed _ _ false) λ c.
          Hoare-bind _ _
            (Hoare-if c (aborted_at_entry ops) _ (λ h. aborted-Armed)
              λ h. executed-Armed chunk recorded requests)
            λ res. raised-Armed raise_on_stop res

module _ {F : Type 0} ⦃n : Number F⦄ where
  -- On the fake backend, for any chunk, flags and stop requests: if the firmware's contact limit is
  -- the profile's before the call, it is so after the call, whether that returns or raises. A
  -- chunk's allowance never outlives it.
  pub execute_cartesian_chunk-limit :
      (now : F) (chunk : CartesianChunk F) (raise_on_stop recorded : Bool) (requests : ℕ → Bool)
      (r : Robot F (FakeBackend F))
      → r.backend.max_wrench ≡ r.profile.max_contact_wrench
      → let (res, r') =
          execute_cartesian_chunk (fake_backend now) chunk raise_on_stop recorded requests r in
        (r'.backend.max_wrench ≡ r.profile.max_contact_wrench) × (r'.profile ≡ r.profile)
  execute_cartesian_chunk-limit now chunk raise_on_stop recorded requests r armed =
      both (execute_cartesian_chunk (fake_backend now) chunk raise_on_stop recorded requests r)
        ((method-Armed now r.profile chunk raise_on_stop recorded requests).at r (armed, refl))
    where
      both :
          (o : Result (ExecutionResult F) × Robot F (FakeBackend F))
          → Post (λ _. Armed now r.profile) (Armed now r.profile) o
          → Armed now r.profile o.1
      both (ok a, s) h = h
      both (err e, s) h = h
