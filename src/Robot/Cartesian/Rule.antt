-- ===== src/Robot/Cartesian/Rule.antt =====
-- The invariant rule of the Cartesian loop, one lemma for each function of its body.
use package.flexiv_control.Robot.{Robot, run_filter}
use package.flexiv_control.Robot.Gate.{
  Orders, Run, try_fire_close, resolve, resolve_pending, fire_due, grip_command, is_closing,
  is_deferred, is_refused, is_due, tracking_error, log_abort,
}
use package.flexiv_control.Robot.Cartesian.{
  halt, grip_if, follow, obey, guarded, tick, run_ticks, noted,
}
use package.flexiv_control.Robot.Rules.{
  Respects, Framed, on_backend-Framed, get_state-Framed, take_cancel-Framed,
}
use flexiv_control.Common.{
  ℕ, ◌+◌, true, ◌||◌, Option, none, some, List, [], ◌∷◌, All, ◌≡◌, ◌⊎◌, inl, inr, refl, ◌∙◌, arith,
  Option-cases, Bool-cases,
}
use flexiv_control.Common.Result.{Result, ok, err, runtime_error}
use flexiv_control.Common.Exec.{
  Hoare, Post, Hoare-bind, Hoare-return, Hoare-raise, Hoare-if, return,
}
use flexiv_control.Number.{Number}
use flexiv_control.Types.{StopReason, Vec6, Pose, RobotState, GripperCommand}
use flexiv_control.Safety.Profile.{SafetyProfile, SafetyResult, SafetyFilter}
use flexiv_control.Safety.Cartesian.{filter_cartesian}
use flexiv_control.Safety.Cartesian.Stages.{exceeds}
use flexiv_control.Interpolation.{Tick}
use flexiv_control.Backend.{Backend}

-- What the filter does to its own part `J` of the invariant, and what it accepts, at the targets
-- that satisfy `Fits`.
pub record Filters {F : Type 0} ⦃n : Number F⦄ (J : SafetyProfile F → SafetyFilter F → Type 0)
    (Fits : Pose F → Type 0) (Good : Pose F → Type 0) : Type 0 where
  pub keeps :
      (target : Pose F) (state : RobotState F) (cap : Vec6 F) (p : SafetyProfile F)
      (f : SafetyFilter F)
      → Fits target
      → J p f
      → J p (filter_cartesian target state (some cap) f).1
  pub accepts :
      (target : Pose F) (state : RobotState F) (cap : Vec6 F) (p : SafetyProfile F)
      (f : SafetyFilter F)
      → Fits target
      → J p f
      → (pose : Pose F) → (filter_cartesian target state (some cap) f).0.ok ≡ true
      → (filter_cartesian target state (some cap) f).0.pose ≡ some pose
      → Good pose

module _ {F B : Type 0} ⦃n : Number F⦄ (ops : Backend F B) (o : Orders F) (P Stopped : B → Type 0)
    (Good Fits : Pose F → Type 0) (J : SafetyProfile F → SafetyFilter F → Type 0)
    (respects : Respects ops P Good Stopped) (filters : Filters J Fits Good) where
  abbrev I : Robot F B → Type 0
  I = Framed P J

  -- After a turn of the loop: the invariant, and the backend was stopped if the run was.
  abbrev pub After : Run F → Robot F B → Type 0
  After run r = I r × ((run.stopped ≡ none) ⊎ Stopped r.backend)

  abbrev pub Same : Run F → Run F → Robot F B → Type 0
  Same run run' r = I r × (run'.stopped ≡ run.stopped)

  pub try_fire_close-Same :
      (g : GripperCommand F) (state : RobotState F) (run : Run F)
      → Hoare I (try_fire_close ops o.chunk g state run) (Same run) I
  unfolding try_fire_close
  try_fire_close-Same g state run =
      elim (Bool-cases (is_refused o.chunk (tracking_error run.prev_cmd_pos state) run)) [
        | inl h ↦ rw h (Hoare-return (log_abort _ run) λ r i. (i, ground arith))
        | inr h ↦ rw h (
            Hoare-bind _ _ (on_backend-Framed P J _ (λ _. P) (respects.move_gripper g))
              λ u. Hoare-return (record run { close_issued = true }) λ r i. (i, refl))
      ]

  resolve-Same :
      (pending : Option (GripperCommand F × ℕ)) (state : RobotState F) (run : Run F)
      → Hoare I (resolve ops o.chunk pending state run) (Same run) I
  unfolding resolve
  resolve-Same none state run = Hoare-return run λ r i. (i, refl)
  resolve-Same (some (g, due)) state run =
      try_fire_close-Same g state (record run { pending_close = none })

  resolve_pending-Same :
      (state : RobotState F) (run : Run F)
      → Hoare I (resolve_pending ops o.chunk state run) (Same run) I
  unfolding resolve_pending
  resolve_pending-Same state run = resolve-Same run.pending_close state run

  fire_due-Same :
      (state : RobotState F) (run : Run F) → Hoare I (fire_due ops o.chunk state run) (Same run) I
  unfolding fire_due
  fire_due-Same state run = elim (Bool-cases (is_due run)) [
    | inl h ↦ rw h (resolve_pending-Same state run)
    | inr h ↦ rw h (Hoare-return run λ r i. (i, refl))
  ]

  grip_command-Same :
      (hz : F) (k : ℕ) (state : RobotState F) (g : GripperCommand F) (run : Run F)
      → Hoare I (grip_command ops o.chunk hz k state g run) (Same run) I
  unfolding grip_command
  grip_command-Same hz k state g run = elim (Bool-cases (is_deferred o.chunk state g run)) [
    | inl h ↦ rw h (
        Hoare-if run.close_aborted (return run) _ (λ c. Hoare-return run λ r i. (i, refl))
          λ c.
            Hoare-bind _ _ (resolve_pending-Same state run)
              λ run'. Hoare-return (record run' { pending_close = some (g, _) }) λ r i. i)
    | inr h ↦ rw h (
        Hoare-bind _ _ (on_backend-Framed P J _ (λ _. P) (respects.move_gripper g)) λ u.
          Hoare-return (record run { close_issued = run.close_issued || is_closing g state })
            λ r i. (i, refl))
  ]

  halt-After : (reason : StopReason) (run : Run F) → Hoare I (halt ops o reason run) After I
  unfolding halt
  halt-After reason run =
      Hoare-bind _ _ (on_backend-Framed P J _ (λ _ b. P b × Stopped b) respects.stop)
        λ u. Hoare-return (record run { stopped = some reason }) λ r (k, j). ((k.0, j), inr k.1)

  grip_if-Same :
      (hz : F) (t : Tick F) (state : RobotState F) (g : Option (GripperCommand F)) (run : Run F)
      → Hoare I (grip_if ops o hz t state g run) (Same run) I
  unfolding grip_if
  grip_if-Same hz t state none run = Hoare-return run λ r i. (i, refl)
  grip_if-Same hz t state (some g) run = grip_command-Same hz t.segment_ticks state g run

  -- The rest of the body keeps the invariant, and the run goes on as it did.
  follow-After :
      (t : Tick F) (state : RobotState F) (pose : Pose F) (run : Run F)
      → Good pose
      → run.stopped ≡ none
      → Hoare I (follow ops o t state pose run) After I
  unfolding follow noted
  follow-After t state pose run good live =
      Hoare-bind _ _ (on_backend-Framed P J _ (λ _. P) (respects.stream_cartesian pose _ good)) λ u.
        Hoare-bind _ _ (fire_due-Same state run) λ run1.
          Hoare-bind (λ r. grip_if ops o r.control_hz t state t.grip run1 r) _
            (record {
              at = λ r i.
                  carry run1 r i.1 (grip_if ops o r.control_hz t state t.grip run1 r)
                    ((grip_if-Same r.control_hz t state t.grip run1).at r i.0);
            })
            λ run2. record { at = λ r (i, same). (i, inl (same ∙ live)) }
    where
      Later : Run F → Robot F B → Type 0
      Later run2 r = I r × (run2.stopped ≡ run.stopped)

      carry :
          (run1 : Run F) (r : Robot F B)
          → run1.stopped ≡ run.stopped
          → (m : Result (Run F) × Robot F B) → Post (Same run1) I m
          → Post Later I m
      carry run1 r same (ok a, s) (i, h) = (i, h ∙ same)
      carry run1 r same (err e, s) i = i

  obey-After :
      (t : Tick F) (state : RobotState F) (sr : SafetyResult F) (run : Run F)
      → ((pose : Pose F) → sr.ok ≡ true → sr.pose ≡ some pose → Good pose)
      → run.stopped ≡ none
      → Hoare I (obey ops o t state sr run) After I
  unfolding obey
  obey-After t state sr run good live = elim (Bool-cases sr.ok) [
    | inr h ↦ rw h (halt-After sr.reason run)
    | inl h ↦ elim (Option-cases sr.pose) [
      | inl e ↦ rw (h, e) (Hoare-raise runtime_error λ r i. i)
      | inr (pose, e) ↦
          rw (h, e)
            (follow-After t state pose (record run { clipped = run.clipped || sr.clipped })
              (good pose h e) live)
    ]
  ]

  -- What the filter's answer `sr` to `target` is good for.
  abbrev Answered : SafetyResult F → Robot F B → Type 0
  Answered sr r = I r × ((pose : Pose F) → sr.ok ≡ true → sr.pose ≡ some pose → Good pose)

  run_filter-Answered :
      (t : Tick F) (state : RobotState F)
      → Fits t.pose
      → Hoare I (run_filter t.pose state o.wrench_cap) Answered I
  unfolding run_filter
  run_filter-Answered t state fits = record {
    at = λ r (b, j). (
      (b, filters.keeps t.pose state o.wrench_cap r.profile r.filter fits j),
      λ pose accepted out.
          filters.accepts t.pose state o.wrench_cap r.profile r.filter fits j pose accepted out,
    );
  }

  guarded-After :
      (t : Tick F) (run : Run F)
      → Fits t.pose
      → run.stopped ≡ none
      → Hoare I (guarded ops o t run) After I
  unfolding guarded
  guarded-After t run fits live =
      Hoare-bind _ _ (get_state-Framed P J ops respects.read_state) λ state.
        Hoare-bind _ _ (on_backend-Framed P J ops.in_fault (λ _. P) respects.in_fault) λ fault.
          Hoare-if fault (halt ops o StopReason.backend_fault run) _
            (λ h. halt-After StopReason.backend_fault run)
            λ h. elim (Bool-cases (exceeds state.wrench o.wrench_cap)) [
              | inl over ↦ rw over (halt-After StopReason.contact_wrench run)
              | inr under ↦ rw under (
                  Hoare-bind _ _ (run_filter-Answered t state fits) λ sr. record {
                    at = λ r (i, good). (obey-After t state sr run good live).at r i;
                  })
            ]

  tick-After :
      (t : Tick F) (run : Run F)
      → Fits t.pose
      → run.stopped ≡ none
      → Hoare I (tick ops o t run) After I
  unfolding tick
  tick-After t run fits live =
      let run' = record run { tick_idx = run.tick_idx + 1; segment = t.segment } in
      Hoare-bind _ _ (take_cancel-Framed P J (o.requests (run.tick_idx + 1))) λ c.
        Hoare-if c (halt ops o StopReason.user run') _ (λ h. halt-After StopReason.user run')
          λ h. guarded-After t run' fits live

  next-After :
      (ts : List (Tick F)) (run : Run F) (stopped : Option StopReason)
      → run.stopped ≡ stopped
      → (run.stopped ≡ none → Hoare I (run_ticks ops o ts run) After I)
      → Hoare
          (After run)
          (elim stopped [ none ↦ run_ticks ops o ts run | some reason ↦ return run ])
          After
          I
  next-After ts run none e go = record { at = λ r h. (go e).at r h.0 }
  next-After ts run (some reason) e go = Hoare-return run λ r h. h

  pub run_ticks-After :
      (ts : List (Tick F)) (run : Run F)
      → All (λ t. Fits t.pose) ts
      → run.stopped ≡ none
      → Hoare I (run_ticks ops o ts run) After I
  unfolding run_ticks
  run_ticks-After [] run fits live = Hoare-return run λ r i. (i, inl live)
  run_ticks-After (t ∷ ts) run (fit, fits) live =
      Hoare-bind _ _ (tick-After t run fit live)
        λ run'. next-After ts run' run'.stopped refl λ e. run_ticks-After ts run' fits e
