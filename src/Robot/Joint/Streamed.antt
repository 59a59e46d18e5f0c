-- ===== src/Robot/Joint/Streamed.antt =====
-- The commands that the joint loop streams to the fake backend.
use mathlib.Core.Option.{none-ne-some}
use package.flexiv_control.Robot.{Robot, on_backend, take_cancel, get_state}
use package.flexiv_control.Robot.Joint.Answers.{
  Inside, FitsJoints, Smooth, Sound, Anchored, answers,
}
use package.flexiv_control.Robot.Joint.{
  JointRun, run_joint_filter, halt, obey, guarded, tick, run_joints, first_joint_run,
}
use flexiv_control.Common.{
  ℕ, ◌+◌, Bool, true, Option, none, some, List, [], ◌∷◌, ◌++◌, All, ◌≡◌, ◌⊎◌, inl, inr, refl, sym,
  ◌∙◌, Bool-cases, ◌||◌,
}
use flexiv_control.Common.Exec.{
  Hoare, Hoare-bind, Hoare-return, Hoare-if, Post, ◌>>=◌, return, gets,
}
use flexiv_control.Number.{Number, ◌≼◌, IsOrdered, IsExact, zero_num}
use flexiv_control.Types.{ControlMode, StopReason, RobotState, is_cartesian, is_idle}
use flexiv_control.Safety.Profile.{SafetyProfile, SafetyResult, SafetyFilter}
use flexiv_control.Safety.Cartesian.Stages.{exceeds}
use flexiv_control.Safety.Joint.{max_joint_step, filter_joint}
use flexiv_control.Backend.Fake.{
  FakeBackend, fake_backend, read_state, in_fault, stream_joint, stop,
}

module _ {F : Type 0} ⦃n : Number F⦄ (p : SafetyProfile F) (m : F) (order : IsOrdered F)
    (exact : IsExact F) (positive : zero_num ≼ m) (start : List F) (now : F) where
  abbrev Object : Type 0
  Object = Robot F (FakeBackend F)

  -- The commands of this run before the posture that it starts from.
  abbrev Sent : Object → Type 0
  Sent r = Sound p m (r.backend.joint_log ++ (start ∷ []))

  abbrev Goes : Object → Type 0
  Goes r = Sent r × Anchored p m r.filter (r.backend.joint_log ++ (start ∷ []))

  abbrev After : JointRun → Object → Type 0
  After run r =
      (Goes r × (run.stopped ≡ none))
      ⊎ ((reason : StopReason) × (run.stopped ≡ some reason)
          × Sent r
          × (r.backend.mode ≡ ControlMode.idle))

  get_state-Goes : Hoare Goes (get_state (fake_backend now)) (λ _. Goes) Sent
  unfolding get_state ◌>>=◌ on_backend read_state
  get_state-Goes = record { at = λ r i. i }

  in_fault-Goes : Hoare Goes (on_backend in_fault) (λ _. Goes) Sent
  unfolding on_backend in_fault
  in_fault-Goes = record { at = λ r i. i }

  cap-Goes : Hoare Goes (gets (λ r. r.profile.max_contact_wrench)) (λ _. Goes) Sent
  cap-Goes = record { at = λ r i. i }

  take_cancel-Goes : (c : Bool) → Hoare Goes (take_cancel c) (λ _. Goes) Sent
  unfolding take_cancel
  take_cancel-Goes c = record {
    at = λ r i. elim (Bool-cases (r.cancel || c)) [ inl e ↦ rw e i | inr e ↦ rw e i ];
  }

  Smooth-tail : (q : List F) (qs : List (List F)) → Smooth p m (q ∷ qs) → Smooth p m qs
  Smooth-tail q [] h = tt
  Smooth-tail q (r ∷ qs) h = h.1

  halt-After :
      (reason : StopReason) (run : JointRun)
      → Hoare Goes (halt (fake_backend now) reason run) After Sent
  unfolding halt ◌>>=◌ on_backend stop
  halt-After reason run = record { at = λ r i. inr (reason, refl, i.0, refl) }

  -- What is known once the filter has accepted `q`.
  abbrev Accepted : List F → Object → Type 0
  Accepted q r =
      Sound p m (q ∷ (r.backend.joint_log ++ (start ∷ [])))
      × Anchored p m r.filter (q ∷ (r.backend.joint_log ++ (start ∷ [])))

  stream-After :
      (q : List F) (run : JointRun) (clipped : Bool)
      → run.stopped ≡ none
      → Hoare
          (Accepted q)
          (on_backend (stream_joint q) >>= λ _.
            return (record run { clipped = run.clipped || clipped }))
          After
          Sent
  unfolding ◌>>=◌ on_backend stream_joint
  stream-After q run clipped live = record {
    at = λ r i. elim (Bool-cases (is_cartesian r.backend.mode || is_idle r.backend.mode)) [
      | inl e ↦ rw e (i.0.0.1, Smooth-tail q _ i.0.1)
      | inr e ↦ rw e (inl (i, live))
    ];
  }

  -- What holds once the filter has answered.
  abbrev Judged : SafetyResult F → Object → Type 0
  Judged sr r = (sr.ok ≡ true) × ((q : List F) × (sr.q ≡ some q) × Accepted q r)

  judged :
      (target : List F) (state : RobotState F) (f : SafetyFilter F) (sent : List (List F))
      → FitsJoints p m target
      → Sound p m sent
      → Anchored p m f sent
      → let (sr, f') = filter_joint target state f in
        (sr.ok ≡ true)
        × ((q : List F) × (sr.q ≡ some q) × (Sound p m (q ∷ sent) × Anchored p m f' (q ∷ sent)))
  judged target state f [] fits sound anchored = absurd anchored
  judged target state f (prev ∷ older) fits sound anchored =
      let (accepted, (q, out, same, step, kept, inside, reach)) =
        answers p m order exact positive target state f prev fits anchored sound.0.0 in
      (accepted, (q, out, (((inside, sound.0), (reach, sound.1)), (same, step, kept))))

  run_joint_filter-Judged :
      (target : List F) (state : RobotState F)
      → FitsJoints p m target
      → Hoare Goes (run_joint_filter target state) Judged Sent
  unfolding run_joint_filter
  run_joint_filter-Judged target state fits = record {
    at = λ r i. judged target state r.filter (r.backend.joint_log ++ (start ∷ [])) fits i.0 i.1;
  }

  obey-After :
      (sr : SafetyResult F) (run : JointRun)
      → run.stopped ≡ none
      → Hoare (Judged sr) (obey (fake_backend now) sr run) After Sent
  unfolding obey
  obey-After sr run live = record {
    at = λ r (accepted, (q, out, sent)).
        rw (accepted, out) ((stream-After q run sr.clipped live).at r sent);
  }

  guarded-After :
      (q : List F) (run : JointRun)
      → FitsJoints p m q
      → run.stopped ≡ none
      → Hoare Goes (guarded (fake_backend now) q run) After Sent
  unfolding guarded
  guarded-After q run fits live = Hoare-bind _ _ get_state-Goes λ state.
      Hoare-bind _ _ in_fault-Goes λ fault. Hoare-bind _ _ cap-Goes λ cap.
        Hoare-if fault (halt (fake_backend now) StopReason.backend_fault run) _
          (λ h. halt-After StopReason.backend_fault run)
          λ h. elim (Bool-cases (exceeds state.wrench cap)) [
            | inl over ↦ rw over (halt-After StopReason.contact_wrench run)
            | inr under ↦
                rw under (
                  Hoare-bind _ _ (run_joint_filter-Judged q state fits)
                    λ sr. obey-After sr run live)
          ]

  tick-After :
      (requests : ℕ → Bool) (q : List F) (run : JointRun)
      → FitsJoints p m q
      → run.stopped ≡ none
      → Hoare Goes (tick (fake_backend now) requests q run) After Sent
  unfolding tick
  tick-After requests q run fits live =
      let run' = record run { tick_idx = run.tick_idx + 1 } in
      Hoare-bind _ _ (take_cancel-Goes (requests (run.tick_idx + 1))) λ c.
        Hoare-if c (halt (fake_backend now) StopReason.user run') _
          (λ h. halt-After StopReason.user run') λ h. guarded-After q run' fits live

  -- What holds after a run, which has come to its end or has stopped.
  abbrev Ends : JointRun → Object → Type 0
  Ends run r = Sent r × ((run.stopped ≡ none) ⊎ (r.backend.mode ≡ ControlMode.idle))

  next-Ends :
      (requests : ℕ → Bool) (qs : List (List F)) (run : JointRun) (stopped : Option StopReason)
      → run.stopped ≡ stopped
      → (run.stopped ≡ none → Hoare Goes (run_joints (fake_backend now) requests qs run) Ends Sent)
      → Hoare
          (After run)
          (elim stopped [
            | none ↦ run_joints (fake_backend now) requests qs run
            | some reason ↦ return run
          ])
          Ends
          Sent
  next-Ends requests qs run none e go = record {
    at = λ r h. elim h [
      | inl (goes, live) ↦ (go e).at r goes
      | inr (reason, halted, sent, idle) ↦ absurd (none-ne-some reason (sym e ∙ halted))
    ];
  }
  next-Ends requests qs run (some reason) e go = Hoare-return run λ r h. elim h [
    | inl (goes, live) ↦ (goes.0, inl live)
    | inr (reason', halted, sent, idle) ↦ (sent, inr idle)
  ]

  run_joints-Ends :
      (requests : ℕ → Bool) (qs : List (List F)) (run : JointRun)
      → All (FitsJoints p m) qs
      → run.stopped ≡ none
      → Hoare Goes (run_joints (fake_backend now) requests qs run) Ends Sent
  unfolding run_joints
  run_joints-Ends requests [] run fits live = Hoare-return run λ r i. (i.0, inl live)
  run_joints-Ends requests (q ∷ qs) run (fit, fits) live =
      Hoare-bind _ _ (tick-After requests q run fit live) λ run'.
        next-Ends requests qs run' run'.stopped refl λ e. run_joints-Ends requests qs run' fits e

  -- In exact arithmetic, for a step limit that is not negative, from a posture inside the limits at
  -- which the filter was reset, and before which nothing was streamed: whatever stop requests the
  -- loop gets, and whatever setpoints, each with room between the limits, and inside them or not
  -- `allclose` to its clipped version, every command that was streamed lies
  -- inside the limits less the margin, the first one step at most from that posture and each
  -- one step at most from the one before it, also when a call raised; and a run that stopped
  -- early has left the backend idle.
  pub run_joints-Sound :
      (requests : ℕ → Bool) (qs : List (List F)) (r : Robot F (FakeBackend F))
      → All (FitsJoints p m) qs
      → r.backend.joint_log ≡ []
      → Inside p m start
      → (r.filter.p ≡ p) × (max_joint_step r.filter ≡ m) × (r.filter.prev_q ≡ some start)
      → Post
          (λ run' r'.
            Sound p m (r'.backend.joint_log ++ (start ∷ []))
            × ((run'.stopped ≡ none) ⊎ (r'.backend.mode ≡ ControlMode.idle)))
          (λ r'. Sound p m (r'.backend.joint_log ++ (start ∷ [])))
          (run_joints (fake_backend now) requests qs first_joint_run r)
  run_joints-Sound requests qs r fits empty inside anchored =
      (run_joints-Ends requests qs first_joint_run fits refl).at r
        (rw empty (((inside, tt), tt), anchored))
