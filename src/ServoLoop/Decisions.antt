-- ===== src/ServoLoop/Decisions.antt =====
-- What a turn of the loop does to the fake backend, and what its status then says.
use package.flexiv_control.ServoLoop.{ServoLoop, on_robot, report, ensure_stream_mode}
use package.flexiv_control.ServoLoop.Turn.{
  Snapshot, halt, hold, streamed, stream_pose, is_stale, is_held_long, grip, follow_pose, follow,
  decide,
}
use flexiv_control.Common.{
  get_or_else, Bool, true, false, Option, none, some, ◌∷◌, List, ◌≡◌, ◌⊎◌, inl, inr, refl, sym, ap,
  subst, false≢true, Bool-cases, if◌then◌else◌,
}
use flexiv_control.Common.Result.{Result, ok}
use flexiv_control.Common.Exec.{◌>>=◌}
use flexiv_control.Backend.{Backend}
use flexiv_control.Number.{Number}
use flexiv_control.Types.{
  ControlMode, SafetyStatus, StopReason, Pose, RobotState, GripperCommand, is_cartesian,
}
use flexiv_control.Safety.Profile.{SafetyResult, SafetyFilter, reset}
use flexiv_control.Safety.Cartesian.{filter_cartesian}
use flexiv_control.Safety.Cartesian.Verdict.{IsAccepted, filter_cartesian_lem}
use flexiv_control.Safety.Watchdog.{check_state_age}
use flexiv_control.Robot.{on_backend, start_cartesian_impedance}
use flexiv_control.Backend.Fake.{
  FakeBackend, fake_backend, set_mode, stream_cartesian, move_gripper, stop,
}

status_cases :
    (clipped : Bool)
    → ((if clipped then SafetyStatus.clipped else SafetyStatus.ok) ≡ SafetyStatus.ok)
      ⊎ ((if clipped then SafetyStatus.clipped else SafetyStatus.ok) ≡ SafetyStatus.clipped)
status_cases true = inr refl
status_cases false = inl refl

motion_is_cartesian : is_cartesian ControlMode.nrt_cartesian_motion_force ≡ true
unfolding is_cartesian
motion_is_cartesian = refl

module _ {F : Type 0} ⦃n : Number F⦄ (now : F) where
  abbrev Object : Type 0
  Object = ServoLoop F (FakeBackend F)

  abbrev pub IsStatus : Object → SafetyStatus → Type 0
  IsStatus l s = l.last_status ≡ s

  -- The three things that a turn with a Cartesian target can do. It stops the backend and streams
  -- nothing,
  abbrev pub Stops : Object → Object → Type 0
  Stops l l' =
      (l'.robot.backend.mode ≡ ControlMode.idle)
      × (l'.robot.backend.cartesian_log ≡ l.robot.backend.cartesian_log)
      × (l'.robot.backend.gripper_log ≡ l.robot.backend.gripper_log)
      × (IsStatus l' SafetyStatus.fault ⊎ IsStatus l' SafetyStatus.stopped)

  -- it holds the measured pose, from which the filter goes on,
  abbrev pub Holds : Snapshot F → Object → Object → Type 0
  Holds sn l l' =
      (l'.robot.backend.cartesian_log ≡ sn.state.tcp_pose ∷ l.robot.backend.cartesian_log)
      × (l'.robot.backend.gripper_log ≡ l.robot.backend.gripper_log)
      × (l'.robot.filter.prev_pose ≡ some sn.state.tcp_pose)
      × IsStatus l' SafetyStatus.holding

  -- A gripper command of the snapshot is sent, and with it the command buffer is emptied.
  abbrev pub Grips :
      Option (GripperCommand F)
      → (log log' : List (GripperCommand F)) → (target target' : Option (GripperCommand F)) → Type 0
  Grips none log log' target target' = (log' ≡ log) × (target' ≡ target)
  Grips (some g) log log' target target' = (log' ≡ g ∷ log) × (target' ≡ none)

  -- or it streams the pose that the filter makes of the target and recorded, and sends the gripper
  -- command.
  abbrev verdict : Snapshot F → Object → Pose F → SafetyResult F
  verdict sn l target = (filter_cartesian target sn.state none l.robot.filter).0

  abbrev pub Streams : Snapshot F → Pose F → Object → Object → Type 0
  Streams sn pose l l' =
      (l'.robot.backend.cartesian_log ≡ pose ∷ l.robot.backend.cartesian_log)
      × (l'.robot.filter.prev_pose ≡ some pose)
      × (IsStatus l' SafetyStatus.ok ⊎ IsStatus l' SafetyStatus.clipped)
      × Grips sn.gripper l.robot.backend.gripper_log l'.robot.backend.gripper_log l.target_gripper
          l'.target_gripper

  abbrev pub Follows : Snapshot F → Object → Object → Type 0
  Follows sn l l' =
      (target : Pose F) × ((pose : Pose F) × ((sn.target_pose ≡ some target)
          × ((verdict sn l target).ok ≡ true)
          × ((verdict sn l target).pose ≡ some pose)
          × Streams sn pose l l'))

  -- The filter refuses the target.
  abbrev pub Refused : Snapshot F → Object → Type 0
  Refused sn l =
      (target : Pose F) × ((sn.target_pose ≡ some target) × ((verdict sn l target).ok ≡ false))

  -- What a turn may stop for.
  abbrev pub HasCause : Snapshot F → Object → Type 0
  HasCause sn l =
      (sn.faulted ≡ true)
      ⊎ ((check_state_age sn.state_age_ms l.robot.filter).ok ≡ false)
      ⊎ ((is_stale (fake_backend now) l.robot.filter.p sn.age ≡ true)
          × (is_held_long (fake_backend now) l.robot.filter.p sn.age ≡ true))
      ⊎ Refused sn l

  halt-Stops :
      (status : SafetyStatus) (reason : StopReason) (l : Object)
      → (status ≡ SafetyStatus.fault) ⊎ (status ≡ SafetyStatus.stopped)
      → Stops l (halt (fake_backend now) status reason l).1
  unfolding halt ◌>>=◌ on_robot on_backend stop report
  halt-Stops status reason l h = (refl, refl, refl, h)

  hold-Holds :
      (sn : Snapshot F) (l : Object) (cart : Bool)
      → sn.cartesian ≡ true
      → is_cartesian sn.state.control_mode ≡ cart
      → is_cartesian l.robot.backend.mode ≡ cart
      → Holds sn l (hold (fake_backend now) sn l).1
  unfolding hold ◌>>=◌ on_robot on_backend ensure_stream_mode stream_cartesian
      start_cartesian_impedance set_mode reset
  hold-Holds sn l true c e m = rw (c, e, m) (refl, refl, refl, refl)
  hold-Holds sn l false c e m = rw (c, e, motion_is_cartesian) (refl, refl, refl, refl)

  -- After the filter: `sr` is its answer, and it recorded the pose.
  streamed-Streams :
      (sn : Snapshot F) (sr : SafetyResult F) (pose : Pose F) (l : Object) (cart : Bool)
      (gripper : Option (GripperCommand F))
      → sr.pose ≡ some pose
      → l.robot.filter.prev_pose ≡ some pose
      → sn.gripper ≡ gripper
      → is_cartesian sn.state.control_mode ≡ cart
      → is_cartesian l.robot.backend.mode ≡ cart
      → Streams sn pose l (stream_pose (fake_backend now) sn sr l).1
  unfolding stream_pose ◌>>=◌ on_robot on_backend ensure_stream_mode stream_cartesian
      start_cartesian_impedance set_mode grip move_gripper streamed
  streamed-Streams sn sr pose l true none out prev g e m =
      rw (out, e, m, g) (refl, prev, status_cases sr.clipped, (refl, refl))
  streamed-Streams sn sr pose l true (some c) out prev g e m =
      rw (out, e, m, g) (refl, prev, status_cases sr.clipped, (refl, refl))
  streamed-Streams sn sr pose l false none out prev g e m =
      rw (out, e, motion_is_cartesian, g) (refl, prev, status_cases sr.clipped, (refl, refl))
  streamed-Streams sn sr pose l false (some c) out prev g e m =
      rw (out, e, motion_is_cartesian, g) (refl, prev, status_cases sr.clipped, (refl, refl))

  when_ok :
      (target : Pose F) (state : RobotState F) (f : SafetyFilter F)
      → (filter_cartesian target state none f).0.ok ≡ true
      → let (sr, f') = filter_cartesian target state none f in
        IsAccepted (get_or_else state.tcp_pose f.prev_pose) target f f' sr
  when_ok target state f h = elim (filter_cartesian_lem target state none f) [
    | inl (over, said, kept) ↦ absurd (false≢true (rw said at h))
    | inr (inl (free, acts, outside, said, kept)) ↦ absurd (false≢true (rw said at h))
    | inr (inr (under, accepted)) ↦ accepted
  ]

  follow_pose_part :
      (sn : Snapshot F) (target : Pose F) (l : Object)
      → sn.target_pose ≡ some target
      → sn.state.control_mode ≡ l.robot.backend.mode
      → let l' = (follow_pose (fake_backend now) sn target l).1 in
        (Stops l l' × Refused sn l) ⊎ Follows sn l l'
  unfolding follow_pose
  follow_pose_part sn target l aims m =
      let (sr, f) = filter_cartesian target sn.state none l.robot.filter in
      let l' = record l { robot = record l.robot { filter = f } } in
      elim (Bool-cases (filter_cartesian target sn.state none l.robot.filter).0.ok) [
        | inr h ↦
            rw h
              (inl (halt-Stops SafetyStatus.stopped sr.reason l' (inr refl), (target, (aims, h))))
        | inl h ↦
            (let a = when_ok target sn.state l.robot.filter h in
              rw h (
                inr (
                  target,
                  (
                    a.pose,
                    (
                      aims,
                      h,
                      a.emitted,
                      streamed-Streams sn sr a.pose l' (is_cartesian sn.state.control_mode)
                          sn.gripper a.emitted a.recorded refl refl (ap is_cartesian (sym m)),
                    ),
                  ),
                )))
      ]

  -- What a turn does, and what for.
  abbrev pub Outcome : Snapshot F → Object → Object → Type 0
  Outcome sn l l' =
      ((sn.target_pose ≡ none) × (l' ≡ l))
      ⊎ (Stops l l' × HasCause sn l)
      ⊎ (Holds sn l l' × (is_stale (fake_backend now) l.robot.filter.p sn.age ≡ true))
      ⊎ Follows sn l l'

  follow-none :
      (sn : Snapshot F) (l : Object)
      → sn.cartesian ≡ true
      → sn.target_pose ≡ none
      → follow (fake_backend now) sn l ≡ (ok tt, l)
  unfolding follow
  follow-none sn l c e = rw (c, e) refl

  follow-some :
      (sn : Snapshot F) (target : Pose F) (l : Object)
      → sn.cartesian ≡ true
      → sn.target_pose ≡ some target
      → follow (fake_backend now) sn l ≡ follow_pose (fake_backend now) sn target l
  unfolding follow
  follow-some sn target l c e = simp (c, e) refl

  -- What is true after a turn that comes to the same as `m`.
  after :
      (sn : Snapshot F) (l : Object) (o m : Result (Unit {0}) × Object)
      → (P : Object → Type 0) → o ≡ m
      → P m.1
      → P o.1
  after sn l o m P same h = subst (λ (x : Result (Unit {0}) × Object). P x.1) (sym same) h

  follow_part :
      (sn : Snapshot F) (target : Option (Pose F)) (l : Object)
      → sn.target_pose ≡ target
      → sn.cartesian ≡ true
      → sn.state.control_mode ≡ l.robot.backend.mode
      → Outcome sn l (follow (fake_backend now) sn l).1
  follow_part sn none l e c m = after sn l _ _ (Outcome sn l) (follow-none sn l c e) (inl (e, refl))
  follow_part sn (some target) l e c m =
      after sn l _ _ (Outcome sn l) (follow-some sn target l c e)
        (elim (follow_pose_part sn target l e m) [
          | inl (stops, refused) ↦ inr (inl (stops, inr (inr (inr refused))))
          | inr follows ↦ inr (inr (inr follows))
        ])

  -- The branches of a turn under the writer lock.
  module _ (sn : Snapshot F) (l : Object) where
    abbrev ops : Backend F (FakeBackend F)
    ops = fake_backend now

    abbrev stale : Bool
    stale = is_stale ops l.robot.filter.p sn.age

    abbrev long : Bool
    long = is_held_long ops l.robot.filter.p sn.age

    abbrev fresh_state : Bool
    fresh_state = (check_state_age sn.state_age_ms l.robot.filter).ok

    decide-faulted :
        sn.faulted ≡ true → decide ops sn l ≡ halt ops SafetyStatus.fault StopReason.backend_fault l
    unfolding decide
    decide-faulted e = rw e refl

    decide-old_state :
        sn.faulted ≡ false
        → fresh_state ≡ false
        → decide ops sn l ≡ halt ops SafetyStatus.stopped StopReason.stale_state l
    unfolding decide
    decide-old_state e s = rw (e, s) refl

    decide-long :
        sn.faulted ≡ false
        → fresh_state ≡ true
        → stale ≡ true
        → long ≡ true
        → decide ops sn l ≡ halt ops SafetyStatus.stopped StopReason.stale_command l
    unfolding decide
    decide-long e s c k = rw (e, s, c, k) refl

    decide-hold :
        sn.faulted ≡ false
        → fresh_state ≡ true
        → stale ≡ true
        → long ≡ false
        → decide ops sn l ≡ hold ops sn l
    unfolding decide
    decide-hold e s c k = rw (e, s, c, k) refl

    decide-follow :
        sn.faulted ≡ false → fresh_state ≡ true → stale ≡ false → decide ops sn l ≡ follow ops sn l
    unfolding decide
    decide-follow e s c = rw (e, s, c) refl

  abbrev Concluded : Snapshot F → Object → Object → Type 0
  Concluded sn l l' =
      Outcome sn l l'
      × ((sn.faulted ≡ false) ⊎ Stops l l')
      × ((is_stale (fake_backend now) l.robot.filter.p sn.age ≡ false) ⊎ Stops l l' ⊎ Holds sn l l')

  -- On the fake backend, for a snapshot of a Cartesian command buffer whose state still has the
  -- backend's mode: a turn does nothing only with no target; it stops the backend and streams
  -- nothing, with the status `fault` or `stopped`, only for a fault, a stale state, a command that has
  -- been stale for too long, or a target that the filter refuses; it holds the measured pose, with
  -- the status `holding`, only for a stale command; and else it streams the very pose that the
  -- filter makes of the target, with the status `ok` or `clipped`, and sends the snapshot's gripper
  -- command, if it has one, and then empties the buffer's, whatever that has become. If the
  -- backend was at fault, it stops it; and a stale command, with the watchdog on, is never followed.
  pub decide_lem :
      (sn : Snapshot F) (l : Object)
      → sn.cartesian ≡ true
      → sn.state.control_mode ≡ l.robot.backend.mode
      → let l' = (decide (fake_backend now) sn l).1 in
        Outcome sn l l'
        × ((sn.faulted ≡ false) ⊎ Stops l l')
        × ((is_stale (fake_backend now) l.robot.filter.p sn.age ≡ false)
            ⊎ Stops l l'
            ⊎ Holds sn l l')
  decide_lem sn l c m = elim (Bool-cases sn.faulted) [
    | inl e ↦
        (let h = halt-Stops SafetyStatus.fault StopReason.backend_fault l (inl refl) in
          after sn l _ _ (Concluded sn l) (decide-faulted sn l e)
            (inr (inl (h, inl e)), inr h, inr (inl h)))
    | inr f ↦ elim (Bool-cases (fresh_state sn l)) [
      | inr s ↦
          (let h = halt-Stops SafetyStatus.stopped StopReason.stale_state l (inr refl) in
            after sn l _ _ (Concluded sn l) (decide-old_state sn l f s)
              (inr (inl (h, inr (inl s))), inl f, inr (inl h)))
      | inl s ↦ elim (Bool-cases (stale sn l)) [
        | inr d ↦
            after sn l _ _ (Concluded sn l) (decide-follow sn l f s d)
              (follow_part sn sn.target_pose l refl c m, inl f, inl d)
        | inl d ↦ elim (Bool-cases (long sn l)) [
          | inl k ↦
              (let h = halt-Stops SafetyStatus.stopped StopReason.stale_command l (inr refl) in
                after sn l _ _ (Concluded sn l) (decide-long sn l f s d k)
                  (inr (inl (h, inr (inr (inl (d, k))))), inl f, inr (inl h)))
          | inr k ↦
              (let h =
                  hold-Holds sn l (is_cartesian sn.state.control_mode) c refl
                    (ap is_cartesian (sym m)) in
                after sn l _ _ (Concluded sn l) (decide-hold sn l f s d k)
                  (inr (inr (inl (h, d))), inl f, inr (inr h)))
        ]
      ]
    ]
  ]
