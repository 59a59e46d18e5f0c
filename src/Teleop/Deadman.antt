-- ===== src/Teleop/Deadman.antt =====
-- The deadman button.
use package.flexiv_control.Teleop.{
  SpaceMouseState, Driven, SpaceMouseTeleop, Session, on_robot, no_motion, to_delta, deadman_ok,
  is_pressed, infer_open, toggle, servo, gripper_is_open, gripper_from_buttons, is_over, tick,
  run_from, lease, run,
}
use flexiv_control.Common.{
  ℕ, ◌+◌, String, Bool, false, not, ◌&&◌, Option, none, some, is_some, List, [], ◌∷◌, All, ◌≡◌,
  refl, true, if◌then◌else◌,
}
use flexiv_control.Common.Result.{Result, ok, err}
use flexiv_control.Common.Exec.{
  Exec, Post, Hoare, Hoare-if, Hoare-bind, Hoare-catching, Invariant, Invariant-bind,
  Invariant-recover, return,
}
use flexiv_control.Number.{Number}
use flexiv_control.Types.{Vec6, GripperCommand}

-- What is true of a robot that is not moved: the methods that the teleoperation calls keep it, the
-- servo step for the motion of zero with a command for the gripper.
record Rests {F R : Type 0} ⦃n : Number F⦄ (driven : Driven F R) (P : R → Type 0) : Type 0 where
  pub acquire_lease : (o : String) → Hoare P (driven.acquire_lease o) (λ _. P) P
  pub acquire_unnamed : Hoare P driven.acquire_unnamed (λ _. P) P
  pub start_cartesian_impedance : Hoare P driven.start_cartesian_impedance (λ _. P) P
  pub gripper_width : Hoare P driven.gripper_width (λ _. P) P
  pub no_step :
      (dt : F) (frame : String) (g : Option (GripperCommand F))
      → is_some g ≡ true
      → Hoare P (driven.servo_cartesian_delta no_motion dt frame g) (λ _. P) P

module _ {F R : Type 0} ⦃n : Number F⦄ (driven : Driven F R) (P : R → Type 0)
    (rests : Rests driven P) (i : ℕ) where
  abbrev Still : Session F R → Type 0
  Still s = P s.robot × (s.teleop.deadman_button ≡ some i)

  abbrev Keeps : {A : Type 0} → Exec (Session F R) A → Type 0
  Keeps m = Invariant Still m

  either :
      {A : Type 0} (o : Result A × R) (s : Session F R)
      → Post (λ _. P) P o
      → s.teleop.deadman_button ≡ some i
      → Post (λ _. Still) Still (o.0, record s { robot = o.1 })
  either (ok a, r) s h e = (h, e)
  either (err x, r) s h e = (h, e)

  on_robot-Keeps : {A : Type 0} (m : Exec R A) → Hoare P m (λ _. P) P → Keeps (on_robot m)
  unfolding on_robot
  on_robot-Keeps m h = record { at = λ s k. either (m s.robot) s (h.at s.robot k.0) k.1 }

  lease-Keeps : Keeps (lease driven)
  unfolding lease
  lease-Keeps =
      Invariant-bind (record { at = λ s k. k })
        λ s. on_robot-Keeps _ (
          Hoare-catching _ _ _ (λ r h. h) rests.acquire_unnamed
            (rests.acquire_lease s.teleop.owner))

  infer_open-Keeps : (o : Option Bool) → Keeps (infer_open driven o)
  unfolding infer_open
  infer_open-Keeps (some b) = record { at = λ s k. k }
  infer_open-Keeps none =
      Invariant-bind
        (Invariant-recover false
          (Invariant-bind (on_robot-Keeps _ rests.gripper_width) λ w. record { at = λ s k. k }))
        λ wide. Invariant-bind (record { at = λ s k. k }) λ u. record { at = λ s k. k }

  gripper_is_open-Keeps : Keeps (gripper_is_open driven)
  unfolding gripper_is_open
  gripper_is_open-Keeps = Invariant-bind (record { at = λ s k. k }) infer_open-Keeps

  toggle-Keeps : (t : SpaceMouseTeleop F) → Keeps (toggle driven t)
  unfolding toggle
  toggle-Keeps t =
      Invariant-bind gripper_is_open-Keeps
        λ b. Invariant-bind (record { at = λ s k. k }) λ u. record { at = λ s k. k }

  gripper_from_buttons-Keeps : (st : SpaceMouseState F) → Keeps (gripper_from_buttons driven st)
  unfolding gripper_from_buttons
  gripper_from_buttons-Keeps st =
      Invariant-bind (record { at = λ s k. k })
        λ t.
          Invariant-bind (record { at = λ s k. k })
            λ u.
              Hoare-if (is_pressed st.buttons t.gripper_button && not t.prev_pressed) _ _
                (λ e. toggle-Keeps t) λ e. record { at = λ s k. k }

  servo-Keeps :
      (t : SpaceMouseTeleop F) (grip : Option (GripperCommand F))
      → is_some grip ≡ true
      → Keeps (servo driven t no_motion grip)
  unfolding servo
  servo-Keeps t grip given =
      Invariant-bind (on_robot-Keeps _ (rests.no_step t.dt t.frame grip given))
        λ r. record { at = λ s k. k }

  tick-Keeps : (st : SpaceMouseState F) → deadman_ok (some i) st ≡ false → Keeps (tick driven st)
  unfolding tick to_delta servo
  tick-Keeps st released = Invariant-bind (gripper_from_buttons-Keeps st) λ grip.
      Hoare-bind {Q = λ t s. Still s × (t.deadman_button ≡ some i)} _ _
        (record { at = λ s k. (k, k.1) }) λ t. record { at = λ s k. gated t grip s k.0 k.1 }
    where
      gated :
          (t : SpaceMouseTeleop F) (grip : Option (GripperCommand F)) (s : Session F R)
          → P s.robot × (s.teleop.deadman_button ≡ some i)
          → t.deadman_button ≡ some i
          → Post
              (λ _ s. P s.robot × (s.teleop.deadman_button ≡ some i))
              (λ s. P s.robot × (s.teleop.deadman_button ≡ some i))
              ((if deadman_ok t.deadman_button st
                  then servo driven t (to_delta t st) grip
                  else (if is_some grip then servo driven t no_motion grip else return tt))
                s)
      gated t grip s k e =
          rw (e, released)
            ((Hoare-if (is_some grip) _ _ (λ e. servo-Keeps t grip e)
                λ e. record { at = λ s k. k }).at
              s k)

  abbrev AllReleased : List (F × SpaceMouseState F) → Type 0
  AllReleased readings = All (λ r. deadman_ok (some i) r.1 ≡ false) readings

  run_from-Keeps :
      (duration : Option F) (max_ticks : Option ℕ) (readings : List (F × SpaceMouseState F)) (k : ℕ)
      → AllReleased readings
      → Keeps (run_from driven duration max_ticks readings k)
  unfolding run_from
  run_from-Keeps duration max_ticks [] k h = record { at = λ s k. k }
  run_from-Keeps duration max_ticks ((elapsed, st) ∷ rest) k h =
      Hoare-if (is_over driven duration max_ticks elapsed k) _ _ (λ e. record { at = λ s k. k })
        λ e.
          Invariant-bind (tick-Keeps st h.0) λ u. run_from-Keeps duration max_ticks rest (k + 1) h.1

  run-Keeps :
      (duration : Option F) (max_ticks : Option ℕ) (readings : List (F × SpaceMouseState F))
      → AllReleased readings
      → Keeps (run driven duration max_ticks readings)
  unfolding run
  run-Keeps duration max_ticks readings released = Invariant-bind lease-Keeps λ u.
      Invariant-bind (on_robot-Keeps _ rests.start_cartesian_impedance)
        λ u. run_from-Keeps duration max_ticks readings 0 released

-- A servo step that was commanded.
pub record Step (F : Type 0) : Type 0 where
  pub motion : Vec6 F
  pub gripper : Option (GripperCommand F)

-- No motion, and something for the gripper to do.
abbrev pub AtRest : {F : Type 0} ⦃n : Number F⦄ → Step F → Type 0
AtRest step = (step.motion ≡ no_motion) × (is_some step.gripper ≡ true)

module _ {F R : Type 0} where
  -- A method that commands no servo step.
  abbrev unlogged : {A : Type 0} → Exec R A → Exec (R × List (Step F)) A
  unlogged m (r, log) = let (a, r') = m r in (a, (r', log))

  -- A robot with the list of the servo steps commanded of it, the newest first.
  abbrev pub recording : Driven F R → Driven F (R × List (Step F))
  recording driven = record {
    acquire_lease = λ o. unlogged (driven.acquire_lease o);
    acquire_unnamed = unlogged driven.acquire_unnamed;
    start_cartesian_impedance = unlogged driven.start_cartesian_impedance;
    gripper_width = unlogged driven.gripper_width;
    servo_cartesian_delta = λ delta dt frame grip s.
        unlogged (driven.servo_cartesian_delta delta dt frame grip)
          (s.0, record { motion = delta; gripper = grip } ∷ s.1);
  }

  module _ ⦃n : Number F⦄ (driven : Driven F R) where
    abbrev Quiet : R × List (Step F) → Type 0
    Quiet s = All AtRest s.1

    ended :
        {A : Type 0} (o : Result A × R) (log : List (Step F))
        → All AtRest log
        → Post (λ _. Quiet) Quiet (o.0, (o.1, log))
    ended (ok a, r) log h = h
    ended (err e, r) log h = h

    recording-Rests : Rests (recording driven) Quiet
    recording-Rests = record {
      acquire_lease = λ o. record { at = λ s h. ended (driven.acquire_lease o s.0) s.1 h };
      acquire_unnamed = record { at = λ s h. ended (driven.acquire_unnamed s.0) s.1 h };
      start_cartesian_impedance = record {
        at = λ s h. ended (driven.start_cartesian_impedance s.0) s.1 h;
      };
      gripper_width = record { at = λ s h. ended (driven.gripper_width s.0) s.1 h };
      no_step = λ dt frame g given. record {
        at = λ s h.
            ended (driven.servo_cartesian_delta no_motion dt frame g s.0)
              (record { motion = no_motion; gripper = g } ∷ s.1) ((refl, given), h);
      };
    }

-- With a deadman button that is not held in any reading, a run commands no motion: whatever else the
-- device reads, whatever the robot does and answers, and however the run ends, each servo step that
-- it commanded is for the motion of zero, and was commanded for the gripper's sake only.
pub run-AtRest :
    {F R : Type 0} ⦃n : Number F⦄ (driven : Driven F R) (i : ℕ) (duration : Option F)
    (max_ticks : Option ℕ) (readings : List (F × SpaceMouseState F))
    (s : Session F (R × List (Step F)))
    → All (λ r. deadman_ok (some i) r.1 ≡ false) readings
    → s.teleop.deadman_button ≡ some i
    → s.robot.1 ≡ []
    → Post
        (λ _ s'. All AtRest s'.robot.1 × (s'.teleop.deadman_button ≡ some i))
        (λ s'. All AtRest s'.robot.1 × (s'.teleop.deadman_button ≡ some i))
        (run (recording driven) duration max_ticks readings s)
run-AtRest driven i duration max_ticks readings s released armed fresh =
    (run-Keeps (recording driven) (Quiet driven) (recording-Rests driven) i duration max_ticks
        readings released).at
      s (rw fresh tt, armed)
