-- ===== src/Tests/MoveTests.antt =====
-- The joint executor, the wait for the gripper and the ritual home.
use flexiv_control.Common.{
  ℕ, ◌≡◌, ◌⊎◌, inl, refl, true, false, none, some, List, [], ◌∷◌, ◌++◌, arith,
}
use flexiv_control.Common.Int.{ℤ}
use flexiv_control.Common.Exec.{Post}
use flexiv_control.Number.Fixed.{fixed, fixed-IsOrdered, fixed-IsExact}
use flexiv_control.Types.{ControlMode, GripperCommand}
use flexiv_control.Safety.Joint.{max_joint_step}
use flexiv_control.Backend.Fake.{FakeBackend, fake_backend}
use flexiv_control.Robot.{Robot}
use flexiv_control.Robot.Joint.{run_joints, first_joint_run}
use flexiv_control.Robot.Joint.Answers.{Sound}
use flexiv_control.Robot.Joint.Streamed.{run_joints-Sound}
use flexiv_control.Robot.Gripper.{Glance, command_gripper, Answers, command_gripper-Answers}
use flexiv_control.Robot.GoHome.{World, go_home_safe}
use flexiv_control.Robot.GoHome.Dropped.{SaysStopped, go_home_safe-drops_stop}
use flexiv_control.Tests.Numbers.{mm, whole, metre, filter, robot}

abbrev posture : List ℤ
posture = whole 1 ∷ whole 1 ∷ []

abbrev targets : List (List ℤ)
targets = (mm 1100 ∷ whole 1 ∷ []) ∷ (mm 1500 ∷ whole 1 ∷ []) ∷ []

run_joints-Sound_example :
    Post
      (λ run' (r' : Robot ℤ (FakeBackend ℤ)).
        Sound metre (max_joint_step filter) (r'.backend.joint_log ++ (posture ∷ []))
        × ((run'.stopped ≡ none) ⊎ (r'.backend.mode ≡ ControlMode.idle)))
      (λ r'. Sound metre (max_joint_step filter) (r'.backend.joint_log ++ (posture ∷ [])))
      (run_joints (fake_backend (whole 0)) (λ k. false) targets first_joint_run robot)
run_joints-Sound_example =
    run_joints-Sound metre (max_joint_step filter) fixed-IsOrdered fixed-IsExact refl posture
      (whole 0) (λ k. false) targets robot
      (
        ((refl, (refl, tt)), inl (refl, refl, (refl, refl, tt))),
        (((refl, (refl, tt)), inl (refl, refl, (refl, refl, tt))), tt),
      )
      refl (refl, refl, (refl, refl, tt)) (refl, refl, refl)

-- A clock that gains 0.4 s with each turn.
abbrev glances : ℕ → Glance ℤ
glances k = record {
  at_test = fixed.mul (fixed.lit 4 1) (whole k);
  requested = false;
  at_dwell = fixed.mul (fixed.lit 4 1) (whole k);
}

-- A grasp, which has no target width.
abbrev grasp : GripperCommand ℤ
grasp = record { width = whole 0; force = whole 20; velocity = mm 100; grasp = true }

command_gripper-Answers_example :
    Post
      (λ g (r' : Robot ℤ (FakeBackend ℤ)). Answers true g)
      (λ r'. Unit)
      (command_gripper (fake_backend (whole 0)) grasp true (whole 1) (whole 0) glances 4 robot)
command_gripper-Answers_example =
    command_gripper-Answers (fake_backend (whole 0)) grasp true (whole 1) (whole 0) glances 4 3
      robot (omega arith) refl

abbrev pub world : World ℤ
world = record {
  lifting = λ k. false;
  waiting = record { t0 = whole 0; glances = glances; fuel = 20 };
  requested = false;
  moving = λ k. false;
}

abbrev stopping : Robot ℤ (FakeBackend ℤ)
stopping = record robot { cancel = true }

go_home_safe-drops_stop_example :
    Post
      (λ h (r' : Robot ℤ (FakeBackend ℤ)).
        (h.skipped ≡ false) × SaysStopped (whole 0) (mm 100) (mm 100) h.lift)
      (λ r'. Unit)
      (go_home_safe
        (fake_backend (whole 0))
        (some posture)
        (mm 100)
        none
        (mm 100)
        (mm 300)
        world
        stopping)
go_home_safe-drops_stop_example =
    go_home_safe-drops_stop (whole 0) (mm 100) (mm 100) (some posture) (mm 300) world stopping refl
      refl refl
