-- ===== src/Tests/TeleopTests.antt =====
-- The teleoperation of an arm of which only the height is known.
use flexiv_control.Common.{ℕ, ◌≡◌, refl, true, false, some, none, List, [], ◌∷◌, All}
use flexiv_control.Common.Int.{ℤ, ◌+ℤ◌}
use flexiv_control.Common.Result.{ok}
use flexiv_control.Common.Exec.{Post, return}
use flexiv_control.Number.Fixed.{fixed, fixed-IsOrdered}
use flexiv_control.Types.{StopReason}
use flexiv_control.Robot.Report.{result_of}
use flexiv_control.Teleop.{
  SpaceMouseState, Driven, SpaceMouseTeleop, Session, Action, no_motion, is_pressed, toggle_command,
  deadman_ok, intervention, run,
}
use flexiv_control.Teleop.Gripper.{commands, commands-alternating}
use flexiv_control.Teleop.Deadman.{Step, AtRest, recording, run-AtRest}
use flexiv_control.Teleop.Intervene.{Decides, intervention-Decides}
use flexiv_control.Tests.Numbers.{mm, whole, six}

abbrev driven : Driven ℤ ℤ
driven = record {
  acquire_lease = λ owner. return tt;
  acquire_unnamed = return tt;
  start_cartesian_impedance = return tt;
  gripper_width = return (mm 80);
  servo_cartesian_delta = λ delta dt frame grip height.
      (ok (result_of true StopReason.nothing), height +ℤ delta.linear.z);
}

abbrev teleop : SpaceMouseTeleop ℤ
teleop = record {
  dt = mm 50;
  pos_scale = mm 200;
  rot_scale = mm 800;
  deadband = mm 50;
  deadman_button = some 0;
  gripper_button = 1;
  gripper_open_width = mm 80;
  gripper_close_width = whole 0;
  signs = six (whole 1);
  frame = "tcp";
  owner = "spacemouse";
  gripper_open = some true;
  prev_pressed = false;
}

abbrev session : Session ℤ ℤ
session = record { teleop = teleop; robot = mm 500 }

-- The device pushed along every axis, with these buttons.
abbrev reading : List ℕ → SpaceMouseState ℤ
reading buttons = record {
  translation = (six (mm 900)).linear;
  rotation = (six (mm 900)).angular;
  buttons = buttons;
}

-- The gripper's button is pressed and held, released, and pressed again.
abbrev held : List (SpaceMouseState ℤ)
held =
    reading (0 ∷ 1 ∷ []) ∷ reading (0 ∷ 1 ∷ []) ∷ reading (0 ∷ 0 ∷ []) ∷ reading (0 ∷ 1 ∷ []) ∷ []

commands-alternating_example :
    commands driven held session ≡ toggle_command teleop false ∷ toggle_command teleop true ∷ []
unfolding is_pressed
commands-alternating_example = commands-alternating driven held session true refl

abbrev readings : List (ℤ × SpaceMouseState ℤ)
readings = (mm 0, reading (0 ∷ 1 ∷ [])) ∷ (mm 50, reading (0 ∷ 0 ∷ [])) ∷ []

abbrev recorded : Session ℤ (ℤ × List (Step ℤ))
recorded = record { teleop = teleop; robot = (mm 500, []) }

run-AtRest_example :
    Post
      (λ _ s'. All AtRest s'.robot.1 × (s'.teleop.deadman_button ≡ some 0))
      (λ s'. All AtRest s'.robot.1 × (s'.teleop.deadman_button ≡ some 0))
      (run (recording driven) (some (whole 1)) none readings recorded)
unfolding deadman_ok is_pressed
run-AtRest_example =
    run-AtRest driven 0 (some (whole 1)) none readings recorded (refl, (refl, tt)) refl refl

abbrev planned : Action ℤ
planned = record { motion = no_motion; gripper = whole 1 }

intervention-Decides_example :
    Post
      (λ out s'. Decides teleop (reading (1 ∷ 0 ∷ [])) planned s'.teleop.gripper_open out)
      (λ s'. ⊥)
      (intervention driven (reading (1 ∷ 0 ∷ [])) planned session)
intervention-Decides_example =
    intervention-Decides fixed-IsOrdered refl driven (reading (1 ∷ 0 ∷ [])) planned session
