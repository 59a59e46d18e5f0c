-- ===== src/Tests/EnvTests.antt =====
-- An episode, and an action of the adapter, on an in-process robot with the fake backend.
use flexiv_control.Common.{◌≡◌, refl, true, false, none, [], ◌∷◌}
use flexiv_control.Common.Int.{ℤ}
use flexiv_control.Common.Result.{ok}
use flexiv_control.Common.Exec.{Post}
use flexiv_control.Number.Fixed.{fixed, fixed-IsOrdered}
use flexiv_control.Types.{ControlMode}
use flexiv_control.Backend.Fake.{FakeBackend, fake_backend}
use flexiv_control.Robot.{Robot}
use flexiv_control.Teleop.{Action}
use flexiv_control.Teleop.Intervene.{IsNormal}
use flexiv_control.Env.{Controlled, FlexivRealEnv, scale_action, reset}
use flexiv_control.Adapter.{LeRobotFlexivAdapter, commanded, send_action}
use flexiv_control.Adapter.Replay.{as_env, send_action-IsNormal}
use flexiv_control.Env.Episode.{steps, AreFlagged, steps-AreFlagged}
use flexiv_control.Env.Homed.{in_process, reset-InMode}
use flexiv_control.Tests.Numbers.{mm, whole, six, metre, robot}
use flexiv_control.Tests.MoveTests.{world}

abbrev env : FlexivRealEnv ℤ (Robot ℤ (FakeBackend ℤ))
env = record {
  robot = robot;
  step_duration = mm 100;
  max_episode_steps = 2;
  pos_scale = mm 20;
  rot_scale = mm 100;
  gripper_open_width = mm 80;
  gripper_force = whole 20;
  home_pose = none;
  owner = "gym";
  connected = false;
  elapsed = 0;
}

abbrev lab : Controlled ℤ (Robot ℤ (FakeBackend ℤ))
lab = in_process (fake_backend (whole 0)) (ok metre) world

abbrev push : Action ℤ
push = record { motion = six (mm 300); gripper = whole 1 }

steps-AreFlagged_example :
    Post
      (λ outs e'. AreFlagged lab none 2 0 (push ∷ push ∷ []) outs)
      (λ e'. Unit {0})
      (steps lab none (push ∷ push ∷ []) env)
steps-AreFlagged_example = steps-AreFlagged lab none (push ∷ push ∷ []) env refl

reset-InMode_example :
    Post
      (λ _ e'. (e'.robot.backend.mode ≡ ControlMode.nrt_cartesian_motion_force) × (e'.elapsed ≡ 0))
      (λ e'. Unit {0})
      (reset lab env)
reset-InMode_example = reset-InMode (whole 0) (ok metre) world env refl

abbrev adapter : LeRobotFlexivAdapter ℤ (Robot ℤ (FakeBackend ℤ))
adapter = record {
  robot = robot;
  step_duration = mm 50;
  pos_scale = mm 50;
  rot_scale = mm 200;
  gripper_open_width = mm 80;
  owner = "lerobot";
  connected = true;
}

-- Past the range along every axis.
abbrev shove : Action ℤ
shove = record { motion = six (mm 1300); gripper = whole 2 }

send_action-IsNormal_example :
    Post
      (λ out e'.
        IsNormal out
        × (send_action lab out adapter ≡ send_action lab shove adapter)
        × (commanded adapter out ≡ scale_action (as_env adapter) shove))
      (λ e'. Unit {0})
      (send_action lab shove adapter)
send_action-IsNormal_example = send_action-IsNormal fixed-IsOrdered refl lab shove adapter adapter
