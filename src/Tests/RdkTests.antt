-- ===== src/Tests/RdkTests.antt =====
-- The hardware backend over a package that only logs its commands.
use flexiv_control.Common.{◌≡◌, ◌⊎◌, inl, inr, refl, true, false, some, none, List, [], ◌∷◌, All}
use flexiv_control.Common.Int.{ℤ}
use flexiv_control.Common.Result.{ok}
use flexiv_control.Common.Exec.{Post, return, ◌>>◌}
use flexiv_control.Number.{clip, num_max, num_min}
use flexiv_control.Number.Fixed.{fixed, fixed-IsOrdered, fixed-IsExact}
use flexiv_control.Types.{ControlMode, is_realtime, is_cartesian, ForceControlParams}
use flexiv_control.Safety.Cartesian.Stages.{all_close, clip_position}
use flexiv_control.Backend.{ModeRequest}
use flexiv_control.Backend.Rdk.{Command, Sdk, FlexivRdk, on_sdk}
use flexiv_control.Backend.Rdk.Methods.{motion_force, set_mode, stop, stream_cartesian, rdk_backend}
use flexiv_control.Backend.Rdk.Records.{Records, Gated}
use flexiv_control.Backend.Rdk.Torque.{
  Call, connects, sets_mode, streams_joint, stops, after_all, IsTorqueFree, after_all-IsTorqueFree,
}
use flexiv_control.Backend.Rdk.Leftover.{stop_restart-wrench}
use flexiv_control.Robot.{Robot}
use flexiv_control.Robot.Cartesian.{run_ticks}
use flexiv_control.Robot.Cartesian.Method.{first_run}
use flexiv_control.Robot.Cartesian.Box.{IsReady}
use flexiv_control.Robot.Cartesian.Hardware.{IsContained, run_ticks-IsContained}
use flexiv_control.Tests.Numbers.{mm, whole, six, metre, middle, robot, stiff}
use flexiv_control.Tests.SafetyTests.{metre-IsSound}
use flexiv_control.Tests.RobotTests.{orders, ticks, run}

abbrev Log : Type 0
Log = List (Command ℤ)

abbrev maker : Sdk ℤ Log
maker = record {
  exposes = λ m. true;
  open_robot = return tt;
  open_gripper = return tt;
  call = λ c log. (ok tt, c ∷ log);
  has_fault = true;
  fault = return false;
  clear_fault = return true;
  operational = return true;
  mode_is_idle = return false;
  states = return (record {
    q = some (whole 1 ∷ whole 1 ∷ []);
    dq = none;
    tau = none;
    tcp_pose = some middle;
    tcp_vel = none;
    wrench = none;
  });
  busy = return false;
  reached_target = return (some true);
  gripper_states = return (record { width = mm 80; force = whole 0 });
  gripper_moving = return false;
  lower = λ s. s;
}

maker-Records : Records maker (λ log. log)
maker-Records = record {
  call = λ c v. refl;
  open_robot = λ v. refl;
  open_gripper = λ v. refl;
  fault = λ v. refl;
  clear_fault = λ v. refl;
  operational = λ v. refl;
  mode_is_idle = λ v. refl;
  states = λ v. refl;
  busy = λ v. refl;
  reached_target = λ v. refl;
  gripper_states = λ v. refl;
  gripper_moving = λ v. refl;
}

abbrev hardware : FlexivRdk ℤ Log
hardware = record {
  sdk = [];
  attached = true;
  n_joints = 2;
  gripper_name = none;
  allow_torque = false;
  gripper = false;
  mode = ControlMode.nrt_cartesian_motion_force;
  connected = true;
  force_control = none;
}

abbrev request : ControlMode → ModeRequest ℤ
request mode = record {
  mode = mode;
  impedance = some stiff;
  joint_impedance = none;
  max_contact_wrench = none;
  force_control = none;
  nullspace_q = none;
}

abbrev calls : List (Call ℤ)
calls =
    connects (whole 0 ∷ []) (whole 0 ∷ [])
    ∷ sets_mode (request ControlMode.rt_joint_torque)
    ∷ sets_mode (request ControlMode.rt_joint_position)
    ∷ streams_joint (whole 1 ∷ whole 1 ∷ [])
    ∷ stops
    ∷ []

after_all-IsTorqueFree_example :
    ((after_all maker calls hardware).allow_torque ≡ false)
    × All IsTorqueFree (after_all maker calls hardware).sdk
after_all-IsTorqueFree_example =
    after_all-IsTorqueFree maker (λ log. log) maker-Records calls hardware refl tt

-- Force control along the vertical axis.
abbrev pressing : ForceControlParams ℤ
pressing = record {
  enabled_axes = record {
    linear = record { x = false; y = false; z = true };
    angular = record { x = false; y = false; z = false };
  };
  target_wrench = six (whole 5);
  frame = "tcp";
}

stop_restart-wrench_example :
    Post
      (λ _ b'.
        stream_cartesian maker middle none b'
        ≡ on_sdk (maker.call (motion_force (is_realtime b'.mode) middle (six (whole 5)))) b')
      (λ _. Unit {0})
      ((stop maker >> set_mode maker (request ControlMode.rt_cartesian_motion_force))
        (record hardware { force_control = some pressing }))
unfolding is_cartesian
stop_restart-wrench_example =
    stop_restart-wrench maker pressing (request ControlMode.rt_cartesian_motion_force) middle
      (record hardware { force_control = some pressing }) refl refl refl

abbrev arm : Robot ℤ (FlexivRdk ℤ Log)
arm = record {
  backend = hardware;
  control_hz = robot.control_hz;
  dt = robot.dt;
  profile = robot.profile;
  filter = robot.filter;
  owner = robot.owner;
  cancel = robot.cancel;
  last_state = robot.last_state;
  q_home = robot.q_home;
  gripper_home_width = robot.gripper_home_width;
  default_impedance = robot.default_impedance;
  default_joint_impedance = robot.default_joint_impedance;
}

run_ticks-IsContained_example :
    Post
      (λ run' r'.
        (Gated maker (λ log. log) maker-Records (IsContained metre) r'.backend
          × IsReady metre r'.filter)
        × ((run'.stopped ≡ none) ⊎ (r'.backend.mode ≡ ControlMode.idle)))
      (λ r'.
        Gated maker (λ log. log) maker-Records (IsContained metre) r'.backend
        × IsReady metre r'.filter)
      (run_ticks (rdk_backend maker (whole 0) [] [] []) orders ticks run arm)
unfolding first_run all_close clip_position clip num_max num_min
run_ticks-IsContained_example =
    run_ticks-IsContained metre maker (λ log. log) maker-Records fixed-IsOrdered fixed-IsExact
      metre-IsSound refl (whole 0) [] [] [] orders ticks run arm
      (inl ((refl, refl), (refl, refl), (refl, refl)), (inr refl, tt)) refl refl tt
      (refl, refl, (middle, refl, ((refl, refl), (refl, refl), (refl, refl))))
