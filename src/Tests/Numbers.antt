-- ===== src/Tests/Numbers.antt =====
-- The fixed-point numbers meet what the interpolation relies on, and data that the tests share.
use flexiv_control.Common.{
  ℕ, ◌*◌, ◌/◌, ◌≤◌, ◌≡◌, refl, true, false, none, some, List, [], ◌∷◌, arith,
}
use flexiv_control.Common.Int.{ℤ}
use native.Mathlib.Nat.{mul-div_cancel_left}
use flexiv_control.Number.Fixed.{fixed}
use flexiv_control.Interpolation.Reach.{IsEased}
use flexiv_control.Types.{
  ControlMode, SafetyStatus, StopReason, Quat, Vec6, Pose, RobotState, ImpedanceParams,
}
use flexiv_control.Transforms.{vec3}
use flexiv_control.Safety.Profile.{clips, SafetyProfile, SafetyFilter}
use flexiv_control.ActionChunk.{CartesianWaypoint, CartesianChunk, absolute}
use flexiv_control.Backend.Fake.{FakeBackend}
use flexiv_control.Robot.{Robot}

scale_cancel :
    (k : ℕ) → 1 ≤ k → k * 1_000_000_000 * 1_000_000_000 / (k * 1_000_000_000) ≡ 1_000_000_000
scale_cancel k h = mul-div_cancel_left 1_000_000_000 {n = k * 1_000_000_000} (omega arith)

pub fixed-IsEased : IsEased ℤ
fixed-IsEased = record {
  div_self = λ k h. ground (arith, scale_cancel k h);
  cos_pi = refl;
  halves = refl;
  zero-le-one = refl;
  one-le-one = refl;
  mul_one = λ a. ground arith;
}

-- Millimetres, and whole units.
abbrev pub mm : ℕ → ℤ
mm k = fixed.lit k 3

abbrev pub whole : ℕ → ℤ
whole = fixed.of_nat

abbrev pub level : Quat ℤ
level = record { w = whole 1; x = whole 0; y = whole 0; z = whole 0 }

abbrev pub at : ℕ → ℕ → ℕ → Pose ℤ
at x y z = record { position = vec3 (mm x) (mm y) (mm z); quat = level }

abbrev pub six : ℤ → Vec6 ℤ
six a = record { linear = vec3 a a a; angular = vec3 a a a }

abbrev pub state_at : Pose ℤ → ControlMode → RobotState ℤ
state_at pose mode = record {
  stamp = whole 0;
  q = whole 0 ∷ whole 1 ∷ [];
  dq = whole 0 ∷ whole 0 ∷ [];
  tau = whole 0 ∷ whole 0 ∷ [];
  tcp_pose = pose;
  tcp_vel = six (whole 0);
  wrench = six (whole 0);
  gripper_width = mm 80;
  gripper_force = whole 0;
  gripper_is_moving = false;
  control_mode = mode;
  safety_status = SafetyStatus.ok;
  stop_reason = StopReason.nothing;
  active_owner = "";
  command_latency_ms = whole 0;
  loop_period_ms = whole 0;
  loop_jitter_us = whole 0;
  missed_cycles = 0;
}

-- A box of a metre, from 0 to 1 on each axis.
abbrev pub metre : SafetyProfile ℤ
metre = record {
  name = "lab";
  ws_x = record { low = whole 0; high = whole 1 };
  ws_y = record { low = whole 0; high = whole 1 };
  ws_z = record { low = whole 0; high = whole 1 };
  workspace_action = clips;
  max_linear_speed = whole 1;
  max_angular_speed = whole 1;
  max_pose_jump_linear = mm 100;
  max_pose_jump_angular = mm 500;
  max_linear_accel = none;
  joint_margin_rad = mm 50;
  max_joint_speed_scale = whole 1;
  joint_lower = mm 0 ∷ mm 0 ∷ [];
  joint_upper = whole 2 ∷ whole 2 ∷ [];
  max_contact_wrench = six (whole 20);
  max_wrench_allowance = six (whole 5);
  command_timeout_ms = whole 100;
  state_timeout_ms = whole 100;
  stop_on_stale_command = true;
  stop_on_state_stale = false;
  hold_timeout_ms = none;
}

-- The filter at 10 Hz, after a command to the middle of the box.
abbrev pub middle : Pose ℤ
middle = at 500 500 500

abbrev pub filter : SafetyFilter ℤ
filter = record {
  p = metre;
  dt = mm 100;
  prev_pose = some middle;
  prev_q = some (whole 1 ∷ whole 1 ∷ []);
  prev_lin_vel = none;
}

abbrev pub stiff : ImpedanceParams ℤ
stiff = record { stiffness = six (whole 1000); damping_ratio = six (mm 700) }

abbrev pub fake : FakeBackend ℤ
fake = record {
  connected = true;
  mode = ControlMode.nrt_cartesian_motion_force;
  alpha = whole 1;
  pose = middle;
  q = whole 1 ∷ whole 1 ∷ [];
  gripper_width = mm 80;
  gripper_force = whole 0;
  gripper_moving = false;
  impedance = stiff;
  max_wrench = six (whole 20);
  fault = false;
  cartesian_log = [];
  joint_log = [];
  gripper_log = [];
  mode_log = [];
}

abbrev pub robot : Robot ℤ (FakeBackend ℤ)
robot = record {
  backend = fake;
  control_hz = whole 10;
  dt = mm 100;
  profile = metre;
  filter = filter;
  owner = none;
  cancel = false;
  last_state = none;
  q_home = [];
  gripper_home_width = none;
  default_impedance = stiff;
  default_joint_impedance = record { stiffness = []; damping_ratio = [] };
}

abbrev pub waypoint : ℕ → ℕ → ℕ → CartesianWaypoint ℤ
waypoint x y z = record {
  position = vec3 (mm x) (mm y) (mm z);
  quaternion = none;
  gripper = none;
  n_frames = some 2;
  duration = none;
  frame = "base";
}

abbrev pub chunk_of : List (CartesianWaypoint ℤ) → CartesianChunk ℤ
chunk_of ws = record {
  waypoints = ws;
  impedance = stiff;
  force_control = none;
  max_tcp_linear_speed = whole 1;
  max_tcp_angular_speed = whole 1;
  max_tcp_linear_acc = whole 1;
  max_tcp_angular_acc = whole 1;
  max_contact_wrench = none;
  contact_wrench_allowance = some (six (whole 2));
  grip_tracking_gate_m = none;
  safety_profile = "";
  frame = "base";
  representation = absolute;
  n_execute = some 1;
}

abbrev pub two_waypoints : CartesianChunk ℤ
two_waypoints = chunk_of (waypoint 500 500 400 ∷ waypoint 500 500 300 ∷ [])
