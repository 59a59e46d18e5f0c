-- ===== src/Types.antt =====
-- src/flexiv_control/types.py: the data that the whole stack shares, over any type of numbers.
-- An array of fixed size is a record of its entries; one entry per joint is a list.
use text.Mathlib.Text.{starts_with, find?}
use flexiv_control.Common.{ℕ, String, Bool, true, false, List, is_some}
use flexiv_control.Number.{Number, ◌⊕◌, ◌⊗◌, ◌⊘◌, zero_num, one_num, clip}

pub data ControlMode : Type 0 where
  idle nrt_joint_position nrt_joint_impedance nrt_cartesian_motion_force nrt_primitive : ControlMode
  rt_joint_position rt_joint_impedance rt_cartesian_motion_force rt_joint_torque : ControlMode

unfoldable pub mode_value : ControlMode → String
mode_value ControlMode.idle = "idle"
mode_value ControlMode.nrt_joint_position = "nrt_joint_position"
mode_value ControlMode.nrt_joint_impedance = "nrt_joint_impedance"
mode_value ControlMode.nrt_cartesian_motion_force = "nrt_cartesian_motion_force"
mode_value ControlMode.nrt_primitive = "nrt_primitive"
mode_value ControlMode.rt_joint_position = "rt_joint_position"
mode_value ControlMode.rt_joint_impedance = "rt_joint_impedance"
mode_value ControlMode.rt_cartesian_motion_force = "rt_cartesian_motion_force"
mode_value ControlMode.rt_joint_torque = "rt_joint_torque"

unfoldable pub is_realtime : ControlMode → Bool
unfolding mode_value
is_realtime m = starts_with (mode_value m) "rt_"

unfoldable pub is_cartesian : ControlMode → Bool
unfolding mode_value
is_cartesian m = is_some (find? (mode_value m) "cartesian")

-- mode == ControlMode.IDLE
abbrev pub is_idle : ControlMode → Bool
is_idle ControlMode.idle = true
is_idle _ = false

pub data SafetyStatus : Type 0 where
  ok clipped holding stopped fault : SafetyStatus

unfoldable pub status_value : SafetyStatus → String
status_value SafetyStatus.ok = "ok"
status_value SafetyStatus.clipped = "clipped"
status_value SafetyStatus.holding = "holding"
status_value SafetyStatus.stopped = "stopped"
status_value SafetyStatus.fault = "fault"

pub data StopReason : Type 0 where
  nothing user stale_command stale_state workspace joint_limit : StopReason
  tcp_speed pose_jump contact_wrench lease mode backend_fault : StopReason

unfoldable pub reason_value : StopReason → String
reason_value StopReason.nothing = "none"
reason_value StopReason.user = "user"
reason_value StopReason.stale_command = "stale_command"
reason_value StopReason.stale_state = "stale_state"
reason_value StopReason.workspace = "workspace_limit"
reason_value StopReason.joint_limit = "joint_limit"
reason_value StopReason.tcp_speed = "tcp_speed_limit"
reason_value StopReason.pose_jump = "pose_jump_limit"
reason_value StopReason.contact_wrench = "contact_wrench"
reason_value StopReason.lease = "lease_violation"
reason_value StopReason.mode = "mode_incompatible"
reason_value StopReason.backend_fault = "backend_fault"

pub record Vec3 (F : Type 0) : Type 0 where
  pub x : F
  pub y : F
  pub z : F

-- (w, x, y, z)
pub record Quat (F : Type 0) : Type 0 where
  pub w : F
  pub x : F
  pub y : F
  pub z : F

-- A TCP pose [x, y, z, qw, qx, qy, qz].
pub record Pose (F : Type 0) : Type 0 where
  pub position : Vec3 F
  pub quat : Quat F

-- A wrench [fx, fy, fz, tx, ty, tz], or any other array with one entry per Cartesian axis.
pub record Vec6 (F : Type 0) : Type 0 where
  pub linear : Vec3 F
  pub angular : Vec3 F

pub record RobotState (F : Type 0) : Type 0 where
  pub stamp : F
  pub q : List F
  pub dq : List F
  pub tau : List F
  pub tcp_pose : Pose F
  pub tcp_vel : Vec6 F
  pub wrench : Vec6 F
  pub gripper_width : F
  pub gripper_force : F
  pub gripper_is_moving : Bool
  pub control_mode : ControlMode
  pub safety_status : SafetyStatus
  pub stop_reason : StopReason
  pub active_owner : String
  pub command_latency_ms : F
  pub loop_period_ms : F
  pub loop_jitter_us : F
  pub missed_cycles : ℕ

pub record ImpedanceParams (F : Type 0) : Type 0 where
  pub stiffness : Vec6 F
  pub damping_ratio : Vec6 F

pub record JointImpedanceParams (F : Type 0) : Type 0 where
  pub stiffness : List F
  pub damping_ratio : List F

-- The flags of `enabled_axes` in the order of a wrench's entries.
pub record ForceControlParams (F : Type 0) : Type 0 where
  pub enabled_axes : Vec6 Bool
  pub target_wrench : Vec6 F
  pub frame : String

pub record GripperCommand (F : Type 0) : Type 0 where
  pub width : F
  pub force : F
  pub velocity : F
  pub grasp : Bool

module _ {F : Type 0} ⦃n : Number F⦄ where
  unfoldable pub from_normalized : F → (span min_width force velocity : F) → GripperCommand F
  from_normalized opening span min_width force velocity = record {
    width = min_width ⊕ clip opening zero_num one_num ⊗ span;
    force = force;
    velocity = velocity;
    grasp = false;
  }

  unfoldable pub from_signed_action : F → (span min_width force velocity : F) → GripperCommand F
  unfolding from_normalized
  from_signed_action action span min_width force velocity =
      let a = clip action (n.neg one_num) one_num in
      let cmd = from_normalized ((a ⊕ one_num) ⊘ n.of_nat 2) span min_width force velocity in
      record cmd { grasp = n.lt a zero_num }
