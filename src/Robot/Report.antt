-- ===== src/Robot/Report.antt =====
-- `ExecutionResult`, with the entries that the executors put into its `log`.
use flexiv_control.Common.{ℕ, String, Bool, false, Option, none, List, []}
use flexiv_control.Number.{Number, zero_num}
use flexiv_control.Types.{StopReason, Vec6, Pose, RobotState}

-- Why a close was skipped: its segment, the tracking error where it was measured, and `clipped`.
pub record CloseAborted (F : Type 0) : Type 0 where
  pub segment : ℕ
  pub tracking_error_m : Option F
  pub stopped : Option StopReason
  pub clipped : Bool

-- A row of the trajectory, but for its time.
pub record TrajectoryRow (F : Type 0) : Type 0 where
  pub pose_cmd : Pose F
  pub pose_meas : Pose F
  pub wrench : Vec6 F

pub record ExecutionLog (F : Type 0) : Type 0 where
  pub requested_profile : String
  pub active_profile : String
  pub aborted_at_entry : Bool
  pub mode_autostarted : Bool
  pub linear_speed_cap : Option F
  pub angular_speed_cap : Option F
  pub contact_wrench_allowance : Option (Vec6 F)
  pub close_aborted : Option (CloseAborted F)
  pub wrench_restore_failed : Bool
  pub trajectory : List (TrajectoryRow F)
  pub stopped_at_waypoint : Option ℕ

pub record ExecutionResult (F : Type 0) : Type 0 where
  pub success : Bool
  pub clipped : Bool
  pub stop_reason : StopReason
  pub executed_duration : F
  pub path_tracking_error : F
  pub max_tcp_speed : F
  pub max_wrench : F
  pub gripper_width_final : F
  pub final_state : Option (RobotState F)
  pub log : ExecutionLog F

abbrev pub empty_log : {F : Type 0} → ExecutionLog F
empty_log = record {
  requested_profile = "";
  active_profile = "";
  aborted_at_entry = false;
  mode_autostarted = false;
  linear_speed_cap = none;
  angular_speed_cap = none;
  contact_wrench_allowance = none;
  close_aborted = none;
  wrench_restore_failed = false;
  trajectory = [];
  stopped_at_waypoint = none;
}

-- `ExecutionResult(success=..., stop_reason=...)`
abbrev pub result_of : {F : Type 0} ⦃n : Number F⦄ → Bool → StopReason → ExecutionResult F
result_of success reason = record {
  success = success;
  clipped = false;
  stop_reason = reason;
  executed_duration = zero_num;
  path_tracking_error = zero_num;
  max_tcp_speed = zero_num;
  max_wrench = zero_num;
  gripper_width_final = zero_num;
  final_state = none;
  log = empty_log;
}
