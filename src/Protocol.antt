-- ===== src/Protocol.antt =====
-- src/flexiv_control/server/protocol.py: the structured objects as JSON values. An array of the wrong
-- size is an error where it is decoded. `json.dumps` and `json.loads` are not modelled.
pub mod Wire
pub mod Decode
pub mod RoundTrip
pub mod Outcome
use flexiv_control.Common.{
  ℕ, String, Bool, true, false, Option, none, some, List, [], ◌∷◌, map, str_eq, if◌then◌else◌,
}
use flexiv_control.Common.Result.{Result, ok, err, value_error, ◌>>=◌}
use flexiv_control.Number.{Number, zero_num, one_num}
use flexiv_control.Types.{
  ControlMode, mode_value, SafetyStatus, status_value, StopReason, reason_value, Vec3, Quat, Vec6,
  Pose, RobotState, ImpedanceParams, ForceControlParams, GripperCommand,
}
use flexiv_control.Transforms.{vec3}
use flexiv_control.ActionChunk.{
  CartesianWaypoint, CartesianChunk, JointWaypoint, JointChunk, ChunkRepresentation, absolute,
  relative_to_start, make_waypoint, make_chunk, make_joint_waypoint, make_joint_chunk,
}
use flexiv_control.Protocol.Wire.{
  Json, null, boolean, number, integer, text, array, object, dict, items, get_item, get, each,
  as_text, as_count, count, decode_all, Builtins, as_float, as_int, as_bool, as_optional, as_floats,
}

-- ControlMode(value): the member of that value.
unfoldable pub member_of : {A : Type 0} → (A → String) → List A → String → Result A
member_of value [] t = err value_error
member_of value (a ∷ rest) t = if str_eq (value a) t then ok a else member_of value rest t

abbrev modes : List ControlMode
modes =
    ControlMode.idle ∷ ControlMode.nrt_joint_position ∷ ControlMode.nrt_joint_impedance
    ∷ ControlMode.nrt_cartesian_motion_force ∷ ControlMode.nrt_primitive
    ∷ ControlMode.rt_joint_position ∷ ControlMode.rt_joint_impedance
    ∷ ControlMode.rt_cartesian_motion_force ∷ ControlMode.rt_joint_torque ∷ []

abbrev statuses : List SafetyStatus
statuses =
    SafetyStatus.ok ∷ SafetyStatus.clipped ∷ SafetyStatus.holding ∷ SafetyStatus.stopped
    ∷ SafetyStatus.fault ∷ []

abbrev reasons : List StopReason
reasons =
    StopReason.nothing ∷ StopReason.user ∷ StopReason.stale_command ∷ StopReason.stale_state
    ∷ StopReason.workspace ∷ StopReason.joint_limit ∷ StopReason.tcp_speed ∷ StopReason.pose_jump
    ∷ StopReason.contact_wrench ∷ StopReason.lease ∷ StopReason.mode ∷ StopReason.backend_fault ∷ []

unfoldable pub representation_value : ChunkRepresentation → String
representation_value absolute = "absolute"
representation_value relative_to_start = "relative_to_start"

abbrev representations : List ChunkRepresentation
representations = absolute ∷ relative_to_start ∷ []

unfoldable pub mode_of : String → Result ControlMode
mode_of = member_of mode_value modes

unfoldable pub status_of : String → Result SafetyStatus
status_of = member_of status_value statuses

unfoldable pub reason_of : String → Result StopReason
reason_of = member_of reason_value reasons

unfoldable pub representation_of : String → Result ChunkRepresentation
representation_of = member_of representation_value representations

module _ {F : Type 0} where
  -- x.tolist()
  unfoldable pub floats : List F → Json F
  floats xs = array (items (map number xs))

  unfoldable pub vec3_list : Vec3 F → Json F
  vec3_list v = floats (v.x ∷ v.y ∷ v.z ∷ [])

  unfoldable pub quat_list : Quat F → Json F
  quat_list q = floats (q.w ∷ q.x ∷ q.y ∷ q.z ∷ [])

  unfoldable pub vec6_list : Vec6 F → Json F
  vec6_list v =
      floats (v.linear.x ∷ v.linear.y ∷ v.linear.z ∷ v.angular.x ∷ v.angular.y ∷ v.angular.z ∷ [])

  unfoldable pub pose_list : Pose F → Json F
  pose_list p =
      floats (
        p.position.x ∷ p.position.y ∷ p.position.z ∷ p.quat.w ∷ p.quat.x ∷ p.quat.y ∷ p.quat.z ∷ [])

  unfoldable pub flags_list : Vec6 Bool → Json F
  flags_list v = array (
      items (
        map boolean
          (v.linear.x ∷ v.linear.y ∷ v.linear.z ∷ v.angular.x ∷ v.angular.y ∷ v.angular.z ∷ [])))

  -- None if x is None else encode(x)
  unfoldable pub optional : {A : Type 0} → (A → Json F) → Option A → Json F
  optional encode none = null
  optional encode (some a) = encode a

  unfoldable pub gripper_to_dict : Option (GripperCommand F) → Json F
  gripper_to_dict none = null
  gripper_to_dict (some g) = dict (
      ("width", number g.width)
      ∷ ("force", number g.force)
      ∷ ("velocity", number g.velocity)
      ∷ ("grasp", boolean g.grasp)
      ∷ [])

  unfoldable pub state_to_dict : RobotState F → Json F
  state_to_dict s = dict (
      ("stamp", number s.stamp)
      ∷ ("q", floats s.q)
      ∷ ("dq", floats s.dq)
      ∷ ("tau", floats s.tau)
      ∷ ("tcp_pose", pose_list s.tcp_pose)
      ∷ ("tcp_vel", vec6_list s.tcp_vel)
      ∷ ("wrench", vec6_list s.wrench)
      ∷ ("gripper_width", number s.gripper_width)
      ∷ ("gripper_force", number s.gripper_force)
      ∷ ("gripper_is_moving", boolean s.gripper_is_moving)
      ∷ ("control_mode", text (mode_value s.control_mode))
      ∷ ("safety_status", text (status_value s.safety_status))
      ∷ ("stop_reason", text (reason_value s.stop_reason))
      ∷ ("active_owner", text s.active_owner)
      ∷ ("command_latency_ms", number s.command_latency_ms)
      ∷ ("loop_period_ms", number s.loop_period_ms)
      ∷ ("loop_jitter_us", number s.loop_jitter_us)
      ∷ ("missed_cycles", integer s.missed_cycles)
      ∷ [])

  unfoldable pub waypoint_to_dict : CartesianWaypoint F → Json F
  waypoint_to_dict w = dict (
      ("position", vec3_list w.position)
      ∷ ("quaternion", optional quat_list w.quaternion)
      ∷ ("gripper", gripper_to_dict w.gripper)
      ∷ ("n_frames", count w.n_frames)
      ∷ ("duration", optional number w.duration)
      ∷ ("frame", text w.frame)
      ∷ [])

  unfoldable pub impedance_to_dict : ImpedanceParams F → Json F
  impedance_to_dict imp =
      dict (
        ("stiffness", vec6_list imp.stiffness)
        ∷ ("damping_ratio", vec6_list imp.damping_ratio)
        ∷ [])

  unfoldable pub force_to_dict : ForceControlParams F → Json F
  force_to_dict fc = dict (
      ("enabled_axes", flags_list fc.enabled_axes)
      ∷ ("target_wrench", vec6_list fc.target_wrench)
      ∷ ("frame", text fc.frame)
      ∷ [])

  unfoldable pub chunk_to_dict : CartesianChunk F → Json F
  chunk_to_dict c = dict (
      ("waypoints", array (items (map waypoint_to_dict c.waypoints)))
      ∷ ("impedance", impedance_to_dict c.impedance)
      ∷ ("force_control", optional force_to_dict c.force_control)
      ∷ ("max_tcp_linear_speed", number c.max_tcp_linear_speed)
      ∷ ("max_tcp_angular_speed", number c.max_tcp_angular_speed)
      ∷ ("max_tcp_linear_acc", number c.max_tcp_linear_acc)
      ∷ ("max_tcp_angular_acc", number c.max_tcp_angular_acc)
      ∷ ("max_contact_wrench", optional vec6_list c.max_contact_wrench)
      ∷ ("contact_wrench_allowance", optional vec6_list c.contact_wrench_allowance)
      ∷ ("grip_tracking_gate_m", optional number c.grip_tracking_gate_m)
      ∷ ("safety_profile", text c.safety_profile)
      ∷ ("frame", text c.frame)
      ∷ ("representation", text (representation_value c.representation))
      ∷ ("n_execute", count c.n_execute)
      ∷ [])

  unfoldable pub joint_waypoint_to_dict : JointWaypoint F → Json F
  joint_waypoint_to_dict w = dict (
      ("positions", floats w.positions)
      ∷ ("n_frames", count w.n_frames)
      ∷ ("duration", optional number w.duration)
      ∷ [])

  unfoldable pub joint_chunk_to_dict : JointChunk F → Json F
  joint_chunk_to_dict c = dict (
      ("waypoints", array (items (map joint_waypoint_to_dict c.waypoints)))
      ∷ ("max_joint_speed_scale", number c.max_joint_speed_scale)
      ∷ ("safety_profile", text c.safety_profile)
      ∷ [])
