-- ===== src/Protocol/Decode.antt =====
-- The decoders of `protocol.py`. Python's own conversions of texts are a parameter, and so is the
-- default `ImpedanceParams()`.
use package.flexiv_control.Protocol.{mode_of, status_of, reason_of, representation_of}
use package.flexiv_control.Protocol.Wire.{
  Json, null, boolean, number, integer, text, get_item, get, each, as_text, as_count, decode_all,
  Builtins, as_float, as_int, as_bool, as_optional, as_floats,
}
use flexiv_control.Common.{String, Bool, false, Option, none, some, List, [], ◌∷◌, if◌then◌else◌}
use flexiv_control.Common.Result.{Result, ok, err, value_error, ◌>>=◌}
use flexiv_control.Number.{Number, zero_num, one_num}
use flexiv_control.Types.{
  Vec3, Quat, Vec6, Pose, RobotState, ImpedanceParams, ForceControlParams, GripperCommand,
}
use flexiv_control.ActionChunk.{
  CartesianWaypoint, CartesianChunk, JointWaypoint, JointChunk, make_waypoint, make_chunk,
  make_joint_waypoint, make_joint_chunk,
}

module _ {A : Type 0} where
  -- An array of the right size.
  abbrev pub vec3_of : List A → Result (Vec3 A)
  vec3_of (x ∷ y ∷ z ∷ []) = ok (record { x = x; y = y; z = z })
  vec3_of _ = err value_error

  abbrev pub quat_of : List A → Result (Quat A)
  quat_of (w ∷ x ∷ y ∷ z ∷ []) = ok (record { w = w; x = x; y = y; z = z })
  quat_of _ = err value_error

  abbrev pub vec6_of : List A → Result (Vec6 A)
  vec6_of (a ∷ b ∷ c ∷ d ∷ e ∷ f ∷ []) =
      ok (record {
        linear = record { x = a; y = b; z = c };
        angular = record { x = d; y = e; z = f };
      })
  vec6_of _ = err value_error

  abbrev pose_of : List A → Result (Pose A)
  pose_of (a ∷ b ∷ c ∷ w ∷ x ∷ y ∷ z ∷ []) = ok (record {
    position = record { x = a; y = b; z = c };
    quat = record { w = w; x = x; y = y; z = z };
  })
  pose_of _ = err value_error

module _ {F : Type 0} ⦃n : Number F⦄ (py : Builtins F) where
  -- `decode` of an array of floats
  abbrev pub sized : {A : Type 0} → (List F → Result A) → Json F → Result A
  sized of x = as_floats py x >>= of

  -- None if x is None else decode(x)
  unfoldable pub none_or : {A : Type 0} → (Json F → Result A) → Json F → Result (Option A)
  none_or decode null = ok none
  none_or decode x = decode x >>= λ v. ok (some v)

  abbrev float_at : String → Json F → Result F
  float_at k d = get_item k d >>= as_float py

  abbrev float_or : String → F → Json F → Result F
  float_or k default d = get k (number default) d >>= as_float py

  abbrev text_or : String → String → Json F → Result String
  text_or k default d = get k (text default) d >>= as_text

  -- float and bool of the entries of a gripper's dict
  unfoldable pub gripper_of : Json F → Result (GripperCommand F)
  gripper_of d = do
    width ← float_or "width" zero_num d
    force ← float_or "force" (n.of_nat 20) d
    velocity ← float_or "velocity" (n.lit 1 1) d
    grasp ← get "grasp" (boolean false) d
    ok (record { width = width; force = force; velocity = velocity; grasp = as_bool grasp })

  unfoldable pub gripper_from_dict : Json F → Result (Option (GripperCommand F))
  gripper_from_dict d = none_or gripper_of d

  unfoldable pub state_from_dict : Json F → Result (RobotState F)
  state_from_dict d = do
    stamp ← float_at "stamp" d
    q ← get_item "q" d >>= as_floats py
    dq ← get_item "dq" d >>= as_floats py
    tau ← get_item "tau" d >>= as_floats py
    tcp_pose ← get_item "tcp_pose" d >>= sized pose_of
    tcp_vel ← get_item "tcp_vel" d >>= sized vec6_of
    wrench ← get_item "wrench" d >>= sized vec6_of
    width ← float_at "gripper_width" d
    force ← float_at "gripper_force" d
    moving ← get_item "gripper_is_moving" d
    mode ← get_item "control_mode" d >>= as_text >>= mode_of
    status ← get_item "safety_status" d >>= as_text >>= status_of
    reason ← get_item "stop_reason" d >>= as_text >>= reason_of
    owner ← text_or "active_owner" "" d
    latency ← float_or "command_latency_ms" zero_num d
    period ← float_or "loop_period_ms" zero_num d
    jitter ← float_or "loop_jitter_us" zero_num d
    missed ← get "missed_cycles" (integer 0) d >>= as_int py
    ok (record {
      stamp = stamp;
      q = q;
      dq = dq;
      tau = tau;
      tcp_pose = tcp_pose;
      tcp_vel = tcp_vel;
      wrench = wrench;
      gripper_width = width;
      gripper_force = force;
      gripper_is_moving = as_bool moving;
      control_mode = mode;
      safety_status = status;
      stop_reason = reason;
      active_owner = owner;
      command_latency_ms = latency;
      loop_period_ms = period;
      loop_jitter_us = jitter;
      missed_cycles = missed;
    })

  unfoldable pub waypoint_from_dict : Json F → Result (CartesianWaypoint F)
  waypoint_from_dict w = do
    position ← get_item "position" w >>= sized vec3_of
    quaternion ← get "quaternion" null w >>= none_or (sized quat_of)
    gripper ← get "gripper" null w >>= gripper_from_dict
    n_frames ← get "n_frames" null w >>= as_count
    duration ← get "duration" null w >>= as_optional py
    frame ← text_or "frame" "base" w
    make_waypoint (record {
      position = position;
      quaternion = quaternion;
      gripper = gripper;
      n_frames = n_frames;
      duration = duration;
      frame = frame;
    })

  unfoldable pub impedance_of : Json F → Result (ImpedanceParams F)
  impedance_of imp = do
    stiffness ← get_item "stiffness" imp >>= sized vec6_of
    damping ← get_item "damping_ratio" imp >>= sized vec6_of
    ok (record { stiffness = stiffness; damping_ratio = damping })

  -- np.asarray(x, bool)
  abbrev pub flags_of : Json F → Result (Vec6 Bool)
  flags_of x = each x >>= decode_all (λ b. ok (as_bool b)) >>= vec6_of

  unfoldable pub force_of : Json F → Result (ForceControlParams F)
  force_of fc = do
    axes ← get_item "enabled_axes" fc >>= flags_of
    target ← get_item "target_wrench" fc >>= sized vec6_of
    frame ← text_or "frame" "tcp" fc
    ok (record { enabled_axes = axes; target_wrench = target; frame = frame })

  -- `... if x else default`: what counts as false is not decoded.
  unfoldable pub truthy : {A : Type 0} → A → (Json F → Result A) → Json F → Result A
  truthy default decode x = if as_bool x then decode x else ok default

  unfoldable pub chunk_from_dict : ImpedanceParams F → Json F → Result (CartesianChunk F)
  chunk_from_dict default d = do
    waypoints ← get_item "waypoints" d >>= each >>= decode_all waypoint_from_dict
    impedance ← get "impedance" null d >>= truthy default impedance_of
    force ← get "force_control" null d >>= truthy none (λ x. force_of x >>= λ fc. ok (some fc))
    linear ← float_or "max_tcp_linear_speed" (n.lit 25 2) d
    angular ← float_or "max_tcp_angular_speed" (n.lit 60 2) d
    linear_acc ← float_or "max_tcp_linear_acc" one_num d
    angular_acc ← float_or "max_tcp_angular_acc" (n.of_nat 2) d
    contact ← get "max_contact_wrench" null d >>= none_or (sized vec6_of)
    allowance ← get "contact_wrench_allowance" null d >>= none_or (sized vec6_of)
    gate ← get "grip_tracking_gate_m" null d >>= as_optional py
    profile ← text_or "safety_profile" "" d
    frame ← text_or "frame" "base" d
    representation ← text_or "representation" "absolute" d >>= representation_of
    n_execute ← get "n_execute" null d >>= as_count
    make_chunk (record {
      waypoints = waypoints;
      impedance = impedance;
      force_control = force;
      max_tcp_linear_speed = linear;
      max_tcp_angular_speed = angular;
      max_tcp_linear_acc = linear_acc;
      max_tcp_angular_acc = angular_acc;
      max_contact_wrench = contact;
      contact_wrench_allowance = allowance;
      grip_tracking_gate_m = gate;
      safety_profile = profile;
      frame = frame;
      representation = representation;
      n_execute = n_execute;
    })

  unfoldable pub joint_waypoint_from_dict : Json F → Result (JointWaypoint F)
  joint_waypoint_from_dict w = do
    positions ← get_item "positions" w >>= as_floats py
    n_frames ← get "n_frames" null w >>= as_count
    duration ← get "duration" null w >>= as_optional py
    make_joint_waypoint (record { positions = positions; n_frames = n_frames; duration = duration })

  unfoldable pub joint_chunk_from_dict : Json F → Result (JointChunk F)
  joint_chunk_from_dict d = do
    waypoints ← get_item "waypoints" d >>= each >>= decode_all joint_waypoint_from_dict
    scale ← float_or "max_joint_speed_scale" (n.lit 3 1) d
    profile ← text_or "safety_profile" "" d
    make_joint_chunk
        (record { waypoints = waypoints; max_joint_speed_scale = scale; safety_profile = profile })
