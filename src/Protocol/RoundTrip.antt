-- ===== src/Protocol/RoundTrip.antt =====
-- The decoders after the encoders.
use package.flexiv_control.Protocol.{
  optional, member_of, mode_of, status_of, reason_of, representation_of, representation_value,
  floats, vec3_list, quat_list, vec6_list, pose_list, flags_list, gripper_to_dict, state_to_dict,
  waypoint_to_dict, impedance_to_dict, force_to_dict, chunk_to_dict, joint_waypoint_to_dict,
  joint_chunk_to_dict,
}
use package.flexiv_control.Protocol.Wire.{
  Json, null, number, array, members, find, get_item, get, items, elements, each, as_text, as_count,
  count, decode_all, Builtins, as_float, as_int, as_bool, as_optional, as_floats,
}
use package.flexiv_control.Protocol.Decode.{
  gripper_of, gripper_from_dict, state_from_dict, waypoint_from_dict, impedance_of, force_of,
  chunk_from_dict, none_or, truthy, sized, quat_of, vec6_of, flags_of, joint_waypoint_from_dict,
  joint_chunk_from_dict,
}
use flexiv_control.Common.{
  ℕ, Bool, true, false, Option, none, some, List, [], ◌∷◌, map, ◌≡◌, refl, ap, ◌∙◌,
}
use flexiv_control.Common.Result.{Result, ok, ◌>>=◌}
use flexiv_control.Number.{Number}
use flexiv_control.Types.{
  ControlMode, mode_value, SafetyStatus, status_value, StopReason, reason_value, Quat, Vec6,
  RobotState, ImpedanceParams, ForceControlParams, GripperCommand,
}
use flexiv_control.ActionChunk.{
  CartesianWaypoint, CartesianChunk, JointWaypoint, JointChunk, ChunkRepresentation, absolute,
  relative_to_start, make_waypoint, make_chunk, make_joint_waypoint, make_joint_chunk,
}

mode_of-mode_value : (m : ControlMode) → mode_of (mode_value m) ≡ ok m
unfolding mode_of member_of mode_value
mode_of-mode_value ControlMode.idle = refl
mode_of-mode_value ControlMode.nrt_joint_position = refl
mode_of-mode_value ControlMode.nrt_joint_impedance = refl
mode_of-mode_value ControlMode.nrt_cartesian_motion_force = refl
mode_of-mode_value ControlMode.nrt_primitive = refl
mode_of-mode_value ControlMode.rt_joint_position = refl
mode_of-mode_value ControlMode.rt_joint_impedance = refl
mode_of-mode_value ControlMode.rt_cartesian_motion_force = refl
mode_of-mode_value ControlMode.rt_joint_torque = refl

status_of-status_value : (s : SafetyStatus) → status_of (status_value s) ≡ ok s
unfolding status_of member_of status_value
status_of-status_value SafetyStatus.ok = refl
status_of-status_value SafetyStatus.clipped = refl
status_of-status_value SafetyStatus.holding = refl
status_of-status_value SafetyStatus.stopped = refl
status_of-status_value SafetyStatus.fault = refl

pub reason_of-reason_value : (r : StopReason) → reason_of (reason_value r) ≡ ok r
unfolding reason_of member_of reason_value
reason_of-reason_value StopReason.nothing = refl
reason_of-reason_value StopReason.user = refl
reason_of-reason_value StopReason.stale_command = refl
reason_of-reason_value StopReason.stale_state = refl
reason_of-reason_value StopReason.workspace = refl
reason_of-reason_value StopReason.joint_limit = refl
reason_of-reason_value StopReason.tcp_speed = refl
reason_of-reason_value StopReason.pose_jump = refl
reason_of-reason_value StopReason.contact_wrench = refl
reason_of-reason_value StopReason.lease = refl
reason_of-reason_value StopReason.mode = refl
reason_of-reason_value StopReason.backend_fault = refl

representation_of-value :
    (r : ChunkRepresentation) → representation_of (representation_value r) ≡ ok r
unfolding representation_of member_of representation_value
representation_of-value absolute = refl
representation_of-value relative_to_start = refl

-- An array is the list of what it was made from, and each entry is decoded.
each-array : {F : Type 0} (xs : List (Json F)) → each (array (items xs)) ≡ ok xs
unfolding each items elements
each-array [] = refl
each-array (x ∷ xs) = ap (λ (r : Result _). r >>= λ ys. ok (x ∷ ys)) (each-array xs)

decode_all-map :
    {A B C : Type 0} (encode : A → C) (decode : C → Result B) (build : A → Result B)
    → ((x : A) → decode (encode x) ≡ build x)
    → (xs : List A) → decode_all decode (map encode xs) ≡ decode_all build xs
unfolding decode_all
decode_all-map encode decode build same [] = refl
decode_all-map encode decode build same (x ∷ xs) =
    rw (same x, decode_all-map encode decode build same xs) refl

decode_all-ok : {A : Type 0} (xs : List A) → decode_all (λ x. ok x) xs ≡ ok xs
unfolding decode_all
decode_all-ok [] = refl
decode_all-ok (x ∷ xs) = rw (decode_all-ok xs) refl

-- `CartesianChunk(...)` and `JointChunk(...)` with the values of a chunk, of waypoints that are
-- made anew of theirs.
unfoldable pub rebuilt : {F : Type 0} ⦃n : Number F⦄ → CartesianChunk F → Result (CartesianChunk F)
rebuilt c = decode_all make_waypoint c.waypoints >>= λ ws. make_chunk (record c { waypoints = ws })

unfoldable pub rebuilt_joint : {F : Type 0} ⦃n : Number F⦄ → JointChunk F → Result (JointChunk F)
rebuilt_joint c = decode_all make_joint_waypoint c.waypoints >>= λ ws.
    make_joint_chunk (record c { waypoints = ws })

module _ {F : Type 0} ⦃n : Number F⦄ (py : Builtins F) where
  as_floats-floats : (xs : List F) → as_floats py (floats xs) ≡ ok xs
  unfolding as_floats floats as_float
  as_floats-floats xs =
      rw (each-array (map number xs))
        (decode_all-map number (as_float py) (λ x. ok x) (λ x. refl) xs ∙ decode_all-ok xs)

  -- A state that the server sends is the state that the client reads.
  pub state_from_dict-state_to_dict :
      (s : RobotState F) → state_from_dict py (state_to_dict s) ≡ ok s
  unfolding state_from_dict state_to_dict get get_item members find as_text as_float as_int as_bool
      pose_list vec6_list
  state_from_dict-state_to_dict s =
      simp (as_floats-floats, mode_of-mode_value, status_of-status_value, reason_of-reason_value)
        refl

  gripper_from_dict-gripper_to_dict :
      (g : Option (GripperCommand F)) → gripper_from_dict py (gripper_to_dict g) ≡ ok g
  unfolding gripper_from_dict gripper_to_dict gripper_of none_or get members find as_float as_bool
  gripper_from_dict-gripper_to_dict none = refl
  gripper_from_dict-gripper_to_dict (some g) = refl

  as_count-count : (k : Option ℕ) → as_count {F = F} (count k) ≡ ok k
  unfolding as_count count
  as_count-count none = refl
  as_count-count (some k) = refl

  as_optional-number : (x : Option F) → as_optional py (optional number x) ≡ ok x
  unfolding as_optional optional as_float
  as_optional-number none = refl
  as_optional-number (some x) = refl

  none_or-quat : (q : Option (Quat F)) → none_or py (sized py quat_of) (optional quat_list q) ≡ ok q
  unfolding none_or optional quat_list floats
  none_or-quat none = refl
  none_or-quat (some q) = rw (as_floats-floats (q.w ∷ q.x ∷ q.y ∷ q.z ∷ [])) refl

  none_or-vec6 : (v : Option (Vec6 F)) → none_or py (sized py vec6_of) (optional vec6_list v) ≡ ok v
  unfolding none_or optional vec6_list floats
  none_or-vec6 none = refl
  none_or-vec6 (some v) =
      rw
        (as_floats-floats
          (v.linear.x ∷ v.linear.y ∷ v.linear.z ∷ v.angular.x ∷ v.angular.y ∷ v.angular.z ∷ []))
        refl

  waypoint_from_dict-to_dict :
      (w : CartesianWaypoint F) → waypoint_from_dict py (waypoint_to_dict w) ≡ make_waypoint w
  unfolding waypoint_from_dict waypoint_to_dict get get_item members find as_text vec3_list
  waypoint_from_dict-to_dict w =
      simp
        (
          as_floats-floats, none_or-quat, gripper_from_dict-gripper_to_dict, as_count-count,
          as_optional-number,
        )
        refl

  joint_waypoint_from_dict-to_dict :
      (w : JointWaypoint F)
      → joint_waypoint_from_dict py (joint_waypoint_to_dict w) ≡ make_joint_waypoint w
  unfolding joint_waypoint_from_dict joint_waypoint_to_dict get get_item members find
  joint_waypoint_from_dict-to_dict w =
      simp (as_floats-floats, as_count-count, as_optional-number) refl

  -- What comes of a joint chunk at the other end is what the constructors make of its values.
  pub joint_chunk_from_dict-joint_chunk_to_dict :
      (c : JointChunk F) → joint_chunk_from_dict py (joint_chunk_to_dict c) ≡ rebuilt_joint c
  unfolding joint_chunk_from_dict joint_chunk_to_dict get get_item members find as_float as_text
      rebuilt_joint
  joint_chunk_from_dict-joint_chunk_to_dict c =
      rw
        (
          each-array (map joint_waypoint_to_dict c.waypoints),
          decode_all-map joint_waypoint_to_dict (joint_waypoint_from_dict py) make_joint_waypoint
              joint_waypoint_from_dict-to_dict c.waypoints,
        )
        refl

  impedance_of-impedance_to_dict :
      (default imp : ImpedanceParams F)
      → truthy py default (impedance_of py) (impedance_to_dict imp) ≡ ok imp
  unfolding truthy impedance_of impedance_to_dict get_item members find as_bool vec6_list
  impedance_of-impedance_to_dict default imp = simp as_floats-floats refl

  flags_of-flags_list : (v : Vec6 Bool) → flags_of py (flags_list v) ≡ ok v
  unfolding flags_list each items elements decode_all as_bool
  flags_of-flags_list v = refl

  force_of-force_to_dict : (fc : ForceControlParams F) → force_of py (force_to_dict fc) ≡ ok fc
  unfolding force_of force_to_dict get_item get members find as_text vec6_list
  force_of-force_to_dict fc = simp (as_floats-floats, flags_of-flags_list) refl

  as_bool-force_to_dict : (fc : ForceControlParams F) → as_bool (force_to_dict fc) ≡ true
  unfolding as_bool force_to_dict members
  as_bool-force_to_dict fc = refl

  none_is_false : as_bool {F = F} null ≡ false
  unfolding as_bool
  none_is_false = refl

  truthy-force :
      (fc : Option (ForceControlParams F))
      → truthy py none (λ x. force_of py x >>= λ v. ok (some v)) (optional force_to_dict fc) ≡ ok fc
  unfolding truthy optional
  truthy-force none = rw none_is_false refl
  truthy-force (some fc) = rw (as_bool-force_to_dict fc, force_of-force_to_dict fc) refl

  -- A chunk crosses the wire: for any chunk and any defaults, decoding what encodes it gives
  -- exactly what the constructors make of its values, or the error that they raise. All its caps,
  -- gates and flags come back as they were, and so do the waypoints, except that their
  -- quaternions are normalised once more.
  pub chunk_from_dict-chunk_to_dict :
      (default : ImpedanceParams F) (c : CartesianChunk F)
      → chunk_from_dict py default (chunk_to_dict c) ≡ rebuilt c
  unfolding chunk_from_dict chunk_to_dict get get_item members find as_float as_text rebuilt
  chunk_from_dict-chunk_to_dict default c =
      rw
        (
          each-array (map waypoint_to_dict c.waypoints),
          decode_all-map waypoint_to_dict (waypoint_from_dict py) make_waypoint
              waypoint_from_dict-to_dict c.waypoints,
          impedance_of-impedance_to_dict default c.impedance,
          truthy-force c.force_control,
          none_or-vec6 c.max_contact_wrench,
          none_or-vec6 c.contact_wrench_allowance,
          as_optional-number c.grip_tracking_gate_m,
          representation_of-value c.representation,
          as_count-count c.n_execute,
        )
        refl
