-- ===== src/ActionChunk.antt =====
-- src/flexiv_control/action_chunk.py: the action contract. A constructor with a `__post_init__` is a
-- function that validates a record; `replace` runs it again. A count that is not positive is 0.
pub mod Arrays
pub mod Horizon
use flexiv_control.Common.{
  ℕ, zero, suc, String, Bool, true, false, ◌&&◌, ◌||◌, Option, none, some, List, [], ◌∷◌, length,
  take, leb, ltb, ◌==◌, nat_max, nat_min, get_or_else, is_some, not, if◌then◌else◌,
}
use flexiv_control.Common.Result.{Result, ok, err, value_error, ◌>>=◌}
use flexiv_control.Number.{Number, ◌⊕◌, ◌⊘◌, zero_num}
use flexiv_control.Types.{
  Vec3, Quat, Vec6, Pose, GripperCommand, ImpedanceParams, ForceControlParams,
}
use flexiv_control.Transforms.{
  eps, quat_entries, quat_over, vec_add, quat_rotate, quat_normalize, quat_mul,
}

pub record CartesianWaypoint (F : Type 0) : Type 0 where
  pub position : Vec3 F
  pub quaternion : Option (Quat F)
  pub gripper : Option (GripperCommand F)
  pub n_frames : Option ℕ
  pub duration : Option F
  pub frame : String

pub data ChunkRepresentation : Type 0 where
  absolute relative_to_start : ChunkRepresentation

pub record CartesianChunk (F : Type 0) : Type 0 where
  pub waypoints : List (CartesianWaypoint F)
  pub impedance : ImpedanceParams F
  pub force_control : Option (ForceControlParams F)
  pub max_tcp_linear_speed : F
  pub max_tcp_angular_speed : F
  pub max_tcp_linear_acc : F
  pub max_tcp_angular_acc : F
  pub max_contact_wrench : Option (Vec6 F)
  pub contact_wrench_allowance : Option (Vec6 F)
  pub grip_tracking_gate_m : Option F
  pub safety_profile : String
  pub frame : String
  pub representation : ChunkRepresentation
  pub n_execute : Option ℕ

pub record CartesianDelta (F : Type 0) : Type 0 where
  pub delta : Vec6 F
  pub gripper : Option (GripperCommand F)
  pub duration : F
  pub frame : String

pub record JointWaypoint (F : Type 0) : Type 0 where
  pub positions : List F
  pub n_frames : Option ℕ
  pub duration : Option F

pub record JointChunk (F : Type 0) : Type 0 where
  pub waypoints : List (JointWaypoint F)
  pub max_joint_speed_scale : F
  pub safety_profile : String

abbrev is_zero_count : Option ℕ → Bool
is_zero_count none = false
is_zero_count (some k) = k == 0

abbrev is_empty {ℓ} : {A : Type ℓ} → List A → Bool
is_empty [] = true
is_empty (x ∷ xs) = false

module _ {F : Type 0} ⦃n : Number F⦄ where
  unit_or_error : Option (Quat F) → Result (Option (Quat F))
  unit_or_error none = ok none
  unit_or_error (some q) =
      let m = n.norm (quat_entries q) in
      if n.lt m eps then err value_error else ok (some (quat_over q m))

  -- `CartesianWaypoint(...)`
  unfoldable pub make_waypoint : CartesianWaypoint F → Result (CartesianWaypoint F)
  unfolding unit_or_error
  make_waypoint w = do
    q ← unit_or_error w.quaternion
    if not (is_some w.n_frames) && not (is_some w.duration) || is_zero_count w.n_frames
        then err value_error
        else ok (record w { quaternion = q })

  -- A waypoint that was constructed has one of the two.
  abbrev pub frames_or_duration : Option ℕ → Option F → F → F
  frames_or_duration frames (some d) hz = d
  frames_or_duration frames none hz = n.of_nat (get_or_else 0 frames) ⊘ hz

  unfoldable pub resolve_duration : CartesianWaypoint F → F → F
  resolve_duration w hz = frames_or_duration w.n_frames w.duration hz

  abbrev has_negative : Option (Vec6 F) → Bool
  has_negative none = false
  has_negative (some v) =
      n.lt v.linear.x zero_num
      || n.lt v.linear.y zero_num
      || n.lt v.linear.z zero_num
      || n.lt v.angular.x zero_num
      || n.lt v.angular.y zero_num
      || n.lt v.angular.z zero_num

  abbrev not_positive : Option F → Bool
  not_positive none = false
  not_positive (some g) = not (n.lt zero_num g)

  -- `CartesianChunk(...)`
  unfoldable pub make_chunk : CartesianChunk F → Result (CartesianChunk F)
  make_chunk c =
      if is_empty c.waypoints
        || has_negative c.contact_wrench_allowance
        || not_positive c.grip_tracking_gate_m
      then err value_error
      else ok c

  unfoldable pub horizon : CartesianChunk F → ℕ
  horizon c = length c.waypoints

  unfoldable pub horizon_exec : CartesianChunk F → ℕ
  horizon_exec c =
      nat_max 1 (nat_min (get_or_else (length c.waypoints) c.n_execute) (length c.waypoints))

  total_from : F → List (CartesianWaypoint F) → F → F
  total_from sum [] hz = sum
  total_from sum (w ∷ ws) hz = total_from (sum ⊕ frames_or_duration w.n_frames w.duration hz) ws hz

  unfoldable pub total_duration : CartesianChunk F → F → F
  unfolding total_from
  total_duration c hz = total_from zero_num c.waypoints hz

  abbrev turned : Quat F → Option (Quat F) → Quat F
  turned s none = s
  turned s (some q) = quat_normalize (quat_mul s q)

  unfoldable pub resolve_waypoint : Pose F → CartesianWaypoint F → Result (CartesianWaypoint F)
  unfolding make_waypoint
  resolve_waypoint start w = make_waypoint (record w {
    position = vec_add start.position (quat_rotate start.quat w.position);
    quaternion = some (turned start.quat w.quaternion);
  })

  unfoldable pub resolve_waypoints :
      Pose F → List (CartesianWaypoint F) → Result (List (CartesianWaypoint F))
  resolve_waypoints start [] = ok []
  resolve_waypoints start (w ∷ ws) = do
    v ← resolve_waypoint start w
    vs ← resolve_waypoints start ws
    ok (v ∷ vs)

  unfoldable pub resolve_to_absolute : CartesianChunk F → Pose F → Result (CartesianChunk F)
  resolve_to_absolute c start = elim c.representation [
    | absolute ↦ ok c
    | relative_to_start ↦ (do
      ws ← resolve_waypoints start c.waypoints
      make_chunk (record c { waypoints = ws; representation = absolute }))
  ]

  -- Resolve to absolute and slice to the execution horizon.
  unfoldable pub for_execution : CartesianChunk F → Pose F → Result (CartesianChunk F)
  unfolding horizon_exec
  for_execution chunk start = do
    c ← resolve_to_absolute chunk start
    let he = horizon_exec chunk
    if leb (length c.waypoints) he
        then ok c
        else make_chunk (record c { waypoints = take he c.waypoints; n_execute = none })

  -- `JointWaypoint(...)` and `JointChunk(...)`
  unfoldable pub make_joint_waypoint : JointWaypoint F → Result (JointWaypoint F)
  make_joint_waypoint w =
      if not (is_some w.n_frames) && not (is_some w.duration) then err value_error else ok w

  unfoldable pub make_joint_chunk : JointChunk F → Result (JointChunk F)
  make_joint_chunk c = if is_empty c.waypoints then err value_error else ok c
