-- ===== src/Interpolation.antt =====
-- src/flexiv_control/interpolation.py: a chunk becomes one setpoint for each tick of the control loop.
pub mod Ticks
pub mod Reach
pub mod Joints
use flexiv_control.Common.{
  ℕ, zero, suc, ◌+◌, ◌==◌, Bool, true, false, Option, none, some, List, [], ◌∷◌, ◌++◌, nat_max,
  get_or_else, if◌then◌else◌,
}
use flexiv_control.Common.Result.{Result}
use flexiv_control.Number.{Number, ◌⊕◌, ◌⊖◌, ◌⊗◌, ◌⊘◌, zero_num, one_num, num_max, clip}
use flexiv_control.Types.{Vec3, Vec6, Quat, Pose, GripperCommand}
use flexiv_control.Transforms.{
  vec_entries, vec_add, vec_sub, vec_scale, quat_angle, quat_slerp, integrate_pose,
}
use flexiv_control.ActionChunk.{CartesianWaypoint, CartesianChunk, CartesianDelta, resolve_duration}
use flexiv_control.Common.{String}

-- A setpoint, with the attributes `current_segment` and `current_segment_ticks` that the iterator
-- shows while the setpoint is executed.
pub record Tick (F : Type 0) : Type 0 where
  pub pose : Pose F
  pub grip : Option (GripperCommand F)
  pub segment : ℕ
  pub segment_ticks : ℕ

-- The constructor's arguments but for the chunk.
pub record Rates (F : Type 0) : Type 0 where
  pub hz : F
  pub max_linear_speed : Option F
  pub max_angular_speed : Option F

module _ {F : Type 0} ⦃n : Number F⦄ where
  abbrev blend_peak : F
  blend_peak = n.pi ⊘ n.of_nat 2

  unfoldable pub cosine_blend : F → F
  cosine_blend s = n.lit 5 1 ⊖ n.lit 5 1 ⊗ n.cos (n.pi ⊗ clip s zero_num one_num)

  -- The ticks that a cap asks for; a cap that is missing or not positive asks for none.
  abbrev pub stretch : Option F → F → F → ℕ → ℕ
  stretch none distance dt k = k
  stretch (some cap) distance dt k =
      if n.lt zero_num cap then nat_max k (n.ceil_nat (blend_peak ⊗ distance ⊘ (cap ⊗ dt))) else k

  unfoldable pub segment_ticks :
      Rates F → Vec3 F → Vec3 F → Quat F → Quat F → CartesianWaypoint F → ℕ
  segment_ticks r prev_pos tgt_pos prev_quat tgt_quat wp =
      let dt = one_num ⊘ r.hz in
      let k = nat_max 1 (n.round_nat (resolve_duration wp r.hz ⊗ r.hz)) in
      let linear = n.norm (vec_entries (vec_sub tgt_pos prev_pos)) in
      let angular = quat_angle prev_quat tgt_quat in
      nat_max 1 (stretch r.max_angular_speed angular dt (stretch r.max_linear_speed linear dt k))

  abbrev setpoint : Pose F → Pose F → ℕ → ℕ → Pose F
  setpoint prev tgt count k =
      let s = cosine_blend (n.of_nat k ⊘ n.of_nat count) in
      record {
        position = vec_add prev.position (vec_scale (vec_sub tgt.position prev.position) s);
        quat = quat_slerp prev.quat tgt.quat s;
      }

  -- The ticks of a segment of `count` from number `k` on, with `left` to go.
  unfoldable pub segment_from :
      Pose F → Pose F → Option (GripperCommand F) → ℕ → ℕ → ℕ → ℕ → List (Tick F)
  segment_from prev tgt grip segment count zero k = []
  segment_from prev tgt grip segment count (suc left) k =
      record {
        pose = setpoint prev tgt count k;
        grip = if k == 1 then grip else none;
        segment = segment;
        segment_ticks = count;
      }
      ∷ segment_from prev tgt grip segment count left (k + 1)

  abbrev pub target_pose : Quat F → CartesianWaypoint F → Pose F
  target_pose prev_quat wp = record {
    position = wp.position;
    quat = get_or_else prev_quat wp.quaternion;
  }

  abbrev pub ticks_to : Rates F → Pose F → CartesianWaypoint F → ℕ
  ticks_to r prev wp =
      let tgt = target_pose prev.quat wp in
      segment_ticks r prev.position tgt.position prev.quat tgt.quat wp

  unfoldable pub segments_from : Rates F → Pose F → ℕ → List (CartesianWaypoint F) → List (Tick F)
  unfolding segment_from
  segments_from r prev segment [] = []
  segments_from r prev segment (wp ∷ wps) =
      let count = ticks_to r prev wp in
      segment_from prev (target_pose prev.quat wp) wp.gripper segment count count 1
      ++ segments_from r (target_pose prev.quat wp) (segment + 1) wps

  -- `list(iter(interp))`
  unfoldable pub setpoints : Rates F → CartesianChunk F → Pose F → List (Tick F)
  unfolding segments_from
  setpoints r chunk start = segments_from r start 0 chunk.waypoints

  unfoldable pub delta_to_target_pose : CartesianDelta F → Pose F → Result (Pose F)
  delta_to_target_pose delta current = integrate_pose current delta.delta delta.frame
