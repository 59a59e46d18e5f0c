-- ===== src/Interpolation/Reach.antt =====
-- Where the setpoints of a chunk end.
use package.flexiv_control.Interpolation.{
  Tick, Rates, cosine_blend, segment_from, setpoint, target_pose, ticks_to, segments_from,
  setpoints,
}
use package.flexiv_control.Interpolation.Ticks.{segment_ticks-ge}
use flexiv_control.Common.{
  ℕ, zero, suc, ◌+◌, ◌≤◌, ◌≡◌, refl, Option, List, [], ◌∷◌, last_or, last_or-append, map, arith,
}
use mathlib.Core.List.{map-append}
use flexiv_control.Number.{
  Number, ◌⊖◌, ◌⊗◌, ◌⊘◌, ◌≼◌, zero_num, one_num, IsOrdered, IsExact, clip_inside,
}
use flexiv_control.Types.{Vec3, Pose, GripperCommand}
use flexiv_control.Transforms.{vec_add, vec_sub, vec_scale}
use flexiv_control.ActionChunk.{CartesianWaypoint, CartesianChunk}

-- What the end of the ease relies on: a count divided by itself is 1, the cosine of pi is -1, and half
-- of 1 taken from the other half, times -1, is 1; and 0 <= 1 <= 1. Floats obey all of it.
pub record IsEased (F : Type 0) ⦃n : Number F⦄ : Type 0 where
  pub div_self : (k : ℕ) → 1 ≤ k → n.of_nat k ⊘ n.of_nat k ≡ one_num
  pub cos_pi : n.cos (n.pi ⊗ n.of_nat 1) ≡ n.neg (n.of_nat 1)
  pub halves : n.lit 5 1 ⊖ n.lit 5 1 ⊗ n.neg one_num ≡ one_num
  pub zero-le-one : n.of_nat 0 ≼ n.of_nat 1
  pub one-le-one : n.of_nat 1 ≼ n.of_nat 1
  pub mul_one : (a : F) → a ⊗ one_num ≡ a

abbrev pub position_of : {F : Type 0} → Tick F → Vec3 F
position_of t = t.pose.position

-- The position of the last waypoint, or of the start.
pub destination : {F : Type 0} → Pose F → List (CartesianWaypoint F) → Vec3 F
destination {F = F} prev wps =
    last_or prev.position (map (λ (w : CartesianWaypoint F). w.position) wps)

module _ {F : Type 0} ⦃n : Number F⦄ (order : IsOrdered F) (exact : IsExact F)
    (eased : IsEased F) where
  whole_way : (a b : Vec3 F) → vec_add a (vec_scale (vec_sub b a) one_num) ≡ b
  whole_way a b = rw (
    eased.mul_one (b.x ⊖ a.x),
    eased.mul_one (b.y ⊖ a.y),
    eased.mul_one (b.z ⊖ a.z),
    exact.add_sub a.x b.x,
    exact.add_sub a.y b.y,
    exact.add_sub a.z b.z,
  )

  blend_end : ◌≡◌ {A = F} (cosine_blend one_num) one_num
  unfolding cosine_blend
  blend_end =
      rw
        (
          clip_inside order one_num zero_num one_num eased.zero-le-one eased.one-le-one,
          eased.cos_pi,
        )
        eased.halves

  segment_end :
      (d : Vec3 F) (prev tgt : Pose F) (grip : Option (GripperCommand F)) (segment count left k : ℕ)
      → left + k ≡ count + 1
      → 1 ≤ left
      → 1 ≤ count
      → last_or d (map position_of (segment_from prev tgt grip segment count left k)) ≡ tgt.position
  unfolding segment_from
  segment_end d prev tgt grip segment count zero k e h c = absurd (omega arith)
  segment_end d prev tgt grip segment count (suc zero) k e h c =
      let same : k ≡ count = omega arith in
      rw (same, eased.div_self count (omega arith), blend_end)
        (whole_way prev.position tgt.position)
  segment_end d prev tgt grip segment count (suc (suc left)) k e h c =
      segment_end (setpoint prev tgt count k).position prev tgt grip segment count (suc left)
        (k + 1) (omega arith) (omega arith) c

  segments_end :
      (r : Rates F) (d : Vec3 F) (prev : Pose F) (segment : ℕ) (wps : List (CartesianWaypoint F))
      → last_or d (map position_of (segments_from r prev segment wps))
        ≡ last_or d (map (λ (w : CartesianWaypoint F). w.position) wps)
  unfolding segments_from
  segments_end r d prev segment [] = refl
  segments_end r d prev segment (wp ∷ wps) =
      let count = ticks_to r prev wp in
      let tgt = target_pose prev.quat wp in
      let first = segment_from prev tgt wp.gripper segment count count 1 in
      rw
        (
          map-append position_of first (segments_from r tgt (segment + 1) wps),
          last_or-append d (map position_of first)
              (map position_of (segments_from r tgt (segment + 1) wps)),
          segment_end d prev tgt wp.gripper segment count count 1 refl
              (segment_ticks-ge r prev wp).0 (segment_ticks-ge r prev wp).0,
        )
        (segments_end r wp.position tgt (segment + 1) wps)

  -- In exact arithmetic in which the cosine of pi is -1, and however much the caps stretch it, the
  -- stream of setpoints ends at the position of the last waypoint: no cap cuts the path short.
  pub setpoints-destination :
      (r : Rates F) (chunk : CartesianChunk F) (start : Pose F)
      → last_or start.position (map position_of (setpoints r chunk start))
        ≡ destination start chunk.waypoints
  unfolding setpoints destination
  setpoints-destination r chunk start = segments_end r start.position start 0 chunk.waypoints
