-- ===== src/Interpolation/Ticks.antt =====
-- How many ticks a chunk takes, and which of them carry a gripper command.
use package.flexiv_control.Interpolation.{
  Tick, Rates, segment_ticks, segment_from, target_pose, ticks_to, segments_from, setpoints,
}
use flexiv_control.Common.{
  ℕ, zero, suc, ◌+◌, ◌≤◌, ◌≡◌, refl, ap, sym, ◌∙◌, Option, none, some, List, [], ◌∷◌, ◌++◌, length,
  length-append, arith,
}
use flexiv_control.Number.{Number, ◌⊗◌}
use flexiv_control.Types.{Pose, GripperCommand}
use flexiv_control.ActionChunk.{CartesianWaypoint, CartesianChunk, resolve_duration}

module _ {F : Type 0} ⦃n : Number F⦄ where
  length-segment_from :
      (prev tgt : Pose F) (grip : Option (GripperCommand F)) (segment count left k : ℕ)
      → length (segment_from prev tgt grip segment count left k) ≡ left
  unfolding segment_from
  length-segment_from prev tgt grip segment count zero k = refl
  length-segment_from prev tgt grip segment count (suc left) k =
      ap suc (length-segment_from prev tgt grip segment count left (k + 1))

  -- The ticks of each segment, summed.
  pub planned_ticks : Rates F → Pose F → List (CartesianWaypoint F) → ℕ
  planned_ticks r prev [] = 0
  planned_ticks r prev (wp ∷ wps) =
      ticks_to r prev wp + planned_ticks r (target_pose prev.quat wp) wps

  length-segments_from :
      (r : Rates F) (prev : Pose F) (segment : ℕ) (wps : List (CartesianWaypoint F))
      → length (segments_from r prev segment wps) ≡ planned_ticks r prev wps
  unfolding segments_from planned_ticks
  length-segments_from r prev segment [] = refl
  length-segments_from r prev segment (wp ∷ wps) =
      let count = ticks_to r prev wp in
      let tgt = target_pose prev.quat wp in
      let first = segment_from prev tgt wp.gripper segment count count 1 in
      length-append first (segments_from r tgt (segment + 1) wps)
      ∙ omega (
        arith,
        length-segment_from prev tgt wp.gripper segment count count 1,
        length-segments_from r tgt (segment + 1) wps,
      )

  -- A segment takes at least a tick, and never fewer than its requested duration: the speed caps
  -- only stretch it.
  pub segment_ticks-ge :
      (r : Rates F) (prev : Pose F) (wp : CartesianWaypoint F)
      → (1 ≤ ticks_to r prev wp)
        × (n.round_nat (resolve_duration wp r.hz ⊗ r.hz) ≤ ticks_to r prev wp)
  unfolding segment_ticks
  segment_ticks-ge r prev wp = ground arith

  pub commands : List (Tick F) → List (GripperCommand F)
  commands [] = []
  commands (t ∷ ts) = elim t.grip [ none ↦ commands ts | some g ↦ g ∷ commands ts ]

  pub commands_of : List (CartesianWaypoint F) → List (GripperCommand F)
  commands_of [] = []
  commands_of (w ∷ ws) = elim w.gripper [ none ↦ commands_of ws | some g ↦ g ∷ commands_of ws ]

  commands-append : (xs ys : List (Tick F)) → commands (xs ++ ys) ≡ commands xs ++ commands ys
  unfolding commands
  commands-append [] ys = refl
  commands-append (t ∷ ts) ys = ground (arith, commands-append ts ys)

  commands-late :
      (prev tgt : Pose F) (grip : Option (GripperCommand F)) (segment count left k : ℕ)
      → 2 ≤ k
      → commands (segment_from prev tgt grip segment count left k) ≡ []
  unfolding commands segment_from
  commands-late prev tgt grip segment count zero k h = refl
  commands-late prev tgt grip segment count (suc left) k h =
      ground (arith, commands-late prev tgt grip segment count left (k + 1))

  one_command :
      (prev tgt : Pose F) (wp : CartesianWaypoint F) (segment count left : ℕ)
      → 1 ≤ left
      → commands (segment_from prev tgt wp.gripper segment count left 1) ≡ commands_of (wp ∷ [])
  unfolding commands commands_of segment_from
  one_command prev tgt wp segment count zero h = absurd (omega arith)
  one_command prev tgt wp segment count (suc left) h =
      ground (arith, commands-late prev tgt wp.gripper segment count left 2)

  commands_of-cons :
      (wp : CartesianWaypoint F) (wps : List (CartesianWaypoint F))
      → commands_of (wp ∷ wps) ≡ commands_of (wp ∷ []) ++ commands_of wps
  unfolding commands_of
  commands_of-cons wp wps = ground arith

  commands-segments_from :
      (r : Rates F) (prev : Pose F) (segment : ℕ) (wps : List (CartesianWaypoint F))
      → commands (segments_from r prev segment wps) ≡ commands_of wps
  unfolding segments_from
  commands-segments_from r prev segment [] = unfold commands commands_of in refl
  commands-segments_from r prev segment (wp ∷ wps) =
      let count = ticks_to r prev wp in
      let tgt = target_pose prev.quat wp in
      let first = segment_from prev tgt wp.gripper segment count count 1 in
      rw
        (
          commands-append first (segments_from r tgt (segment + 1) wps),
          one_command prev tgt wp segment count count (segment_ticks-ge r prev wp).0,
          commands-segments_from r tgt (segment + 1) wps,
        )
        (sym (commands_of-cons wp wps))

  -- A chunk takes the sum of its segments' ticks, and over these ticks the gripper gets exactly the
  -- commands of the waypoints, each once and in their order.
  pub setpoints_lem :
      (r : Rates F) (chunk : CartesianChunk F) (start : Pose F)
      → (length (setpoints r chunk start) ≡ planned_ticks r start chunk.waypoints)
        × (commands (setpoints r chunk start) ≡ commands_of chunk.waypoints)
  unfolding setpoints
  setpoints_lem r chunk start = (
    length-segments_from r start 0 chunk.waypoints,
    commands-segments_from r start 0 chunk.waypoints,
  )
