-- ===== src/Interpolation/Joints.antt =====
-- `JointChunkInterpolator`: joint setpoints, all the joint arrays of one length.
use package.flexiv_control.Interpolation.{stretch, cosine_blend}
use flexiv_control.Common.{ℕ, zero, suc, ◌+◌, Option, List, [], ◌∷◌, ◌++◌, nat_max}
use flexiv_control.Number.{Number, ◌⊕◌, ◌⊖◌, ◌⊗◌, ◌⊘◌, zero_num, one_num, num_max}
use flexiv_control.ActionChunk.{JointWaypoint, frames_or_duration}

module _ {F : Type 0} ⦃n : Number F⦄ where
  -- np.max(np.abs(target - prev))
  unfoldable pub largest_move : List F → List F → F
  largest_move (p ∷ ps) (t ∷ ts) = num_max (n.abs (t ⊖ p)) (largest_move ps ts)
  largest_move _ _ = zero_num

  pub joint_segment_ticks : F → Option F → List F → JointWaypoint F → ℕ
  unfolding largest_move
  joint_segment_ticks hz cap prev wp = nat_max 1 (
      stretch cap (largest_move prev wp.positions) (one_num ⊘ hz)
        (nat_max 1 (n.round_nat (frames_or_duration wp.n_frames wp.duration hz ⊗ hz))))

  pub joint_setpoint : List F → List F → F → List F
  joint_setpoint (p ∷ ps) (t ∷ ts) s = (p ⊕ s ⊗ (t ⊖ p)) ∷ joint_setpoint ps ts s
  joint_setpoint _ _ s = []

  pub joint_segment_from : List F → List F → ℕ → ℕ → ℕ → List (List F)
  unfolding joint_setpoint
  joint_segment_from prev tgt count zero k = []
  joint_segment_from prev tgt count (suc left) k =
      joint_setpoint prev tgt (cosine_blend (n.of_nat k ⊘ n.of_nat count))
      ∷ joint_segment_from prev tgt count left (k + 1)

  unfoldable pub joint_setpoints : F → Option F → List F → List (JointWaypoint F) → List (List F)
  unfolding joint_segment_from
  joint_setpoints hz cap prev [] = []
  joint_setpoints hz cap prev (wp ∷ wps) =
      let count = joint_segment_ticks hz cap prev wp in
      joint_segment_from prev wp.positions count count 1 ++ joint_setpoints hz cap wp.positions wps
