-- ===== src/Safety/Joint.antt =====
-- `SafetyFilter.filter_joint`. All the joint arrays have one length; numpy refuses any others.
pub mod Limits
use package.flexiv_control.Safety.Profile.{SafetyProfile, SafetyResult, SafetyFilter}
use flexiv_control.Common.{
  Bool, true, false, not, ◌&&◌, ◌||◌, Option, none, some, List, [], ◌∷◌, ◌++◌, get_or_else,
  if◌then◌else◌,
}
use flexiv_control.Number.{Number, ◌⊕◌, ◌⊖◌, ◌⊗◌, clip}
use flexiv_control.Types.{StopReason, RobotState}

abbrev reason_if : Bool → List StopReason
reason_if b = if b then StopReason.joint_limit ∷ [] else []

module _ {F : Type 0} ⦃n : Number F⦄ where
  -- np.clip(q, lower + margin, upper - margin)
  unfoldable pub clip_joints : F → List F → List F → List F → List F
  clip_joints margin (l ∷ ls) (u ∷ us) (q ∷ qs) =
      clip q (l ⊕ margin) (u ⊖ margin) ∷ clip_joints margin ls us qs
  clip_joints margin _ _ _ = []

  -- np.allclose
  unfoldable pub joints_close : List F → List F → Bool
  joints_close (a ∷ as') (b ∷ bs) = n.close a b && joints_close as' bs
  joints_close _ _ = true

  abbrev pub is_big : F → F → F → Bool
  is_big max_step t r = n.lt max_step (n.abs (t ⊖ r))

  -- np.any(big)
  unfoldable pub any_big : F → List F → List F → Bool
  any_big max_step (t ∷ ts) (r ∷ rs) = is_big max_step t r || any_big max_step ts rs
  any_big max_step _ _ = false

  -- ref_q + step, where a big step is cut to its sign times the greatest step
  abbrev pub limit_step : F → F → F → F
  limit_step max_step t r = r ⊕ (if is_big max_step t r then n.sign (t ⊖ r) ⊗ max_step else t ⊖ r)

  unfoldable pub limit_steps : F → List F → List F → List F
  limit_steps max_step (t ∷ ts) (r ∷ rs) = limit_step max_step t r ∷ limit_steps max_step ts rs
  limit_steps max_step _ _ = []

  abbrev pub max_joint_step : SafetyFilter F → F
  max_joint_step f = n.of_nat 2 ⊗ f.p.max_joint_speed_scale ⊗ f.dt

  unfoldable pub filter_joint :
      List F → RobotState F → SafetyFilter F → SafetyResult F × SafetyFilter F
  filter_joint target_q state f =
      let p = f.p in
      let clipped_q = clip_joints p.joint_margin_rad p.joint_lower p.joint_upper target_q in
      let outside = not (joints_close clipped_q target_q) in
      let inside_q = if outside then clipped_q else target_q in
      let ref_q = get_or_else state.q f.prev_q in
      let big = any_big (max_joint_step f) inside_q ref_q in
      let q = if big then limit_steps (max_joint_step f) inside_q ref_q else inside_q in
      (
        record {
          ok = true;
          pose = none;
          q = some q;
          clipped = outside || big;
          reason = StopReason.nothing;
          clip_reasons = reason_if outside ++ reason_if big;
        },
        record f { prev_q = some q },
      )
