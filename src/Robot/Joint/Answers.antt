-- ===== src/Robot/Joint/Answers.antt =====
-- What the joint filter answers from one command to the next.
use flexiv_control.Common.{
  true, false, some, List, [], ◌∷◌, All, ◌≡◌, ◌⊎◌, refl, sym, subst, ap, get_or_else,
}
use flexiv_control.Number.{Number, ◌≼◌, IsOrdered, IsExact, zero_num}
use flexiv_control.Types.{RobotState}
use flexiv_control.Safety.Profile.{SafetyProfile, SafetyResult, SafetyFilter}
use flexiv_control.Safety.Joint.{clip_joints, joints_close, max_joint_step, filter_joint}
use flexiv_control.Safety.Joint.Limits.{InLimits, HaveRoom, InReach, filter_joint-InLimits}

module _ {F : Type 0} ⦃n : Number F⦄ (p : SafetyProfile F) (m : F) where
  abbrev pub Inside : List F → Type 0
  Inside = InLimits p.joint_margin_rad p.joint_lower p.joint_upper

  -- A target of as many joints as the limits, which leave room: inside them, or far enough outside
  -- to be clipped.
  abbrev pub FitsJoints : List F → Type 0
  FitsJoints t =
      HaveRoom p.joint_margin_rad p.joint_lower p.joint_upper t
      × (Inside t
          ⊎ (joints_close (clip_joints p.joint_margin_rad p.joint_lower p.joint_upper t) t ≡ false))

  -- Commands, newest first, each one step at most from the one before it.
  abbrev pub Smooth : List (List F) → Type 0
  Smooth (q ∷ r ∷ rest) = InReach m r q × Smooth (r ∷ rest)
  Smooth _ = Unit

  abbrev pub Sound : List (List F) → Type 0
  Sound qs = All Inside qs × Smooth qs

  -- The filter works with this profile and step, from the newest of the commands.
  abbrev pub Anchored : SafetyFilter F → List (List F) → Type 0
  Anchored f [] = ⊥
  Anchored f (q ∷ qs) = (f.p ≡ p) × (max_joint_step f ≡ m) × (f.prev_q ≡ some q)

  module _ (order : IsOrdered F) (exact : IsExact F) (positive : zero_num ≼ m) where
    emits :
        (target : List F) (state : RobotState F) (f : SafetyFilter F) (prev q : List F)
        → FitsJoints target
        → (f.p ≡ p) × (max_joint_step f ≡ m) × (f.prev_q ≡ some prev)
        → Inside prev
        → (filter_joint target state f).0.q ≡ some q
        → Inside q × InReach m prev q
    emits target state f prev q (room, fits) (same, step, kept) inside out =
        let from : get_or_else state.q f.prev_q ≡ prev = ap (get_or_else state.q) kept in
        let within =
          subst
            (λ (v : SafetyProfile F).
              InLimits v.joint_margin_rad v.joint_lower v.joint_upper
                (get_or_else state.q f.prev_q))
            (sym same) (subst Inside (sym from) inside) in
        let e =
          filter_joint-InLimits order exact target state f q (rw same room) (rw step positive)
            within (rw same fits) out in
        (
          subst (λ (v : SafetyProfile F). InLimits v.joint_margin_rad v.joint_lower v.joint_upper q)
              same e.0,
          subst (λ v. InReach v prev q) step (subst (λ v. InReach (max_joint_step f) v q) from e.1),
        )

    -- What the filter answers from the newest command `prev`.
    abbrev pub Answered : List F → SafetyResult F × SafetyFilter F → Type 0
    Answered prev (sr, f) =
        (sr.ok ≡ true)
        × ((q : List F) × (sr.q ≡ some q)
            × (f.p ≡ p)
            × (max_joint_step f ≡ m)
            × (f.prev_q ≡ some q)
            × Inside q
            × InReach m prev q)

    pub answers :
        (target : List F) (state : RobotState F) (f : SafetyFilter F) (prev : List F)
        → FitsJoints target
        → (f.p ≡ p) × (max_joint_step f ≡ m) × (f.prev_q ≡ some prev)
        → Inside prev
        → Answered prev (filter_joint target state f)
    unfolding filter_joint
    answers target state f prev fits anchored inside =
        let e = emits target state f prev _ fits anchored inside refl in
        (refl, (_, refl, anchored.0, anchored.1, refl, e.0, e.1))
