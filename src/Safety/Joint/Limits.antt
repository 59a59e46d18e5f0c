-- ===== src/Safety/Joint/Limits.antt =====
-- What `filter_joint` bounds: the joint positions and the step of each joint.
use mathlib.Core.Option.{some-injective}
use package.flexiv_control.Safety.Profile.{SafetyFilter}
use package.flexiv_control.Safety.Joint.{
  clip_joints, joints_close, is_big, any_big, limit_step, limit_steps, max_joint_step, filter_joint,
}
use flexiv_control.Common.{
  ◌≡◌, ◌⊎◌, inl, inr, refl, sym, ◌∙◌, subst, ap, true, false, some, List, [], ◌∷◌, get_or_else,
  arith, Bool-cases, if◌then◌else◌, length, suc, false≢true,
}
use flexiv_control.Number.{
  Number, ◌≼◌, ◌⊕◌, ◌⊖◌, ◌⊗◌, zero_num, IsOrdered, IsExact, clip_bounds, ≼_trans,
}
use flexiv_control.Types.{RobotState}

module _ {F : Type 0} ⦃n : Number F⦄ where
  -- Each joint lies between its limits less the margin.
  abbrev pub InLimits : F → List F → List F → List F → Type 0
  InLimits margin (l ∷ ls) (u ∷ us) (q ∷ qs) =
      (l ⊕ margin ≼ q) × (q ≼ u ⊖ margin) × InLimits margin ls us qs
  InLimits margin [] [] [] = Unit
  InLimits margin _ _ _ = ⊥

  -- The limits leave room, and there are as many as joints.
  abbrev pub HaveRoom : F → List F → List F → List F → Type 0
  HaveRoom margin (l ∷ ls) (u ∷ us) (q ∷ qs) = (l ⊕ margin ≼ u ⊖ margin) × HaveRoom margin ls us qs
  HaveRoom margin [] [] [] = Unit
  HaveRoom margin _ _ _ = ⊥

  -- Each joint of the command is its reference and a step no longer than the greatest step.
  abbrev pub InReach : F → List F → List F → Type 0
  InReach m (r ∷ rs) (q ∷ qs) = ((s : F) × (q ≡ r ⊕ s) × (n.abs s ≼ m)) × InReach m rs qs
  InReach m [] [] = Unit
  InReach m _ _ = ⊥

  module _ (order : IsOrdered F) (exact : IsExact F) where
    clip_joints-InLimits :
        (margin : F) (ls us qs : List F)
        → HaveRoom margin ls us qs
        → InLimits margin ls us (clip_joints margin ls us qs)
    unfolding clip_joints
    clip_joints-InLimits margin (l ∷ ls) (u ∷ us) (q ∷ qs) h =
        let b = clip_bounds order q (l ⊕ margin) (u ⊖ margin) h.0 in
        (b.0, b.1, clip_joints-InLimits margin ls us qs h.1)
    clip_joints-InLimits margin [] [] [] h = tt
    clip_joints-InLimits margin [] (u ∷ us) qs h = absurd h
    clip_joints-InLimits margin [] [] (q ∷ qs) h = absurd h
    clip_joints-InLimits margin (l ∷ ls) [] qs h = absurd h
    clip_joints-InLimits margin (l ∷ ls) (u ∷ us) [] h = absurd h

    -- A big step goes up or down, and is cut to the greatest step that way.
    big_step :
        (d m : F)
        → zero_num ≼ m
        → n.lt m (n.abs d) ≡ true
        → ((m ≼ d) × (n.sign d ⊗ m ≡ m)) ⊎ ((d ≼ n.neg m) × (n.sign d ⊗ m ≡ n.neg m))
    big_step d m low big = elim (Bool-cases (n.lt zero_num d)) [
      | inl up ↦
          (let size = exact.abs_pos d (order.asym _ _ up) in
            inl (order.asym _ _ (rw size at big), exact.sign_pos d m up))
      | inr flat ↦ elim (Bool-cases (n.lt d zero_num)) [
        | inl down ↦
            (let size = exact.abs_neg d down in
              inr (exact.neg_anti m d (order.asym _ _ (rw size at big)), exact.sign_neg d m down))
        | inr level ↦
            (let size = exact.abs_pos d level in
              absurd (ground (arith, order.weak m zero_num d (rw size at big))))
      ]
    ]

    step_size : (m t r : F) → zero_num ≼ m → (s : F) × (limit_step m t r ≡ r ⊕ s) × (n.abs s ≼ m)
    step_size m t r low = elim (Bool-cases (is_big m t r)) [
      | inl big ↦ (
        n.sign (t ⊖ r) ⊗ m,
        rw big,
        ground (
          arith,
          big_step (t ⊖ r) m low big,
          exact.abs_pos m low,
          exact.abs-neg m,
          order.asym m m,
        ),
      )
      | inr small ↦ (t ⊖ r, rw small, small)
    ]

    limit_steps-InReach :
        (m : F) (ts rs : List F)
        → zero_num ≼ m
        → length ts ≡ length rs
        → InReach m rs (limit_steps m ts rs)
    unfolding limit_steps
    limit_steps-InReach m [] [] low e = tt
    limit_steps-InReach m (t ∷ ts) (r ∷ rs) low e =
        (step_size m t r low, limit_steps-InReach m ts rs low (omega arith))
    limit_steps-InReach m [] (r ∷ rs) low e = absurd (omega arith)
    limit_steps-InReach m (t ∷ ts) [] low e = absurd (omega arith)

    -- A step of a joint stops between its reference and its target.
    step_between :
        (m t r lo hi : F)
        → zero_num ≼ m
        → (lo ≼ t) × (t ≼ hi)
        → (lo ≼ r) × (r ≼ hi)
        → (lo ≼ limit_step m t r) × (limit_step m t r ≼ hi)
    step_between m t r lo hi low ht hr = elim (Bool-cases (is_big m t r)) [
      | inl big ↦ elim (big_step (t ⊖ r) m low big) [
        | inl (short, cut) ↦
            rw (big, cut)
              (
                ≼_trans order _ _ _ hr.0 (rw (exact.add_zero r) at (exact.add_mono r _ _ low)),
                ≼_trans order _ _ _ (rw (exact.add_sub r t) at (exact.add_mono r _ _ short)) ht.1,
              )
        | inr (short, cut) ↦
            rw (big, cut)
              (
                ≼_trans order _ _ _ ht.0 (rw (exact.add_sub r t) at (exact.add_mono r _ _ short)),
                ≼_trans order _ _ _
                    (rw (exact.add_zero r) at (exact.add_mono r _ _ (exact.neg_nonpos m low))) hr.1,
              )
      ]
      | inr small ↦ rw (small, exact.add_sub r t) ht
    ]

    limit_steps-InLimits :
        (m margin : F) (ls us ts rs : List F)
        → zero_num ≼ m
        → InLimits margin ls us ts
        → InLimits margin ls us rs
        → InLimits margin ls us (limit_steps m ts rs)
    unfolding limit_steps
    limit_steps-InLimits m margin [] [] [] [] low ht hr = tt
    limit_steps-InLimits m margin (l ∷ ls) (u ∷ us) (t ∷ ts) (r ∷ rs) low ht hr =
        let step = step_between m t r (l ⊕ margin) (u ⊖ margin) low (ht.0, ht.1) (hr.0, hr.1) in
        (step.0, step.1, limit_steps-InLimits m margin ls us ts rs low ht.2 hr.2)
    limit_steps-InLimits m margin [] [] [] (r ∷ rs) low ht hr = absurd hr
    limit_steps-InLimits m margin [] [] (t ∷ ts) rs low ht hr = absurd ht
    limit_steps-InLimits m margin [] (u ∷ us) ts rs low ht hr = absurd ht
    limit_steps-InLimits m margin (l ∷ ls) [] ts rs low ht hr = absurd ht
    limit_steps-InLimits m margin (l ∷ ls) (u ∷ us) [] rs low ht hr = absurd ht
    limit_steps-InLimits m margin (l ∷ ls) (u ∷ us) (t ∷ ts) [] low ht hr = absurd hr

    small-InReach :
        (m : F) (ts rs : List F) → length ts ≡ length rs → any_big m ts rs ≡ false → InReach m rs ts
    unfolding any_big
    small-InReach m [] [] e h = tt
    small-InReach m (t ∷ ts) (r ∷ rs) e h = (
      (t ⊖ r, sym (exact.add_sub r t), ground arith),
      small-InReach m ts rs (omega arith) (ground arith),
    )
    small-InReach m [] (r ∷ rs) e h = absurd (omega arith)
    small-InReach m (t ∷ ts) [] e h = absurd (omega arith)

    length-InLimits :
        (margin : F) (ls us qs : List F) → InLimits margin ls us qs → length qs ≡ length ls
    length-InLimits margin [] [] [] h = refl
    length-InLimits margin (l ∷ ls) (u ∷ us) (q ∷ qs) h =
        ap suc (length-InLimits margin ls us qs h.2)
    length-InLimits margin [] [] (q ∷ qs) h = absurd h
    length-InLimits margin [] (u ∷ us) qs h = absurd h
    length-InLimits margin (l ∷ ls) [] qs h = absurd h
    length-InLimits margin (l ∷ ls) (u ∷ us) [] h = absurd h

    module _ (target : List F) (state : RobotState F) (f : SafetyFilter F) where
      open f.p use {joint_margin_rad as margin, joint_lower as lower, joint_upper as upper}

      -- The joints that the step is measured from.
      abbrev pub reference : List F
      reference = get_or_else state.q f.prev_q

      step_part :
          (inside : List F)
          → zero_num ≼ max_joint_step f
          → InLimits margin lower upper inside
          → InLimits margin lower upper reference
          → let q =
              (if any_big (max_joint_step f) inside reference
                then limit_steps (max_joint_step f) inside reference
                else inside) in
            InLimits margin lower upper q × InReach (max_joint_step f) reference q
      step_part inside low hi hr =
          let same : length inside ≡ length reference =
            length-InLimits margin lower upper inside hi
            ∙ sym (length-InLimits margin lower upper reference hr) in
          elim (Bool-cases (any_big (max_joint_step f) inside reference)) [
            | inl big ↦ rw big (
              limit_steps-InLimits _ margin lower upper inside reference low hi hr,
              limit_steps-InReach _ inside reference low same,
            )
            | inr small ↦ rw small (hi, small-InReach _ inside reference same small)
          ]

      -- In exact arithmetic, with room between the limits, a step that is not negative, and a previous
      -- command (the measured joints, if there is none) inside the limits: every command that passes
      -- keeps each joint inside its limits less the margin, and moves it from the previous command by
      -- no more than the step that the speed scale allows in one tick. The target lies inside the
      -- limits, or is not `allclose` to its clipped version.
      pub filter_joint-InLimits :
          (q : List F)
          → HaveRoom margin lower upper target
          → zero_num ≼ max_joint_step f
          → InLimits margin lower upper reference
          → InLimits margin lower upper target
            ⊎ (joints_close (clip_joints margin lower upper target) target ≡ false)
          → (filter_joint target state f).0.q ≡ some q
          → InLimits margin lower upper q × InReach (max_joint_step f) reference q
      unfolding filter_joint
      filter_joint-InLimits q room low hr ht out =
          let clipped = clip_joints-InLimits margin lower upper target room in
          elim (Bool-cases (joints_close (clip_joints margin lower upper target) target)) [
            | inl same ↦ (elim ht [
              | inl h ↦
                  subst
                    (λ (v : List F).
                      InLimits margin lower upper v × InReach (max_joint_step f) reference v)
                    (some-injective _ _ (rw same at out)) (step_part target low h hr)
              | inr h ↦ absurd (false≢true (sym h ∙ same))
            ])
            | inr moved ↦
                subst
                  (λ (v : List F).
                    InLimits margin lower upper v × InReach (max_joint_step f) reference v)
                  (some-injective _ _ (rw moved at out)) (step_part _ low clipped hr)
          ]
