-- ===== src/Safety/Cartesian/Workspace.antt =====
-- The workspace box and the stages after it: moving part of the way from a point of the box to a
-- point of the box ends in the box.
use package.flexiv_control.Safety.Profile.{Range, SafetyProfile, SafetyFilter}
use flexiv_control.Safety.Cartesian.Stages.{
  Work, exceeds, all_close, clip_position, workspace_stage, jump_linear_stage, jump_angular_stage,
  speed_linear_stage, speed_angular_stage, accel_stage, linear_step, along,
}
use package.flexiv_control.Safety.Cartesian.{limited, filter_cartesian}
use flexiv_control.Common.{
  ◌≡◌, ◌⊎◌, inl, inr, sym, ◌∙◌, subst, some-ne-none, true, false, Option, none, some, get_or_else,
  arith, Bool-cases, Option-cases,
}
use mathlib.Core.Option.{some-injective}
use flexiv_control.Number.{
  Number, ◌≼◌, ◌⊕◌, ◌⊖◌, ◌⊗◌, ◌⊘◌, zero_num, one_num, num_max, IsOrdered, IsExact, clip_bounds,
  ≼_trans, num_max-le,
}
use flexiv_control.Types.{Vec3, Vec6, Pose, RobotState}
use flexiv_control.Transforms.{eps}

module _ {F : Type 0} ⦃n : Number F⦄ where
  abbrev pub Within : Range F → F → Type 0
  Within r a = (r.low ≼ a) × (a ≼ r.high)

  abbrev pub InBox : SafetyProfile F → Vec3 F → Type 0
  InBox p v = Within p.ws_x v.x × Within p.ws_y v.y × Within p.ws_z v.z

  -- The ranges of the box are not empty, and the limits are not negative.
  pub record IsSound (p : SafetyProfile F) : Type 0 where
    pub range_x : p.ws_x.low ≼ p.ws_x.high
    pub range_y : p.ws_y.low ≼ p.ws_y.high
    pub range_z : p.ws_z.low ≼ p.ws_z.high
    pub jump_nonneg : zero_num ≼ p.max_pose_jump_linear
    pub speed_nonneg : zero_num ≼ p.max_linear_speed

  module _ (order : IsOrdered F) (exact : IsExact F) where
    -- A part of the way from `a` to `b` stays between bounds of both.
    part_between :
        (r : Range F) (a b s : F)
        → Within r a
        → Within r b
        → zero_num ≼ s
        → s ≼ one_num
        → Within r (a ⊕ (b ⊖ a) ⊗ s)
    part_between r a b s ha hb low high = elim (Bool-cases (n.lt (b ⊖ a) zero_num)) [
      | inl down ↦
          (let part = exact.shrink_neg (b ⊖ a) s low high (order.asym _ _ down) in
            let above : b ≼ a ⊕ (b ⊖ a) ⊗ s =
              rw (exact.add_sub a b) at (exact.add_mono a _ _ part.0) in
            let below : a ⊕ (b ⊖ a) ⊗ s ≼ a =
              rw (exact.add_zero a) at (exact.add_mono a _ _ part.1) in
            (≼_trans order _ _ _ hb.0 above, ≼_trans order _ _ _ below ha.1))
      | inr up ↦
          (let part = exact.shrink_pos (b ⊖ a) s low high up in
            let above : a ≼ a ⊕ (b ⊖ a) ⊗ s =
              rw (exact.add_zero a) at (exact.add_mono a _ _ part.0) in
            let below : a ⊕ (b ⊖ a) ⊗ s ≼ b =
              rw (exact.add_sub a b) at (exact.add_mono a _ _ part.1) in
            (≼_trans order _ _ _ ha.0 above, ≼_trans order _ _ _ below hb.1))
    ]

    along-InBox :
        (p : SafetyProfile F) (ref target : Vec3 F) (s : F)
        → InBox p ref
        → InBox p target
        → zero_num ≼ s
        → s ≼ one_num
        → InBox p (along ref target s)
    along-InBox p ref target s ha hb low high = (
      part_between p.ws_x _ _ s ha.0 hb.0 low high,
      part_between p.ws_y _ _ s ha.1 hb.1 low high,
      part_between p.ws_z _ _ s ha.2 hb.2 low high,
    )

    scale_unit :
        (a b : F)
        → zero_num ≼ a
        → n.lt a b ≡ true
        → (zero_num ≼ a ⊘ num_max b eps) × (a ⊘ num_max b eps ≼ one_num)
    scale_unit a b low less = exact.ratio_unit a m low (order.asym _ _ less_m) positive
      where
        m : F
        m = num_max b eps

        less_m : n.lt a m ≡ true
        less_m = ground (arith, order.weak a m b less, num_max-le order b eps)

        positive : n.lt zero_num m ≡ true
        positive = ground (arith, order.weak a zero_num m less_m)

    module _ (p : SafetyProfile F) (sound : IsSound p) (ref : Pose F)
        (start : InBox p ref.position) where
      open sound use {range_x, range_y, range_z, jump_nonneg, speed_nonneg}

      workspace-InBox :
          (target : Pose F) {w : Work F}
          → InBox p target.position
            ⊎ (all_close (clip_position p target.position) target.position ≡ false)
          → workspace_stage p target ≡ some w
          → InBox p w.pose.position
      unfolding workspace_stage clip_position
      workspace-InBox target h e =
          let v = target.position in
          ground (
            arith,
            clip_bounds order v.x p.ws_x.low p.ws_x.high range_x,
            clip_bounds order v.y p.ws_y.low p.ws_y.high range_y,
            clip_bounds order v.z p.ws_z.low p.ws_z.high range_z,
          )

      -- The step that the speed limit allows in one tick.
      allowed : (dt : F) → n.lt zero_num dt ≡ true → zero_num ≼ p.max_linear_speed ⊗ dt
      allowed dt positive =
          rw (exact.mul_zero p.max_linear_speed) at
            (exact.mul_mono p.max_linear_speed zero_num dt speed_nonneg (order.asym _ _ positive))

      over_allowed :
          (dt step : F)
          → n.lt zero_num dt ≡ true
          → n.lt p.max_linear_speed (step ⊘ num_max dt eps) ≡ true
          → n.lt (p.max_linear_speed ⊗ dt) step ≡ true
      over_allowed dt step positive fast =
          let c = p.max_linear_speed in
          let m = num_max dt eps in
          let longer : dt ≼ m = num_max-le order dt eps in
          let far : n.lt (c ⊗ m) step ≡ true =
            exact.ratio_lt step m c (ground (arith, order.weak zero_num m dt positive)) speed_nonneg
              fast in
          ground
            (arith, order.weak (c ⊗ m) (c ⊗ dt) step far, exact.mul_mono c dt m speed_nonneg longer)

      module _ (w : Work F) (h : InBox p w.pose.position) where
        jump_linear-InBox : InBox p (jump_linear_stage p ref w).pose.position
        unfolding jump_linear_stage
        jump_linear-InBox =
            elim (Bool-cases (n.lt p.max_pose_jump_linear (linear_step ref w.pose))) [
              | inl far ↦
                  (let unit = scale_unit _ _ jump_nonneg far in
                    rw far (along-InBox p ref.position w.pose.position _ start h unit.0 unit.1))
              | inr near ↦ rw near h
            ]

        jump_angular-InBox : InBox p (jump_angular_stage p ref w).pose.position
        unfolding jump_angular_stage
        jump_angular-InBox = ground arith

        speed_angular-InBox : (dt : F) → InBox p (speed_angular_stage p dt ref w).pose.position
        unfolding speed_angular_stage
        speed_angular-InBox dt = ground arith

        speed_linear-InBox :
            (dt : F)
            → n.lt zero_num dt ≡ true
            → InBox p (speed_linear_stage p dt ref w).pose.position
        unfolding speed_linear_stage
        speed_linear-InBox dt positive =
            elim (Bool-cases (n.lt p.max_linear_speed (linear_step ref w.pose ⊘ num_max dt eps))) [
              | inl fast ↦
                  (let unit =
                      scale_unit _ _ (allowed dt positive) (over_allowed dt _ positive fast) in
                    rw fast (along-InBox p ref.position w.pose.position _ start h unit.0 unit.1))
              | inr slow ↦ rw slow h
            ]

    limited-InBox :
        (f : SafetyFilter F) (ref : Pose F) (w : Work F)
        → IsSound f.p
        → n.lt zero_num f.dt ≡ true
        → InBox f.p ref.position
        → InBox f.p w.pose.position
        → InBox f.p (limited f ref w).pose.position
    unfolding limited
    limited-InBox f ref w sound positive start h =
        let jumped = jump_linear-InBox f.p sound ref start w h in
        let turned = jump_angular-InBox f.p sound ref start _ jumped in
        let slowed = speed_linear-InBox f.p sound ref start _ turned f.dt positive in
        speed_angular-InBox f.p sound ref start _ slowed f.dt

    module _ (target : Pose F) (state : RobotState F) (cap : Option (Vec6 F))
        (f : SafetyFilter F) where
      -- The setpoint that the limits are measured from: the previous command, else the live pose.
      abbrev pub reference : Pose F
      reference = get_or_else state.tcp_pose f.prev_pose

      abbrev FreeOfContact : Type 0
      FreeOfContact = exceeds state.wrench (get_or_else f.p.max_contact_wrench cap) ≡ false

      emitted_pose :
          (w : Work F)
          → f.p.max_linear_accel ≡ none
          → FreeOfContact
          → workspace_stage f.p target ≡ some w
          → (filter_cartesian target state cap f).0.pose ≡ some (limited f reference w).pose
      unfolding filter_cartesian accel_stage
      emitted_pose w plain free e = rw (free, e, plain)

      refused :
          workspace_stage f.p target ≡ none → (filter_cartesian target state cap f).0.pose ≡ none
      unfolding filter_cartesian
      refused e = ground (arith, e)

      contact_refused :
          exceeds state.wrench (get_or_else f.p.max_contact_wrench cap) ≡ true
          → (filter_cartesian target state cap f).0.pose ≡ none
      unfolding filter_cartesian
      contact_refused e = rw e

      -- With sound limits, a positive period and no acceleration cap, in exact arithmetic: if the
      -- previous command (the measured pose, if there is none) lies in the box, and the target lies in the box or is not `allclose` to its clipped version, then
      -- every setpoint that the filter lets through lies in the box, whatever limits act on it.
      pub filter_cartesian-InBox :
          (pose : Pose F)
          → IsSound f.p
          → n.lt zero_num f.dt ≡ true
          → f.p.max_linear_accel ≡ none
          → InBox f.p reference.position
          → InBox f.p target.position
            ⊎ (all_close (clip_position f.p target.position) target.position ≡ false)
          → (filter_cartesian target state cap f).0.pose ≡ some pose
          → InBox f.p pose.position
      filter_cartesian-InBox pose sound positive plain start h out =
          elim (Bool-cases (exceeds state.wrench (get_or_else f.p.max_contact_wrench cap))) [
            | inl over ↦ absurd (some-ne-none (sym out ∙ contact_refused over))
            | inr free ↦ elim (Option-cases (workspace_stage f.p target)) [
              | inl stop ↦ absurd (some-ne-none (sym out ∙ refused stop))
              | inr (w, e) ↦
                  (let same = some-injective _ _ (sym (emitted_pose w plain free e) ∙ out) in
                    subst (λ (v : Pose F). InBox f.p v.position) same
                      (limited-InBox f reference w sound positive start
                        (workspace-InBox f.p sound reference start target h e)))
            ]
          ]
