-- ===== src/Teleop/Intervene.antt =====
-- The intervention of the operator.
use package.flexiv_control.Teleop.{
  SpaceMouseState, Driven, SpaceMouseTeleop, Session, Action, on_robot, is_pressed, magnitude,
  apply_deadband, deadman_ok, unit_box, infer_open, gripper_is_open, toggle, gripper_from_buttons,
  taken_over, intervention,
}
use flexiv_control.Common.{
  ℕ, Bool, true, false, not, ◌&&◌, Option, none, some, ◌≡◌, ◌⊎◌, inl, inr, refl, arith, Bool-cases,
  if◌then◌else◌,
}
use flexiv_control.Common.Result.{Result, ok, err}
use flexiv_control.Common.Exec.{
  Exec, Post, Hoare, Hoare-if, Hoare-bind, Hoare-post, recover, recovered, return, ◌>>=◌,
}
use flexiv_control.Number.{Number, IsOrdered, ◌≼◌, zero_num, one_num, clip, clip_bounds}
use flexiv_control.Types.{Vec3}

module _ {F : Type 0} ⦃n : Number F⦄ where
  abbrev pub InUnit : F → Type 0
  InUnit x = (n.neg one_num ≼ x) × (x ≼ one_num)

  abbrev pub InUnits : Vec3 F → Type 0
  InUnits v = InUnit v.x × InUnit v.y × InUnit v.z

  -- Every entry of the action is from -1 to 1.
  abbrev pub IsNormal : Action F → Type 0
  IsNormal a = InUnits a.motion.linear × InUnits a.motion.angular × InUnit a.gripper

  -- What the operator asks for along an axis: nothing inside the deadband, and else the deflection,
  -- clipped.
  abbrev pub asked_axis : F → F → F
  asked_axis band x = clip (if n.lt (n.abs x) band then zero_num else x) (n.neg one_num) one_num

  abbrev pub asked_axes : F → Vec3 F → Vec3 F
  asked_axes band v = record {
    x = asked_axis band v.x;
    y = asked_axis band v.y;
    z = asked_axis band v.z;
  }

  -- The action is what the operator does with the device, with the gripper as it is.
  abbrev pub IsOperators : F → SpaceMouseState F → Option Bool → Action F → Type 0
  IsOperators band st is_open a =
      (a.motion.linear ≡ asked_axes band st.translation)
      × (a.motion.angular ≡ asked_axes band st.rotation)
      × (((is_open ≡ some true) × (a.gripper ≡ one_num))
          ⊎ ((is_open ≡ some false) × (a.gripper ≡ n.neg one_num)))

  abbrev pub is_moving : SpaceMouseTeleop F → SpaceMouseState F → Bool
  is_moving t st = n.lt t.deadband (magnitude st) && deadman_ok t.deadman_button st

  -- The policy's action goes through, or the operator's, who holds the deadman.
  abbrev pub Decides :
      SpaceMouseTeleop F
      → SpaceMouseState F
      → Action F
      → (is_open : Option Bool) → Action F × Bool
      → Type 0
  Decides t st policy is_open (a, took) =
      ((took ≡ false) × (a ≡ policy) × (is_moving t st ≡ false))
      ⊎ ((took ≡ true) × IsNormal a × IsOperators t.deadband st is_open a × (is_moving t st ≡ true))

  module _ {R : Type 0} (driven : Driven F R) (d : Option ℕ) (band : F) where
    -- The settings that decide are never changed.
    abbrev Set : Session F R → Type 0
    Set s = (s.teleop.deadman_button ≡ d) × (s.teleop.deadband ≡ band)

    -- The method does not raise.
    abbrev Quiet : {A : Type 0} → Exec (Session F R) A → Type 0
    Quiet m = Hoare Set m (λ _. Set) (λ _. ⊥)

    recovered-Quiet :
        {A : Type 0} (a : A) (o : Result A × Session F R)
        → Post (λ _. Set) Set o
        → Post (λ _. Set) (λ _. ⊥) (recovered a o)
    recovered-Quiet a (ok x, s) h = h
    recovered-Quiet a (err e, s) h = h

    either :
        {A : Type 0} (o : Result A × R) (s : Session F R)
        → Set s
        → Post (λ _. Set) Set (o.0, record s { robot = o.1 })
    either (ok a, r) s h = h
    either (err x, r) s h = h

    read_width :
        (f : F → Bool)
        → Hoare Set (on_robot driven.gripper_width >>= λ w. return (f w)) (λ _. Set) Set
    unfolding on_robot
    read_width f =
        Hoare-bind _ _ (record { at = λ s k. either (driven.gripper_width s.robot) s k })
          λ w. record { at = λ s k. k }

    -- The answer is kept for the next time.
    infer_open-Says :
        (o : Option Bool)
        → Hoare
            (λ s. Set s × (s.teleop.gripper_open ≡ o))
            (infer_open driven o)
            (λ wide s. Set s × (s.teleop.gripper_open ≡ some wide))
            (λ _. ⊥)
    unfolding infer_open recover
    infer_open-Says (some b) = record { at = λ s k. k }
    infer_open-Says none =
        Hoare-bind {Q = λ _. Set} _ _
          (record {
            at = λ s k. recovered-Quiet false _ ((read_width (n.lt (n.lit 4 2))).at s k.0);
          })
          λ wide.
            Hoare-bind {Q = λ _ s. Set s × (s.teleop.gripper_open ≡ some wide)} _ _
              (record { at = λ s k. (k, refl) }) λ u. record { at = λ s k. k }

    gripper_is_open-Says :
        Hoare Set
          (gripper_is_open driven)
          (λ wide s. Set s × (s.teleop.gripper_open ≡ some wide))
          (λ _. ⊥)
    unfolding gripper_is_open
    gripper_is_open-Says =
        Hoare-bind {Q = λ o s. Set s × (s.teleop.gripper_open ≡ o)} _ _
          (record { at = λ s k. (k, refl) }) infer_open-Says

    gripper_is_open-Quiet : Quiet (gripper_is_open driven)
    gripper_is_open-Quiet = Hoare-post (λ wide s k. k.0) gripper_is_open-Says

    toggle-Quiet : (t : SpaceMouseTeleop F) → Quiet (toggle driven t)
    unfolding toggle
    toggle-Quiet t =
        Hoare-bind _ _ gripper_is_open-Quiet λ b.
          Hoare-bind {Q = λ _. Set} _ _ (record { at = λ s k. k }) λ u. record { at = λ s k. k }

    gripper_from_buttons-Quiet : (st : SpaceMouseState F) → Quiet (gripper_from_buttons driven st)
    unfolding gripper_from_buttons
    gripper_from_buttons-Quiet st =
        Hoare-bind {Q = λ _. Set} _ _ (record { at = λ s k. k })
          λ t.
            Hoare-bind {Q = λ _. Set} _ _ (record { at = λ s k. k })
              λ u.
                Hoare-if (is_pressed st.buttons t.gripper_button && not t.prev_pressed) _ _
                  (λ e. toggle-Quiet t) λ e. record { at = λ s k. k }

  module _ (order : IsOrdered F) (unit : n.neg one_num ≼ one_num) where
    clip-InUnits : (v : Vec3 F) → InUnits (unit_box v)
    clip-InUnits v = (
      clip_bounds order v.x (n.neg one_num) one_num unit,
      clip_bounds order v.y (n.neg one_num) one_num unit,
      clip_bounds order v.z (n.neg one_num) one_num unit,
    )

    ends-InUnit : (wide : Bool) → InUnit (if wide then one_num else n.neg one_num)
    ends-InUnit true = (unit, ground (arith, order.asym one_num one_num))
    ends-InUnit false = (ground (arith, order.asym (n.neg one_num) (n.neg one_num)), unit)

    taken :
        (st : SpaceMouseState F) (band : F) (wide : Bool)
        → IsNormal (record {
          motion = record {
            linear = unit_box (apply_deadband band st.translation);
            angular = unit_box (apply_deadband band st.rotation);
          };
          gripper = if wide then one_num else n.neg one_num;
        })
    taken st band wide = (
      clip-InUnits (apply_deadband band st.translation),
      clip-InUnits (apply_deadband band st.rotation),
      ends-InUnit wide,
    )

    module _ {R : Type 0} (driven : Driven F R) (st : SpaceMouseState F) (policy : Action F)
        (d : Option ℕ) (band : F) where
      -- What comes of the test, under settings that decide the same.
      abbrev moving : Bool
      moving = n.lt band (magnitude st) && deadman_ok d st

      abbrev Decided : Action F × Bool → Session F R → Type 0
      Decided out s =
          ((out.1 ≡ false) × (out.0 ≡ policy) × (moving ≡ false))
          ⊎ ((out.1 ≡ true)
              × IsNormal out.0
              × IsOperators band st s.teleop.gripper_open out.0
              × (moving ≡ true))

      gated :
          (t : SpaceMouseTeleop F) (s : Session F R)
          → Set driven d band s
          → t.deadman_button ≡ d
          → t.deadband ≡ band
          → Post Decided
              (λ _. ⊥)
              ((if n.lt t.deadband (magnitude st) && deadman_ok t.deadman_button st
                  then taken_over driven t st
                  else return (policy, false))
                s)
      unfolding taken_over apply_deadband
      gated t s k same_d same_band = elim (Bool-cases moving) [
        | inr rests ↦ rw (same_d, same_band, rests) (inl (refl, refl, rests))
        | inl moves ↦
            rw (same_d, same_band, moves)
              ((Hoare-bind {R = Decided} _ _ (gripper_is_open-Says driven d band) λ wide. record {
                at = λ s' k'. inr (
                  refl,
                  taken st band wide,
                  (refl, refl, ends wide s'.teleop.gripper_open k'.1),
                  moves,
                );
              }).at
                s k)
      ]
        where
          ends :
              (wide : Bool) (is_open : Option Bool)
              → is_open ≡ some wide
              → ((is_open ≡ some true) × ((if wide then one_num else n.neg one_num) ≡ one_num))
                ⊎ ((is_open ≡ some false)
                    × ((if wide then one_num else n.neg one_num) ≡ n.neg one_num))
          ends true is_open e = inl (e, refl)
          ends false is_open e = inr (e, refl)

    -- For ordered numbers in which -1 is at most 1: an intervention never raises, also where the
    -- robot's state cannot be read. Either the policy's action goes through as it is; or, exactly when
    -- the deadman is held, if there is one, and the device is deflected past the deadband, the
    -- operator's replaces it: along each axis the deflection of the device, none inside the
    -- deadband, and clipped; 1 or -1 for a gripper that is open or not, by what is kept of it; and
    -- all seven entries from -1 to 1.
    pub intervention-Decides :
        {R : Type 0} (driven : Driven F R) (st : SpaceMouseState F) (policy : Action F)
        (s : Session F R)
        → Post
            (λ out s'. Decides s.teleop st policy s'.teleop.gripper_open out)
            (λ s'. ⊥)
            (intervention driven st policy s)
    unfolding intervention
    intervention-Decides driven st policy s =
        let d = s.teleop.deadman_button in
        let band = s.teleop.deadband in
        (Hoare-bind {R = Decided driven st policy d band} _ _
            (gripper_from_buttons-Quiet driven d band st)
            λ g.
              Hoare-bind
                {Q = λ t s'. Set driven d band s' × (t.deadman_button ≡ d) × (t.deadband ≡ band)} _
                _ (record { at = λ s' k. (k, k.0, k.1) })
                λ t. record { at = λ s' k. gated driven st policy d band t s' k.0 k.1 k.2 }).at
          s (refl, refl)
