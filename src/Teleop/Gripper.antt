-- ===== src/Teleop/Gripper.antt =====
-- The gripper button, over a sequence of readings of the device.
use package.flexiv_control.Teleop.{
  SpaceMouseState, Driven, SpaceMouseTeleop, Session, is_pressed, toggle_command, infer_open,
  gripper_is_open, toggle, gripper_from_buttons,
}
use flexiv_control.Common.{
  ℕ, zero, suc, Bool, not, ◌&&◌, Option, none, some, List, [], ◌∷◌, ◌≡◌, refl, sym, ap, subst, inl,
  inr, Bool-cases, if◌then◌else◌,
}
use flexiv_control.Common.Result.{Result, ok, err}
use flexiv_control.Common.Exec.{◌>>=◌}
use flexiv_control.Number.{Number}
use flexiv_control.Types.{GripperCommand}

module _ {F : Type 0} where
  -- How often the button goes down, from its position before.
  abbrev pub presses : (button : ℕ) → Bool → List (SpaceMouseState F) → ℕ
  presses button was [] = 0
  presses button was (st ∷ sts) =
      let now = is_pressed st.buttons button in
      let rest = presses button now sts in if now && not was then suc rest else rest

  module _ ⦃n : Number F⦄ where
    -- Commands that open and close in turn, after a gripper that is open or not.
    abbrev pub alternating : SpaceMouseTeleop F → ℕ → Bool → List (GripperCommand F)
    alternating t zero is_open = []
    alternating t (suc k) is_open = toggle_command t (not is_open) ∷ alternating t k (not is_open)

    module _ {R : Type 0} (driven : Driven F R) where
      -- The commands that the readings give rise to.
      abbrev pub and_then :
          (Session F R → List (GripperCommand F))
          → Result (Option (GripperCommand F)) × Session F R
          → List (GripperCommand F)
      and_then rest (ok none, s) = rest s
      and_then rest (ok (some g), s) = g ∷ rest s
      and_then rest (err e, s) = rest s

      unfoldable pub commands : List (SpaceMouseState F) → Session F R → List (GripperCommand F)
      commands [] s = []
      commands (st ∷ sts) s = and_then (commands sts) (gripper_from_buttons driven st s)

      -- The invariant of a run: what the button was, and whether the gripper is open.
      abbrev stands : Session F R → Bool → Bool → Session F R
      stands s was is_open = record s {
        teleop = record s.teleop { prev_pressed = was; gripper_open = some is_open };
      }

      step :
          (st : SpaceMouseState F) (s : Session F R) (was b : Bool)
          → let now = is_pressed st.buttons s.teleop.gripper_button in
            gripper_from_buttons driven st (stands s was b) ≡ (
              if now && not was
              then (ok (some (toggle_command s.teleop (not b))), stands s now (not b))
              else (ok none, stands s now b))
      unfolding gripper_from_buttons gripper_is_open infer_open toggle toggle_command ◌>>=◌
      step st s was b =
          elim (Bool-cases (is_pressed st.buttons s.teleop.gripper_button && not was)) [
            | inl rises ↦ rw rises refl
            | inr rests ↦ rw rests refl
          ]

      all :
          (sts : List (SpaceMouseState F)) (s : Session F R) (was b : Bool)
          → commands sts (stands s was b)
            ≡ alternating s.teleop (presses s.teleop.gripper_button was sts) b
      unfolding commands
      all [] s was b = refl
      all (st ∷ sts) s was b =
          rw (step st s was b)
            (elim (Bool-cases (is_pressed st.buttons s.teleop.gripper_button && not was)) [
              | inl rises ↦ rw rises (
                  ap (◌∷◌ (toggle_command s.teleop (not b)))
                    (all sts s (is_pressed st.buttons s.teleop.gripper_button) (not b)))
              | inr rests ↦ rw rests (all sts s (is_pressed st.buttons s.teleop.gripper_button) b)
            ])

      -- A button that is held counts once. From a gripper that is known to be open or closed, the
      -- commands that a sequence of readings gives rise to are as many as the times at which the
      -- button goes down, and they open and close in turn.
      pub commands-alternating :
          (sts : List (SpaceMouseState F)) (s : Session F R) (b : Bool)
          → s.teleop.gripper_open ≡ some b
          → commands sts s
            ≡ alternating s.teleop (presses s.teleop.gripper_button s.teleop.prev_pressed sts) b
      commands-alternating sts s b e =
          subst
            (λ (o : Option Bool).
              commands sts (record s { teleop = record s.teleop { gripper_open = o } })
              ≡ alternating s.teleop (presses s.teleop.gripper_button s.teleop.prev_pressed sts) b)
            (sym e) (all sts s s.teleop.prev_pressed b)
