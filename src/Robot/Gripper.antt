-- ===== src/Robot/Gripper.antt =====
-- `Robot.command_gripper`, with its wait for the fingers. Readings of the clock, and stop requests of
-- other threads, are arguments; the loop runs on fuel.
use package.flexiv_control.Robot.{Robot, on_backend, check_lease, get_state}
use flexiv_control.Common.{
  ℕ, zero, suc, ◌+◌, ◌<◌, ◌≡◌, Bool, true, false, not, ◌||◌, ◌&&◌, Option, none, some, arith,
  if◌then◌else◌, false≢true, sym, subst, ◌∙◌,
}
use flexiv_control.Common.Result.{Result, ok, err}
use flexiv_control.Common.Exec.{
  Exec, return, ◌>>=◌, ◌>>◌, Post, Hoare, Hoare-bind, Hoare-return, Hoare-if,
}
use flexiv_control.Number.{Number, ◌⊖◌, ◌≼◌}
use flexiv_control.Types.{RobotState, GripperCommand}
use flexiv_control.Backend.{Backend}

-- A turn of the loop: the clock at its test, whether the event was set before it was tested, and the
-- clock at the test of the dwell.
pub record Glance (F : Type 0) : Type 0 where
  pub at_test : F
  pub requested : Bool
  pub at_dwell : F

-- `None` without a wait, the final width, and a wait that the fuel did not see the end of.
pub data Grip (F : Type 0) : Type 0 where
  sent unfinished : Grip F
  settled : F → Grip F

-- A call that waits answers with a width, and one that does not with nothing.
abbrev pub Answers : {F : Type 0} → Bool → Grip F → Type 0
Answers true (settled w) = Unit
Answers false sent = Unit
Answers _ _ = ⊥

module _ {F B : Type 0} where
  -- `self._cancel.is_set()`, after another thread may have set it.
  unfoldable pub is_cancelled : Bool → Exec (Robot F B) Bool
  is_cancelled requested r = let c = r.cancel || requested in (ok c, record r { cancel = c })

module _ {F : Type 0} ⦃n : Number F⦄ where
  unfoldable pub has_moved : F → RobotState F → Bool
  has_moved initial state =
      state.gripper_is_moving || n.lt (n.lit 1 3) (n.abs (state.gripper_width ⊖ initial))

  unfoldable pub is_at_target : GripperCommand F → RobotState F → Bool
  is_at_target cmd state =
      not cmd.grasp && n.lt (n.abs (state.gripper_width ⊖ cmd.width)) (n.lit 2 3)

  unfoldable pub is_still : Option F → Bool → F → RobotState F → Bool
  is_still none moved dwell state = false
  is_still (some prev) moved dwell state =
      n.lt (n.abs (state.gripper_width ⊖ prev)) (n.lit 5 4)
      && not state.gripper_is_moving
      && (moved || not (n.lt dwell (n.lit 5 1)))

  pub anything :
      {B A : Type 0} (m : Exec (Robot F B) A) → Hoare (λ r. Unit) m (λ a r. Unit) (λ r. Unit)
  anything {B = B} {A = A} m = record { at = λ r i. true_after (m r) }
    where
      true_after : (o : Result A × Robot F B) → Post (λ a r. Unit) (λ r. Unit) o
      true_after (ok a, r) = tt
      true_after (err e, r) = tt

  module _ {B : Type 0} (ops : Backend F B) (cmd : GripperCommand F) (timeout t0 : F)
      (glances : ℕ → Glance F) (initial : F) where
    abbrev is_settled : Glance F → Option F → Bool → RobotState F → Bool
    is_settled g prev moved state =
        is_at_target cmd state || is_still prev moved (g.at_dwell ⊖ t0) state

    -- The loop from turn `k` on, with what it remembers.
    unfoldable pub wait_settled : ℕ → ℕ → Option F → Bool → RobotState F → Exec (Robot F B) (Grip F)
    unfolding ◌>>=◌ is_cancelled get_state has_moved is_at_target is_still
    wait_settled zero k prev moved state = return unfinished
    wait_settled (suc fuel) k prev moved state =
        let g = glances k in
        let again = wait_settled fuel (k + 1) in
        if n.lt (g.at_test ⊖ t0) timeout
        then (do
          cancelled ← is_cancelled g.requested
          if cancelled then return (settled state.gripper_width) else (do
            state' ← get_state ops
            let moved' = moved || has_moved initial state'
            if is_settled g prev moved' state'
                then return (settled state'.gripper_width)
                else again (some state'.gripper_width) moved' state'))
        else return (settled state.gripper_width)

    over :
        (w : F)
        → Hoare (λ r. Unit) (return (settled w)) (λ g (r : Robot F B). Answers true g) (λ r. Unit)
    over w = Hoare-return (settled w) λ r i. tt

    at_turn :
        (i j : ℕ) → i ≡ j → timeout ≼ (glances j).at_test ⊖ t0 → timeout ≼ (glances i).at_test ⊖ t0
    at_turn i j same = subst (λ k. timeout ≼ (glances k).at_test ⊖ t0) (sym same)

    -- The wait that starts at turn `k` ends when the clock has passed the deadline at a later turn.
    pub wait_settled-Answers :
        (fuel k left : ℕ) (prev : Option F) (moved : Bool) (state : RobotState F)
        → left < fuel
        → timeout ≼ (glances (k + left)).at_test ⊖ t0
        → Hoare
            (λ r. Unit)
            (wait_settled fuel k prev moved state)
            (λ g r. Answers true g)
            (λ r. Unit)
    unfolding wait_settled
    wait_settled-Answers zero k left prev moved state enough late = absurd (omega arith)
    wait_settled-Answers (suc fuel) k zero prev moved state enough late =
        Hoare-if (n.lt ((glances k).at_test ⊖ t0) timeout) _ _
          (λ early. absurd (false≢true (sym (at_turn k (k + 0) (omega arith) late) ∙ early)))
          λ h. over state.gripper_width
    wait_settled-Answers (suc fuel) k (suc left) prev moved state enough late =
        Hoare-if (n.lt ((glances k).at_test ⊖ t0) timeout) _ _
          (λ early. Hoare-bind _ _ (anything (is_cancelled (glances k).requested)) λ c.
            Hoare-if c _ _ (λ h. over state.gripper_width)
              λ h. Hoare-bind _ _ (anything (get_state ops)) λ state'.
                let moved' = moved || has_moved initial state' in
                Hoare-if (is_settled (glances k) prev moved' state') _ _
                  (λ done. over state'.gripper_width)
                  λ more.
                    wait_settled-Answers fuel (k + 1) left (some state'.gripper_width) moved' state'
                      (omega arith) (at_turn (k + 1 + left) (k + suc left) (omega arith) late))
          λ h. over state.gripper_width

  -- `command_gripper(cmd, wait=..., timeout=...)`
  unfoldable pub command_gripper :
      {B : Type 0} (ops : Backend F B)
      → GripperCommand F
      → (wait : Bool) → (timeout t0 : F) → (ℕ → Glance F)
      → (fuel : ℕ) → Exec (Robot F B) (Grip F)
  unfolding ◌>>=◌ check_lease get_state on_backend wait_settled
  command_gripper ops cmd wait timeout t0 glances fuel = do
    check_lease
    first ← get_state ops
    on_backend (ops.move_gripper cmd)
    if not wait then return sent else (do
      state ← get_state ops
      wait_settled ops cmd timeout t0 glances first.gripper_width fuel 0 none false state)

  finish :
      {B : Type 0} (ops : Backend F B) (cmd : GripperCommand F) (wait : Bool) (timeout t0 : F)
      (glances : ℕ → Glance F) (fuel turns : ℕ) (initial : F)
      → turns < fuel
      → timeout ≼ (glances turns).at_test ⊖ t0
      → Hoare
          (λ r. Unit)
          (if not wait
            then return sent
            else (get_state ops >>= λ state.
                wait_settled ops cmd timeout t0 glances initial fuel 0 none false state))
          (λ g (r : Robot F B). Answers wait g)
          (λ r. Unit)
  finish ops cmd false timeout t0 glances fuel turns initial enough late =
      Hoare-return sent λ r i. tt
  finish ops cmd true timeout t0 glances fuel turns initial enough late =
      Hoare-bind _ _ (anything (get_state ops)) λ state.
        wait_settled-Answers ops cmd timeout t0 glances initial fuel 0 turns none false state enough
          (at_turn ops cmd timeout t0 glances initial (0 + turns) turns (omega arith) late)

  -- A call of `command_gripper` that raises nothing comes back with a width if it waits, and with
  -- nothing if it does not, as soon as at some turn the clock has passed the deadline: no fingers
  -- that keep moving hold it up. Fuel for one turn more is enough.
  pub command_gripper-Answers :
      {B : Type 0} (ops : Backend F B) (cmd : GripperCommand F) (wait : Bool) (timeout t0 : F)
      (glances : ℕ → Glance F) (fuel turns : ℕ) (r : Robot F B)
      → turns < fuel
      → timeout ≼ (glances turns).at_test ⊖ t0
      → Post
          (λ g r'. Answers wait g)
          (λ r'. Unit)
          (command_gripper ops cmd wait timeout t0 glances fuel r)
  unfolding command_gripper
  command_gripper-Answers ops cmd wait timeout t0 glances fuel turns r enough late =
      (Hoare-bind _ _ (anything check_lease) λ u. Hoare-bind _ _ (anything (get_state ops)) λ first.
          Hoare-bind _ _ (anything (on_backend (ops.move_gripper cmd))) λ u.
            finish ops cmd wait timeout t0 glances fuel turns first.gripper_width enough late).at
        r tt
