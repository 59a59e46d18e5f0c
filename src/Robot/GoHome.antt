-- ===== src/Robot/GoHome.antt =====
-- `Robot.go_home_safe`: the lift, the opening of the gripper and the joint move home.
pub mod Dropped
use package.flexiv_control.Robot.{Robot, check_lease, get_state}
use package.flexiv_control.Robot.Cartesian.Method.{execute_cartesian_chunk}
use package.flexiv_control.Robot.Gripper.{Grip, is_cancelled}
use package.flexiv_control.Robot.Moves.{Waiting, timed, default_chunk, open_gripper, move_joint}
use flexiv_control.Common.{
  ℕ, Bool, true, false, ◌||◌, Option, none, some, List, get_or_else, if◌then◌else◌,
}
use flexiv_control.Common.Result.{Result, ok, err}
use flexiv_control.Common.Exec.{Exec, return, attempt, gets, ◌>>=◌, ◌>>◌}
use flexiv_control.Number.{Number, ◌⊕◌, ◌⊘◌, num_min, num_max}
use flexiv_control.Types.{StopReason}
use flexiv_control.ActionChunk.{make_waypoint, make_chunk}
use flexiv_control.Backend.{Backend}
use flexiv_control.Robot.Report.{ExecutionResult, result_of}

-- What the world does meanwhile: the stop requests before each tick of the lift and of the move, the
-- wait for the fingers, and a stop request before the event is tested.
pub record World (F : Type 0) : Type 0 where
  pub lifting : ℕ → Bool
  pub waiting : Waiting F
  pub requested : Bool
  pub moving : ℕ → Bool

-- The result with the entries of its log: the lift, the opening if one was tried, and whether the
-- move home was skipped.
pub record HomeResult (F : Type 0) : Type 0 where
  pub result : ExecutionResult F
  pub lift : Result (ExecutionResult F)
  pub gripper : Option (Result (Grip F))
  pub skipped : Bool

-- The reasons that count as a snag.
abbrev pub is_contact : StopReason → Bool
is_contact StopReason.contact_wrench = true
is_contact StopReason.backend_fault = true
is_contact _ = false

abbrev pub or_configured : {F : Type 0} → Option F → Option F → Option F
or_configured none configured = configured
or_configured (some width) configured = some width

module _ {F : Type 0} ⦃n : Number F⦄ where
  unfoldable pub is_snagged : Result (ExecutionResult F) → Bool
  is_snagged (ok res) = is_contact res.stop_reason
  is_snagged (err e) = false

  module _ {B : Type 0} (ops : Backend F B) where
    -- `try: body except Exception`, with what came of it.
    abbrev pub attempted : {A : Type 0} → Exec (Robot F B) A → Exec (Robot F B) (Result A)
    attempted body r = let (a, r') = body r in (ok a, r')

    unfoldable pub lift_up :
        (lift_m max_tcp_speed : F) → (ℕ → Bool) → Exec (Robot F B) (ExecutionResult F)
    unfolding ◌>>=◌ get_state make_waypoint default_chunk make_chunk execute_cartesian_chunk
    lift_up lift_m max_tcp_speed requests = do
      s ← get_state ops
      r ← gets (λ r. r)
      let p = s.tcp_pose.position
      let target = record p { z = num_min (p.z ⊕ lift_m) r.profile.ws_z.high }
      let duration = num_max (n.lit 15 1) (lift_m ⊘ num_max max_tcp_speed (n.lit 1 3))
      wp ← attempt (make_waypoint (timed target none none duration "base"))
      let whole = default_chunk r.default_impedance wp
      chunk ← attempt (make_chunk (record whole { max_tcp_linear_speed = max_tcp_speed }))
      execute_cartesian_chunk ops chunk false false requests

    unfoldable pub open_attempted :
        Option F → Waiting F → Exec (Robot F B) (Option (Result (Grip F)))
    unfolding ◌>>=◌ open_gripper
    open_attempted none w = return none
    open_attempted (some width) w = attempted (open_gripper ops width w) >>= λ g. return (some g)

    unfoldable pub give_up : (cancelled : Bool) → Exec (Robot F B) (ExecutionResult F)
    unfolding ◌>>=◌ get_state
    give_up cancelled = do
      state ← get_state ops
      let res = result_of false (if cancelled then StopReason.user else StopReason.contact_wrench)
      return (record res { final_state = some state })

    unfoldable pub go_home_safe :
        Option (List F)
        → (lift_m : F) → (open_gripper_width : Option F) → (max_tcp_speed max_joint_speed : F)
        → World F
        → Exec (Robot F B) (HomeResult F)
    go_home_safe q_home lift_m open_gripper_width max_tcp_speed max_joint_speed w = do
      check_lease
      r ← gets (λ r. r)
      lift ← attempted (lift_up lift_m max_tcp_speed w.lifting)
      gripper ← open_attempted (or_configured open_gripper_width r.gripper_home_width) w.waiting
      cancelled ← is_cancelled w.requested
      let skipped = is_snagged lift || cancelled
      res ←
          (if skipped
            then give_up cancelled
            else move_joint ops (get_or_else r.q_home q_home) none (some max_joint_speed) false
                w.moving)
      return (record { result = res; lift = lift; gripper = gripper; skipped = skipped })
