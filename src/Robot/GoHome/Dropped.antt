-- ===== src/Robot/GoHome/Dropped.antt =====
-- A stop that is pending when `go_home_safe` is called.
use mathlib.Core.Option.{none-ne-some}
use package.flexiv_control.Robot.{Robot, on_backend, check_lease, take_cancel, get_state}
use package.flexiv_control.Robot.Cartesian.Method.{
  aborted_at_entry, execute_cartesian_chunk, raised_if,
}
use package.flexiv_control.Robot.Gripper.{Grip, is_cancelled}
use package.flexiv_control.Robot.Moves.{default_chunk, move_joint}
use package.flexiv_control.Robot.GoHome.{
  World, HomeResult, is_snagged, give_up, lift_up, or_configured, open_attempted, attempted,
  go_home_safe,
}
use flexiv_control.Common.{
  sym, Bool, true, false, none, some, Option, List, ◌≡◌, refl, get_or_else, arith, ◌||◌,
  if◌then◌else◌, ℕ,
}
use flexiv_control.Common.Result.{Result, ok, err}
use flexiv_control.Common.Exec.{Exec, return, Hoare-return, ◌>>=◌, Post, Hoare, Hoare-bind}
use flexiv_control.Number.{Number}
use flexiv_control.Types.{StopReason}
use flexiv_control.ActionChunk.{make_waypoint, make_chunk}
use flexiv_control.Backend.Fake.{FakeBackend, fake_backend, read_state}
use flexiv_control.Robot.Report.{ExecutionResult}

module _ {F : Type 0} ⦃n : Number F⦄ (now lift_m max_tcp_speed : F) where
  -- The lift only reads the robot, consumes the stop and reports it.
  abbrev pub SaysStopped : Result (ExecutionResult F) → Type 0
  SaysStopped (ok res) = (res.success ≡ false) × (res.stop_reason ≡ StopReason.user)
  SaysStopped (err e) = ⊥

  lift_up-cancelled :
      (requests : ℕ → Bool) (r : Robot F (FakeBackend F))
      → r.cancel ≡ true
      → let (res, r') = lift_up (fake_backend now) lift_m max_tcp_speed requests r in
        SaysStopped res × (r'.cancel ≡ false) × (r'.backend ≡ r.backend)
  unfolding lift_up execute_cartesian_chunk check_lease take_cancel aborted_at_entry raised_if
      get_state read_state ◌>>=◌ on_backend make_waypoint default_chunk make_chunk
  lift_up-cancelled requests r h = ground (arith, h)

  -- A stop was reported, and none is pending.
  abbrev Consumed : Result (ExecutionResult F) → Robot F (FakeBackend F) → Type 0
  Consumed lift r = SaysStopped lift × (r.cancel ≡ false)

  -- Before the lift: a stop is pending, and `r0` has no width to open to.
  abbrev Pending : Robot F (FakeBackend F) → Type 0
  Pending r = r.cancel ≡ true

  lift_up-Consumed :
      (requests : ℕ → Bool)
      → Hoare Pending
          (attempted (fake_backend now) (lift_up (fake_backend now) lift_m max_tcp_speed requests))
          Consumed
          (λ r. Unit)
  lift_up-Consumed requests = record {
    at = λ r up. let (said, free, same) = lift_up-cancelled requests r up in (said, free);
  }

  is_cancelled-quiet :
      (requested : Bool)
      → requested ≡ false
      → (lift : Result (ExecutionResult F))
      → Hoare
          (Consumed lift)
          (is_cancelled requested)
          (λ c r. (c ≡ false) × SaysStopped lift)
          (λ r. Unit)
  unfolding is_cancelled
  is_cancelled-quiet requested quiet lift = record {
    at = λ r (said, free). (rw (free, quiet) refl, said);
  }

  not_snagged : (lift : Result (ExecutionResult F)) → SaysStopped lift → is_snagged lift ≡ false
  unfolding is_snagged
  not_snagged (ok res) (failed, reason) = rw reason refl
  not_snagged (err e) h = absurd h

  module _ (q_home : Option (List F)) (max_joint_speed : F) (w : World F)
      (r0 : Robot F (FakeBackend F)) where
    -- What follows the test of the event, and what follows the check of the lease.
    abbrev ending :
        Result (ExecutionResult F)
        → Option (Result (Grip F))
        → Bool
        → Exec (Robot F (FakeBackend F)) (HomeResult F)
    ending lift gripper cancelled =
        let skipped = is_snagged lift || cancelled in
        (if skipped
          then give_up (fake_backend now) cancelled
          else move_joint (fake_backend now) (get_or_else r0.q_home q_home) none
              (some max_joint_speed) false w.moving)
        >>= λ res.
            return (record { result = res; lift = lift; gripper = gripper; skipped = skipped })

    -- `width` is the configured one.
    abbrev stages : Option F → Exec (Robot F (FakeBackend F)) (HomeResult F)
    stages width =
        attempted (fake_backend now) (lift_up (fake_backend now) lift_m max_tcp_speed w.lifting)
        >>= λ lift. open_attempted (fake_backend now) (or_configured none width) w.waiting >>= λ g.
            is_cancelled w.requested >>= λ c. ending lift g c

    abbrev GoesHome : HomeResult F → Robot F (FakeBackend F) → Type 0
    GoesHome h r = (h.skipped ≡ false) × SaysStopped h.lift

    ending-GoesHome :
        (lift : Result (ExecutionResult F)) (g : Option (Result (Grip F))) (cancelled : Bool)
        → Hoare
            (λ r. (cancelled ≡ false) × SaysStopped lift)
            (ending lift g cancelled)
            GoesHome
            (λ r. Unit)
    ending-GoesHome lift g cancelled =
        Hoare-bind {Q = λ a r. (cancelled ≡ false) × SaysStopped lift} _ _
          (record { at = λ r facts. kept facts _ })
          λ res. record { at = λ r (free, said). (rw (free, not_snagged lift said) refl, said) }
      where
        kept :
            (cancelled ≡ false) × SaysStopped lift
            → (o : Result (ExecutionResult F) × Robot F (FakeBackend F))
            → Post (λ a r. (cancelled ≡ false) × SaysStopped lift) (λ r. Unit) o
        kept facts (ok a, r) = facts
        kept facts (err e, r) = tt

    stages-GoesHome :
        (width : Option F)
        → width ≡ none
        → w.requested ≡ false
        → Hoare Pending (stages width) GoesHome (λ r. Unit)
    unfolding open_attempted
    stages-GoesHome (some x) narrow quiet = absurd (none-ne-some x (sym narrow))
    stages-GoesHome none narrow quiet = Hoare-bind _ _ (lift_up-Consumed w.lifting) λ lift.
        Hoare-bind (return none) _ (Hoare-return none λ r i. i) λ g.
          Hoare-bind _ _ (is_cancelled-quiet w.requested quiet lift) λ c. ending-GoesHome lift g c

  -- On the fake backend, with no gripper width to open to: a stop that is pending when
  -- `go_home_safe` is called stops nothing but the lift, which consumes it. When no other
  -- thread requests a further stop, the joint move home is made all the same.
  pub go_home_safe-drops_stop :
      (q_home : Option (List F)) (max_joint_speed : F) (w : World F) (r : Robot F (FakeBackend F))
      → r.cancel ≡ true
      → r.gripper_home_width ≡ none
      → w.requested ≡ false
      → Post
          (λ h r'. (h.skipped ≡ false) × SaysStopped h.lift)
          (λ r'. Unit)
          (go_home_safe (fake_backend now) q_home lift_m none max_tcp_speed max_joint_speed w r)
  unfolding go_home_safe check_lease ◌>>=◌
  go_home_safe-drops_stop q_home max_joint_speed w r pending narrow quiet =
      (stages-GoesHome q_home max_joint_speed w r r.gripper_home_width narrow quiet).at
        (record r { owner = some (get_or_else "default" r.owner) }) pending
