-- ===== src/Server/Session.antt =====
-- The session of an owner: its lease over a motion request, the stop, and the hand-over.
use package.flexiv_control.Server.{
  Server, on_lease, on_robot, require_lease, held, motion_lock, stop_loop, on_detached,
  stop_detached,
}
use package.flexiv_control.Server.Motion.{Reply, Motion, Scene, decoded, motion_body, handle_motion}
use package.flexiv_control.Server.Handlers.{handle_release_lease, handle_stop}
use flexiv_control.Common.{
  ℕ, ◌+◌, ◌≤◌, String, Bool, true, false, Option, none, some, ◌≡◌, ◌≢◌, ◌⊎◌, inl, inr, refl, ap,
  arith, str_eq, str_eq_iff, Bool-cases,
}
use flexiv_control.Common.Result.{Result, ok, err, lease_error}
use flexiv_control.Common.Exec.{◌>>=◌}
use flexiv_control.Number.{Number}
use flexiv_control.Types.{ControlMode}
use flexiv_control.Backend.{Backend}
use flexiv_control.Backend.Fake
use flexiv_control.Backend.Fake.{FakeBackend, fake_backend}
use flexiv_control.Robot.{Robot, request_stop}
use flexiv_control.Robot
use flexiv_control.Lease.{Lease, release, is_owned_by_other, hold_down}
use flexiv_control.Lease.Holder.{holder}
use flexiv_control.Lease.InFlight.{entered, Enters, entered-Enters, hold_down-holder}
use flexiv_control.Lease.Sections.{run, HeldThroughout, run-HeldThroughout}
use flexiv_control.ServoLoop.{ServoLoop}
use flexiv_control.ServoLoop

module _ {F : Type 0} ⦃n : Number F⦄ {B : Type 0} (ops : Backend F B) (o : String)
    (scene : Scene F) where
  open scene.times use {checked, beaten, entered as at_hold, left}

  -- The lease as the other threads find it during the motion.
  abbrev pub in_flight : Lease → Lease
  in_flight l = entered o checked beaten at_hold l

  -- The motion itself, on the robot with the owner's name.
  abbrev pub under_way : Motion F → Server F B → Result (Reply F) × Robot F B
  under_way m s = motion_body ops scene.world m (record s.robot { owner = some o })

  -- The request gets through to the robot, and the lease ends as the sections leave it.
  gets_through :
      (m : Motion F) (s : Server F B)
      → Enters o checked beaten at_hold s.lease
      → o ≢ ""
      → decoded m ≡ ok tt
      → s.servo ≡ none
      → handle_motion ops o scene m s ≡ (
        (under_way m s).0,
        record s {
          robot = (under_way m s).1;
          lease = hold_down o left (run (in_flight s.lease) scene.others);
          servo = none;
        },
      )
  unfolding handle_motion require_lease motion_lock held on_lease on_robot ◌>>=◌
  gets_through m s (passes, beats, enters, own) named good free =
      let unnamed : str_eq o "" ≡ false = ground (arith, str_eq_iff o "") in
      rw (passes, beats, free, good, unnamed, enters) refl

  -- For the holder of the lease with a name, with no servo loop and a chunk that was decoded, a motion
  -- request does to the robot exactly what the robot's method does, and answers with what it
  -- returned or raised. However long the motion lasted, as long as no other thread steals
  -- the lease by force or releases it in the owner's name, the owner holds it for a
  -- full term from the end of the motion.
  pub handle_motion-holder :
      (m : Motion F) (s : Server F B) (t : ℕ)
      → o ≢ ""
      → holder checked s.lease ≡ some o
      → at_hold ≤ beaten + s.lease.ttl
      → s.servo ≡ none
      → decoded m ≡ ok tt
      → HeldThroughout o (in_flight s.lease) scene.others
      → t ≤ left + (run (in_flight s.lease) scene.others).ttl
      → let (a, s') = handle_motion ops o scene m s in
        (a ≡ (under_way m s).0) × (s'.robot ≡ (under_way m s).1) × (holder t s'.lease ≡ some o)
  handle_motion-holder m s t named holds soon free good spared early =
      let enters = entered-Enters o checked beaten at_hold s.lease holds soon in
      rw (gets_through m s enters named good free) (
        refl,
        refl,
        hold_down-holder o left t (run (in_flight s.lease) scene.others)
            (run-HeldThroughout o (in_flight s.lease) scene.others spared enters.3) early,
      )

module _ {F : Type 0} ⦃n : Number F⦄ (now : F) where
  -- What a stop on the fake backend leaves: no servo loop, an idle backend and a stop that is pending.
  abbrev pub IsStopped : Server F (FakeBackend F) → Type 0
  IsStopped s =
      (s.servo ≡ none) × (s.robot.backend.mode ≡ ControlMode.idle) × (s.robot.cancel ≡ true)

  -- The loop is gone, and neither the lease nor the event of the robot has changed.
  abbrev Quits : Server F (FakeBackend F) → Result (Unit {0}) × Server F (FakeBackend F) → Type 0
  Quits s (a, s') =
      (a ≡ ok tt) × (s'.servo ≡ none) × (s'.robot.cancel ≡ s.robot.cancel) × (s'.lease ≡ s.lease)

  quits :
      (servo : Option (ServoLoop F (FakeBackend F))) (s : Server F (FakeBackend F))
      → Quits s (stop_detached (fake_backend now) servo (record s { servo = none }))
  unfolding on_detached ServoLoop.stop Fake.stop
  quits none s = (refl, refl, refl, refl)
  quits (some loop) s = (refl, refl, refl, refl)

  stop_loop-Quits : (s : Server F (FakeBackend F)) → Quits s (stop_loop (fake_backend now) s)
  unfolding stop_loop
  stop_loop-Quits s = quits s.servo s

  -- The stop request needs no lease. It always sets the event that ends a motion in flight, and leaves
  -- the lease alone. When it gets the robot's lock twice, no servo loop is left and the backend
  -- is idle; when a motion holds the lock, it changes nothing else.
  pub handle_stop_lem :
      (first_lock second_lock : Bool) (s : Server F (FakeBackend F))
      → let (a, s') = handle_stop (fake_backend now) first_lock second_lock s in
        (a ≡ ok Reply.stopped)
        × (s'.robot.cancel ≡ true)
        × (s'.lease ≡ s.lease)
        × (((first_lock ≡ false)
              × (s'.robot ≡ record s.robot { cancel = true })
              × (s'.servo ≡ s.servo))
            ⊎ ((first_lock ≡ true) × (s'.servo ≡ none) × ((second_lock ≡ false) ⊎ IsStopped s')))
  unfolding handle_stop on_robot request_stop Robot.stop Fake.stop ◌>>=◌
  handle_stop_lem false second_lock s = (refl, refl, refl, inl (refl, refl, refl))
  handle_stop_lem true false s =
      let (done, gone, set, kept) =
        stop_loop-Quits (record s { robot = record s.robot { cancel = true } }) in
      rw done (refl, refl, kept, inr (refl, gone, inl refl))
  handle_stop_lem true true s =
      let (done, gone, set, kept) =
        stop_loop-Quits (record s { robot = record s.robot { cancel = true } }) in
      rw done (refl, refl, kept, inr (refl, gone, inr (gone, refl, refl)))

  -- A release by the recorded owner, or of a lease that nobody has, ends the lease and the servo loop
  -- and stops the robot. A release by another changes nothing.
  pub handle_release_lease_lem :
      (o : String) (s : Server F (FakeBackend F))
      → let (a, s') = handle_release_lease (fake_backend now) o s in
        ((is_owned_by_other o s.lease.info ≡ true) × (a ≡ err lease_error) × (s' ≡ s))
        ⊎ ((is_owned_by_other o s.lease.info ≡ false)
            × (a ≡ ok Reply.released)
            × (s'.lease.info ≡ none)
            × IsStopped s')
  unfolding handle_release_lease on_lease on_robot release Robot.stop Fake.stop ◌>>=◌
  handle_release_lease_lem o s = elim (Bool-cases (is_owned_by_other o s.lease.info)) [
    | inl foreign ↦ rw foreign (inl (refl, refl, refl))
    | inr own ↦
        (let (done, gone, set, kept) =
            stop_loop-Quits (record s { lease = record s.lease { info = none } }) in
          rw (own, done) (inr (refl, refl, ap (λ (l : Lease). l.info) kept, (gone, refl, refl))))
  ]
