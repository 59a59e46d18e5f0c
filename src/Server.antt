-- ===== src/Server.antt =====
-- src/flexiv_control/server/server.py: the server's object, the lease at its entry, the lock of a
-- motion request and the running of the servo loop. Handlers that hold the robot's lock run one
-- after another; what other threads do to the lease meanwhile is an argument, and so are the
-- readings of the clock.
pub mod Motion
pub mod Handlers
pub mod Dispatch
pub mod Writer
pub mod Session
pub mod Handover
pub mod Fresh
use flexiv_control.Common.{
  ℕ, String, Bool, true, false, not, ◌||◌, Option, none, some, List, str_eq, if◌then◌else◌,
}
use flexiv_control.Common.Result.{Result, ok, err, servo_loop_active}
use flexiv_control.Common.Exec.{Exec, return, raise, attempt, gets, modify, ◌>>=◌, ◌>>◌}
use flexiv_control.Number.{Number, zero_num}
use flexiv_control.Types.{SafetyStatus, StopReason}
use flexiv_control.Backend.{Backend}
use flexiv_control.Robot.{Robot}
use flexiv_control.Lease.{Lease, check, heartbeat, hold_enter, hold_down}
use flexiv_control.Lease.Sections.{Section, run}
use flexiv_control.ServoLoop.{ServoLoop, stop}

-- The object, without the sockets and the host's lock. A servo loop shares the robot: the field
-- `robot` here is the one that counts, and a loop's copy is renewed before the loop runs.
pub record Server (F B : Type 0) : Type 0 where
  pub robot : Robot F B
  pub lease : Lease
  pub servo : Option (ServoLoop F B)

-- The readings of the clock: by the lease's `owner`, by `check`, by `heartbeat`, at the entry to
-- `hold` and when it leaves, and by the two sections of `acquire`.
pub record Times : Type 0 where
  pub owned : ℕ
  pub checked : ℕ
  pub beaten : ℕ
  pub entered : ℕ
  pub left : ℕ
  pub expired : ℕ
  pub granted : ℕ

module _ {F B : Type 0} where
  unfoldable pub on_robot : {A : Type 0} → Exec (Robot F B) A → Exec (Server F B) A
  on_robot m s = let (a, r) = m s.robot in (a, record s { robot = r })

  unfoldable pub on_lease : {A : Type 0} → Exec Lease A → Exec (Server F B) A
  on_lease m s = let (a, l) = m s.lease in (a, record s { lease = l })

  -- A method of a loop that the server no longer holds.
  unfoldable pub on_detached :
      {A : Type 0} → ServoLoop F B → Exec (ServoLoop F B) A → Exec (Server F B) A
  on_detached loop m s =
      let (a, l) = m (record loop { robot = s.robot }) in (a, record s { robot = l.robot })

  -- A method of the loop that the server holds.
  unfoldable pub on_loop :
      {A : Type 0} → ServoLoop F B → Exec (ServoLoop F B) A → Exec (Server F B) A
  on_loop loop m s =
      let (a, l) = m (record loop { robot = s.robot }) in
      (a, record s { robot = l.robot; servo = some l })

  -- `_require_lease`
  unfoldable pub require_lease : String → Times → Exec (Server F B) String
  unfolding ◌>>=◌ on_lease check heartbeat
  require_lease owner t = do
    on_lease (check owner t.checked)
    on_lease (heartbeat owner t.beaten)
    modify (λ s. record s { robot = record s.robot { owner = some owner } })
    return owner

  -- The body of `with self.lease.hold(owner)`, the sections of other threads, and the way out.
  unfoldable pub held :
      {A : Type 0} → String → Times → List Section → Exec (Robot F B) A → Exec (Server F B) A
  unfolding ◌>>=◌ on_lease on_robot hold_enter run hold_down
  held owner t others body = do
    on_lease (hold_enter owner t.entered)
    λ s.
        let (a, s') = on_robot body s in
        (a, record s' { lease = hold_down owner t.left (run s'.lease others) })

  -- `_motion_lock` around a body.
  unfoldable pub motion_lock :
      {A : Type 0} → String → Times → List Section → Exec (Robot F B) A → Exec (Server F B) A
  unfolding held on_robot
  motion_lock owner t others body s = elim s.servo [
    | some loop ↦ (err servo_loop_active, s)
    | none ↦ if str_eq owner "" then on_robot body s else held owner t others body s
  ]

  module _ ⦃n : Number F⦄ (ops : Backend F B) where
    abbrev pub stop_detached : Option (ServoLoop F B) → Exec (Server F B) (Unit {0})
    stop_detached none = return tt
    stop_detached (some loop) = on_detached loop (stop ops)

    -- The loop is taken out of the server and stopped.
    unfoldable pub stop_loop : Exec (Server F B) (Unit {0})
    unfolding ◌>>=◌ on_detached stop
    stop_loop s = stop_detached s.servo (record s { servo = none })
