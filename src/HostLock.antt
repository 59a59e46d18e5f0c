-- ===== src/HostLock.antt =====
-- src/flexiv_control/server/host_lock.py: the lock file by which the processes of a host take turns.
-- Which processes are alive is asked of the operating system: a parameter.
pub mod Races
use flexiv_control.Common.{
  ℕ, String, Bool, true, false, not, ◌&&◌, Option, none, some, ◌==◌, is_some, get_or_else,
  if◌then◌else◌,
}
use flexiv_control.Common.Result.{Result, ok, err, host_lock_error}

-- What the file holds. A pid that is missing or not positive is 0; a file that is not there or
-- cannot be read is `none`. The time stamp is never read back.
pub record LockFile : Type 0 where
  pub pid : ℕ
  pub owner : String

-- The object of one process, with `os.getpid()`.
pub record HostLock : Type 0 where
  pub pid : ℕ
  pub owner : String
  pub held : Bool

pub pid_alive : (ℕ → Bool) → ℕ → Bool
pid_alive alive pid = if pid == 0 then false else alive pid

abbrev pub live_other : (ℕ → Bool) → ℕ → Option LockFile → Option LockFile
live_other alive me none = none
live_other alive me (some f) =
    if f.pid == me then none else if pid_alive alive f.pid then some f else none

unfoldable pub live_other_holder : (ℕ → Bool) → HostLock → Option LockFile → Option LockFile
unfolding pid_alive
live_other_holder alive h file = live_other alive h.pid file

unfoldable pub is_locked_by_other : (ℕ → Bool) → HostLock → Option LockFile → Bool
unfolding live_other_holder
is_locked_by_other alive h file = is_some (live_other_holder alive h file)

abbrev named : Option String → HostLock → HostLock
named o h = record h { owner = get_or_else h.owner o }

-- The part of `acquire` up to its test of the file.
unfoldable pub probe :
    (ℕ → Bool) → Option String → Bool → HostLock → Option LockFile → Result (Unit {0})
unfolding is_locked_by_other
probe alive o force h file =
    if is_locked_by_other alive (named o h) file && not force then err host_lock_error else ok tt

-- The part of `acquire` that writes the file.
unfoldable pub commit : Option String → HostLock → HostLock × Option LockFile
commit o h = (
  record (named o h) { held = true },
  some (record { pid = h.pid; owner = get_or_else h.owner o }),
)

unfoldable pub acquire :
    (ℕ → Bool)
    → Option String
    → Bool
    → HostLock
    → Option LockFile
    → Result (Unit {0}) × HostLock × Option LockFile
unfolding probe commit
acquire alive o force h file = elim (probe alive o force h file) [
  | ok _ ↦ (let (h', file') = commit o h in (ok tt, h', file'))
  | err e ↦ (err e, named o h, file)
]

abbrev is_mine : ℕ → Option LockFile → Bool
is_mine me none = false
is_mine me (some f) = f.pid == me

unfoldable pub release : HostLock → Option LockFile → HostLock × Option LockFile
release h file =
    if h.held
    then (record h { held = false }, if is_mine h.pid file then none else file)
    else (h, file)
