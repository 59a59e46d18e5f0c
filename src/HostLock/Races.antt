-- ===== src/HostLock/Races.antt =====
-- What the lock file grants, to processes that take it in turn and to processes that race for it.
use flexiv_control.Common.{
  ℕ, ◌<◌, ◌≡◌, ◌≢◌, ◌⊎◌, String, Bool, true, false, Option, none, some, arith, if◌then◌else◌, List,
  [], ◌∷◌, refl,
}
use flexiv_control.Common.Result.{ok, err, host_lock_error}
use flexiv_control.Lease.Holder.{is_ok}
use package.flexiv_control.HostLock.{
  pid_alive, live_other_holder, LockFile, HostLock, is_locked_by_other, probe, commit, acquire,
  release,
}

-- A process that takes the lock while no other live process holds it keeps every second process
-- out, which then writes nothing, for as long as it lives and has not released: a second process
-- gets in by force, after the release, and after the death of the first.
pub acquire_excludes :
    (alive late : ℕ → Bool) (o p : Option String) (first second : HostLock) (file : Option LockFile)
    → 0 < first.pid
    → first.pid ≢ second.pid
    → (acquire alive o false first file).0 ≡ ok tt
    → let (_, h, written) = acquire alive o false first file in
      ((acquire late p false second written).0
        ≡ (if late first.pid then err host_lock_error else ok tt))
      × ((late first.pid ≡ false) ⊎ ((acquire late p false second written).2 ≡ written))
      × ((acquire late p true second written).0 ≡ ok tt)
      × ((acquire late p false second (release h written).1).0 ≡ ok tt)
unfolding acquire release
acquire_excludes alive late o p first second none pos ne h = ground arith
acquire_excludes alive late o p first second (some f) pos ne h = ground arith

-- A release removes the process's own file only, so that it does not undo a steal by force.
pub release_spares_thief :
    (alive : ℕ → Bool) (o p : Option String) (victim thief : HostLock) (file : Option LockFile)
    → victim.pid ≢ thief.pid
    → let (_, h, _) = acquire alive o true victim file in
      let (_, _, stolen) = acquire alive p true thief (acquire alive o true victim file).2 in
      (release h stolen).1 ≡ stolen
unfolding acquire release
release_spares_thief alive o p victim thief file ne = ground arith

-- Two processes on one file, and whether each has passed the test of an `acquire` that it has not
-- finished.
pub record Race : Type 0 where
  pub file : Option LockFile
  pub one : HostLock
  pub two : HostLock
  pub one_passed : Bool
  pub two_passed : Bool

-- The two parts of an `acquire` without force; a process whose test raised writes nothing.
pub data Move : Type 0 where
  one_tests one_writes two_tests two_writes : Move

pub step : (ℕ → Bool) → Move → Race → Race
unfolding probe commit
step alive one_tests r = record r { one_passed = is_ok (probe alive none false r.one r.file) }
step alive two_tests r = record r { two_passed = is_ok (probe alive none false r.two r.file) }
step alive one_writes r =
    let (h, file) = commit none r.one in
    if r.one_passed then record r { one = h; file = file; one_passed = false } else r
step alive two_writes r =
    let (h, file) = commit none r.two in
    if r.two_passed then record r { two = h; file = file; two_passed = false } else r

unfoldable pub play : (ℕ → Bool) → List Move → Race → Race
unfolding step
play alive [] r = r
play alive (m ∷ ms) r = play alive ms (step alive m r)

-- Each takes the lock in turn, and both test before either writes.
abbrev pub in_turn : List Move
in_turn = one_tests ∷ one_writes ∷ two_tests ∷ two_writes ∷ []

abbrev pub mixed : List Move
mixed = one_tests ∷ two_tests ∷ one_writes ∷ two_writes ∷ []

-- The test and the write are two steps, and the order of the steps decides. From a file that no
-- other process than these holds, for two processes that are alive and hold nothing: if they acquire
-- the lock one after the other, the second is refused and the file names the first; if both test
-- before either writes, both hold the lock, the file names the second, and the first, by its own
-- test, is locked out of what it holds.
pub race_grants_both :
    (alive : ℕ → Bool) (r : Race)
    → 0 < r.one.pid
    → 0 < r.two.pid
    → r.one.pid ≢ r.two.pid
    → alive r.one.pid ≡ true
    → alive r.two.pid ≡ true
    → r.one.held ≡ false
    → r.two.held ≡ false
    → is_locked_by_other alive r.one r.file ≡ false
    → is_locked_by_other alive r.two r.file ≡ false
    → let after = play alive in_turn r in
      let raced = play alive mixed r in
      ((after.one.held ≡ true)
        × (after.two.held ≡ false)
        × (after.file ≡ some (record { pid = r.one.pid; owner = r.one.owner })))
      × ((raced.one.held ≡ true)
          × (raced.two.held ≡ true)
          × (raced.file ≡ some (record { pid = r.two.pid; owner = r.two.owner }))
          × (is_locked_by_other alive raced.one raced.file ≡ true))
unfolding play probe commit is_locked_by_other live_other_holder pid_alive
race_grants_both alive r one_pos two_pos ne up up' free free' h k = by_file r.file refl
  where
    by_file :
        (file : Option LockFile)
        → r.file ≡ file
        → let after = play alive in_turn r in
          let raced = play alive mixed r in
          ((after.one.held ≡ true)
            × (after.two.held ≡ false)
            × (after.file ≡ some (record { pid = r.one.pid; owner = r.one.owner })))
          × ((raced.one.held ≡ true)
              × (raced.two.held ≡ true)
              × (raced.file ≡ some (record { pid = r.two.pid; owner = r.two.owner }))
              × (is_locked_by_other alive raced.one raced.file ≡ true))
    by_file none e = ground arith
    by_file (some f) e = ground arith
