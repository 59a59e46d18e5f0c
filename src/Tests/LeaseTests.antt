-- ===== src/Tests/LeaseTests.antt =====
-- The lease and the host lock.
use flexiv_control.Common.{
  ℕ, ◌≡◌, ◌⊎◌, inr, refl, Bool, true, false, none, some, [], ◌∷◌, arith, false≢true, str_eq_iff,
}
use flexiv_control.Common.Result.{ok, err, host_lock_error}
use flexiv_control.Lease.{
  Lease, expire_if_stale, acquire_locked, hold_up, hold_down, is_owned_by, acquire,
}
use flexiv_control.Lease.Holder.{Acquires, Lapsed, acquire_lem, silent_owner_expires}
use flexiv_control.Lease.Sections.{
  expires, acquires, holds_up, holds_down, step, run, run-HeldThroughout,
}
use flexiv_control.HostLock.{
  HostLock, is_locked_by_other, live_other_holder, acquire as acquire_file, release as release_file,
}
use flexiv_control.HostLock.Races.{Race, play, in_turn, mixed, acquire_excludes, race_grants_both}

-- The lease of "teleop" until time 10, with no request in flight, and with one.
abbrev idle_lease : Lease
idle_lease = record {
  ttl = 5;
  info = some (record { owner = "teleop"; acquired_at = 5; expires_at = 10 });
  holds = 0;
}

abbrev busy_lease : Lease
busy_lease = record idle_lease { holds = 1 }

-- After the term of "teleop".
acquire_lem_example :
    Acquires "policy" false 12 15 idle_lease (acquire "policy" false 12 13 idle_lease)
acquire_lem_example =
    acquire_lem "policy" false 12 13 15 idle_lease (λ e. false≢true ((str_eq_iff "policy" "").1 e))
      (omega arith) (omega arith)

silent_owner_expires_example :
    Lapsed "policy" "planner" 19 20 (acquire "policy" false 12 13 idle_lease).1
unfolding acquire
silent_owner_expires_example =
    silent_owner_expires "policy" "planner" false 12 13 19 20 idle_lease refl refl (omega arith)
      (λ e. false≢true ((str_eq_iff "planner" "").1 e))

-- While "teleop" works: the expiry, another client's attempt, a second request that ends, all after
-- the term.
run-HeldThroughout_example :
    is_owned_by "teleop"
      (run busy_lease (
        expires 20
        ∷ acquires "policy" false 21
        ∷ holds_up
        ∷ holds_down "teleop" 22
        ∷ expires 90
        ∷ [])).info
    ≡ true
unfolding step expire_if_stale acquire_locked hold_up hold_down
run-HeldThroughout_example =
    run-HeldThroughout "teleop" busy_lease
      (expires 20
        ∷ acquires "policy" false 21
        ∷ holds_up
        ∷ holds_down "teleop" 22
        ∷ expires 90
        ∷ [])
      ((
        omega arith,
        tt,
        (omega arith, inr refl, (omega arith, tt, (omega arith, tt, (omega arith, tt, tt)))),
      ))
      refl

abbrev everyone : ℕ → Bool
everyone pid = true

abbrev process : ℕ → HostLock
process k = record { pid = k; owner = "server"; held = false }

acquire_excludes_example :
    let (_, h, written) = acquire_file everyone none false (process 7) none in
    ((acquire_file everyone none false (process 9) written).0 ≡ err host_lock_error)
    × ((everyone 7 ≡ false) ⊎ ((acquire_file everyone none false (process 9) written).2 ≡ written))
    × ((acquire_file everyone none true (process 9) written).0 ≡ ok tt)
    × ((acquire_file everyone none false (process 9) (release_file h written).1).0 ≡ ok tt)
unfolding acquire_file
acquire_excludes_example =
    acquire_excludes everyone everyone none none (process 7) (process 9) none (omega arith)
      (omega arith) refl

-- Two processes at a host that no process holds.
abbrev two_free : Race
two_free = record {
  file = none;
  one = process 7;
  two = process 9;
  one_passed = false;
  two_passed = false;
}

race_grants_both_example :
    let after = play everyone in_turn two_free in
    let raced = play everyone mixed two_free in
    ((after.one.held ≡ true)
      × (after.two.held ≡ false)
      × (after.file ≡ some (record { pid = 7; owner = two_free.one.owner })))
    × ((raced.one.held ≡ true)
        × (raced.two.held ≡ true)
        × (raced.file ≡ some (record { pid = 9; owner = two_free.two.owner }))
        × (is_locked_by_other everyone raced.one raced.file ≡ true))
unfolding is_locked_by_other live_other_holder
race_grants_both_example =
    race_grants_both everyone two_free (omega arith) (omega arith) (omega arith) refl refl refl refl
      refl refl
