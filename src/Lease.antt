-- ===== src/Lease.antt =====
-- src/flexiv_control/server/lease.py: the lease of the robot, one per server. Time is a count of
-- clock units; each reading of `time.time()` is an argument, in the order of the readings. A lock
-- guards each of the sections `expire_if_stale`, `acquire_locked`, `check_locked`, `hold_up` and
-- `hold_down`, and the whole of `heartbeat` and `release`.
pub mod Holder
pub mod Sections
pub mod InFlight
use flexiv_control.Common.{
  ℕ, ◌+◌, ◌-◌, String, Bool, true, false, not, ◌&&◌, ◌||◌, Option, none, some, ltb, str_eq,
  if◌then◌else◌,
}
use flexiv_control.Common.Result.{Result, ok, err, lease_error}

pub record LeaseInfo : Type 0 where
  pub owner : String
  pub acquired_at : ℕ
  pub expires_at : ℕ

pub record Lease : Type 0 where
  pub ttl : ℕ
  pub info : Option LeaseInfo
  pub holds : ℕ

unfoldable pub init : ℕ → Lease
init ttl = record { ttl = ttl; info = none; holds = 0 }

abbrev pub is_stale : ℕ → Option LeaseInfo → Bool
is_stale now none = false
is_stale now (some i) = ltb i.expires_at now

-- `self._info and self._info.owner == owner`
abbrev pub is_owned_by : String → Option LeaseInfo → Bool
is_owned_by o none = false
is_owned_by o (some i) = str_eq i.owner o

-- `self._info and self._info.owner != owner`
abbrev pub is_owned_by_other : String → Option LeaseInfo → Bool
is_owned_by_other o none = false
is_owned_by_other o (some i) = not (str_eq i.owner o)

unfoldable pub expire_if_stale : ℕ → Lease → Lease
expire_if_stale now l =
    if ltb 0 l.holds then l else if is_stale now l.info then record l { info = none } else l

abbrev owner_of : Option LeaseInfo → String
owner_of none = ""
owner_of (some i) = i.owner

unfoldable pub owner : ℕ → Lease → String × Lease
unfolding expire_if_stale
owner now l = let l' = expire_if_stale now l in (owner_of l'.info, l')

unfoldable pub info : ℕ → Lease → Option LeaseInfo × Lease
unfolding expire_if_stale
info now l = let l' = expire_if_stale now l in (l'.info, l')

unfoldable pub check_locked : String → Lease → Result (Unit {0})
check_locked o l = if is_owned_by o l.info then ok tt else err lease_error

unfoldable pub check : String → ℕ → Lease → Result (Unit {0}) × Lease
unfolding expire_if_stale check_locked
check o now l = let l' = expire_if_stale now l in (check_locked o l', l')

-- The expiry of the lease of `o`, moved to a full term from `now`.
abbrev refresh : String → ℕ → Lease → Lease
refresh o now l = elim l.info [
  | none ↦ l
  | some i ↦
      if str_eq i.owner o
      then record l { info = some (record i { expires_at = now + l.ttl }) }
      else l
]

unfoldable pub hold_up : Lease → Lease
hold_up l = record l { holds = l.holds + 1 }

-- The `finally` of `hold`; it runs after a `hold_up` only.
unfoldable pub hold_down : String → ℕ → Lease → Lease
hold_down o now l = refresh o now (record l { holds = l.holds - 1 })

-- What `hold` does before its body runs.
unfoldable pub hold_enter : String → ℕ → Lease → Result (Unit {0}) × Lease
unfolding check hold_up
hold_enter o now l =
    let (r, l') = check o now l in elim r [ ok _ ↦ (ok tt, hold_up l') | err e ↦ (err e, l') ]

unfoldable pub acquire_locked : String → Bool → ℕ → Lease → Result LeaseInfo × Lease
acquire_locked o force now l =
    if is_owned_by_other o l.info && not force
    then (err lease_error, l)
    else (let i : LeaseInfo = record { owner = o; acquired_at = now; expires_at = now + l.ttl } in
        (ok i, record l { info = some i }))

unfoldable pub acquire : String → Bool → ℕ → ℕ → Lease → Result LeaseInfo × Lease
unfolding expire_if_stale acquire_locked
acquire o force now later l =
    if str_eq o ""
    then (err lease_error, l)
    else acquire_locked o force later (expire_if_stale now l)

unfoldable pub heartbeat : String → ℕ → Lease → Result (Unit {0}) × Lease
heartbeat o now l = if is_owned_by o l.info then (ok tt, refresh o now l) else (err lease_error, l)

unfoldable pub release : String → Lease → Result (Unit {0}) × Lease
release o l =
    if is_owned_by_other o l.info then (err lease_error, l) else (ok tt, record l { info = none })
