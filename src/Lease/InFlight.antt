-- ===== src/Lease/InFlight.antt =====
-- The lease of an owner whose request is in flight: at its entry, and when it leaves.
use flexiv_control.Common.{
  ℕ, ◌+◌, ◌≤◌, ◌≡◌, refl, String, true, Option, none, some, str_eq_iff, arith,
}
use flexiv_control.Common.Result.{ok}
use package.flexiv_control.Lease.{
  LeaseInfo, Lease, is_owned_by, check, heartbeat, hold_enter, hold_down,
}
use package.flexiv_control.Lease.Holder.{holder}

-- The lease after the entry of a request of `o`.
abbrev pub entered : String → (at_check at_beat at_hold : ℕ) → Lease → Lease
entered o at_check at_beat at_hold l =
    (hold_enter o at_hold (heartbeat o at_beat (check o at_check l).1).1).1

-- The three sections of the entry pass, and the owner is recorded.
abbrev pub Enters : String → (at_check at_beat at_hold : ℕ) → Lease → Type 0
Enters o at_check at_beat at_hold l =
    ((check o at_check l).0 ≡ ok tt)
    × ((heartbeat o at_beat (check o at_check l).1).0 ≡ ok tt)
    × ((hold_enter o at_hold (heartbeat o at_beat (check o at_check l).1).1).0 ≡ ok tt)
    × (is_owned_by o (entered o at_check at_beat at_hold l).info ≡ true)

info-Enters :
    (o : String) (at_check at_beat at_hold : ℕ) (l : Lease) (i : Option LeaseInfo)
    → l.info ≡ i
    → holder at_check l ≡ some o
    → at_hold ≤ at_beat + l.ttl
    → Enters o at_check at_beat at_hold l
unfolding check heartbeat hold_enter holder
info-Enters o at_check at_beat at_hold l none e holds soon = ground arith
info-Enters o at_check at_beat at_hold l (some i) e holds soon =
    ground (arith, str_eq_iff i.owner o)

-- The holder enters, when the clock does not pass a whole term between two of the sections.
pub entered-Enters :
    (o : String) (at_check at_beat at_hold : ℕ) (l : Lease)
    → holder at_check l ≡ some o
    → at_hold ≤ at_beat + l.ttl
    → Enters o at_check at_beat at_hold l
unfolding check heartbeat hold_enter holder
entered-Enters o at_check at_beat at_hold l = info-Enters o at_check at_beat at_hold l l.info refl

leaves_info :
    (o : String) (left t : ℕ) (l : Lease) (i : Option LeaseInfo)
    → l.info ≡ i
    → is_owned_by o l.info ≡ true
    → t ≤ left + l.ttl
    → holder t (hold_down o left l) ≡ some o
unfolding hold_down holder
leaves_info o left t l none e own soon = ground arith
leaves_info o left t l (some i) e own soon = ground (arith, str_eq_iff i.owner o)

-- The recorded owner leaves with a full term.
pub hold_down-holder :
    (o : String) (left t : ℕ) (l : Lease)
    → is_owned_by o l.info ≡ true
    → t ≤ left + l.ttl
    → holder t (hold_down o left l) ≡ some o
unfolding hold_down holder
hold_down-holder o left t l = leaves_info o left t l l.info refl
