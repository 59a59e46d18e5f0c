-- ===== src/Lease/Sections.antt =====
-- The lock-guarded sections of the lease in any interleaving: what the threads of the server do to it.
use flexiv_control.Common.{
  ℕ, ◌<◌, ◌≡◌, ◌≢◌, ◌⊎◌, inl, inr, refl, String, Bool, true, false, Option, none, some, List, [],
  ◌∷◌, str_eq_iff, arith, ap, sym, ◌∙◌, false≢true,
}
use package.flexiv_control.Lease.{
  LeaseInfo, Lease, is_owned_by, expire_if_stale, acquire_locked, heartbeat, release, hold_up,
  hold_down,
}

pub data Section : Type 0 where
  expires : ℕ → Section
  acquires : String → Bool → ℕ → Section
  beats : String → ℕ → Section
  releases : String → Section
  holds_up : Section
  holds_down : String → ℕ → Section

unfoldable pub step : Lease → Section → Lease
unfolding expire_if_stale acquire_locked heartbeat release hold_up hold_down
step l (expires now) = expire_if_stale now l
step l (acquires o force now) = (acquire_locked o force now l).1
step l (beats o now) = (heartbeat o now l).1
step l (releases o) = (release o l).1
step l holds_up = hold_up l
step l (holds_down o now) = hold_down o now l

unfoldable pub run : Lease → List Section → Lease
run l [] = l
run l (s ∷ ss) = run (step l s) ss

-- Neither a steal by force from `o`, nor the release by `o` itself.
abbrev pub Spares : String → Section → Type 0
Spares o (acquires p force now) = (p ≡ o) ⊎ (force ≡ false)
Spares o (releases p) = p ≢ o
Spares o _ = Unit

-- A request is in flight before each section.
abbrev pub HeldThroughout : String → Lease → List Section → Type 0
HeldThroughout o l [] = Unit
HeldThroughout o l (s ∷ ss) = (0 < l.holds) × Spares o s × HeldThroughout o (step l s) ss

step_info :
    (o : String) (l : Lease) (s : Section) (i : Option LeaseInfo)
    → l.info ≡ i
    → 0 < l.holds
    → Spares o s
    → is_owned_by o l.info ≡ true
    → is_owned_by o (step l s).info ≡ true
unfolding step
step_info o l s none e h p own = absurd (false≢true (sym (ap (is_owned_by o) e) ∙ own))
step_info o l (expires now) (some i) e h p own = ground arith
step_info o l (acquires q force now) (some i) e h (inl same) own =
    ground (arith, str_eq_iff q o, str_eq_iff i.owner o, str_eq_iff i.owner q)
step_info o l (acquires q force now) (some i) e h (inr mild) own =
    ground (arith, str_eq_iff q o, str_eq_iff i.owner o, str_eq_iff i.owner q)
step_info o l (beats q now) (some i) e h p own =
    ground (arith, str_eq_iff i.owner o, str_eq_iff i.owner q)
step_info o l (releases q) (some i) e h p own =
    ground (arith, str_eq_iff i.owner o, str_eq_iff i.owner q)
step_info o l holds_up (some i) e h p own = ground arith
step_info o l (holds_down q now) (some i) e h p own =
    ground (arith, str_eq_iff i.owner o, str_eq_iff i.owner q)

-- While a request of the owner is in flight, no interleaving of the sections of other threads takes
-- the lease away, however long it lasts: only a steal by force or the owner's own release does.
pub run-HeldThroughout :
    (o : String) (l : Lease) (ss : List Section)
    → HeldThroughout o l ss
    → is_owned_by o l.info ≡ true
    → is_owned_by o (run l ss).info ≡ true
unfolding run
run-HeldThroughout o l [] h own = own
run-HeldThroughout o l (s ∷ ss) h own =
    run-HeldThroughout o (step l s) ss h.2 (step_info o l s l.info refl h.0 h.1 own)
