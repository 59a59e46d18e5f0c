-- ===== src/Lease/Holder.antt =====
-- Who holds the lease at a time: the contract of the lease, and that its methods keep it.
use flexiv_control.Common.{
  ℕ, ◌+◌, ◌≤◌, ◌<◌, ◌≡◌, ◌≢◌, ◌↔◌, ◌⊎◌, inl, inr, String, Bool, true, false, Option, none, some,
  ltb, str_eq, str_eq_iff, if◌then◌else◌, arith, Bool-cases, refl,
}
use flexiv_control.Common.Result.{Result, ok, err, lease_error}
use package.flexiv_control.Lease.{LeaseInfo, Lease, is_owned_by, check, acquire, heartbeat}

-- The holder at a time: the recorded owner, until its term ends with no request in flight.
abbrev holder_of : ℕ → ℕ → Option LeaseInfo → Option String
holder_of now holds none = none
holder_of now holds (some i) =
    if ltb 0 holds then some i.owner else if ltb i.expires_at now then none else some i.owner

unfoldable pub holder : ℕ → Lease → Option String
holder now l = holder_of now l.holds l.info

abbrev pub is_ok {ℓ} : {A : Type ℓ} → Result A → Bool
is_ok (ok _) = true
is_ok (err _) = false

check_info :
    (o : String) (now : ℕ) (l : Lease) (i : Option LeaseInfo)
    → l.info ≡ i
    → (((check o now l).0 ≡ ok tt) ↔ (holder now l ≡ some o))
      × (holder now (check o now l).1 ≡ holder now l)
unfolding check holder
check_info o now l none e = ground arith
check_info o now l (some i) e = ground (arith, str_eq_iff i.owner o)

-- `a` succeeds and the caller holds the lease at `t`; or it fails, somebody else holds it, and still
-- does.
abbrev pub Acquires : String → Bool → (now t : ℕ) → Lease → Result LeaseInfo × Lease → Type 0
Acquires o force now t l (a, l') =
    ((is_ok a ≡ true)
      × ((force ≡ true) ⊎ (holder now l ≡ none) ⊎ (holder now l ≡ some o))
      × (holder t l' ≡ some o))
    ⊎ ((is_ok a ≡ false)
        × (force ≡ false)
        × (holder now l ≢ none)
        × (holder now l ≢ some o)
        × (holder now l' ≡ holder now l))

acquire_info :
    (o : String) (force : Bool) (now later t : ℕ) (l : Lease) (i : Option LeaseInfo)
    → l.info ≡ i
    → o ≢ ""
    → now ≤ later
    → t ≤ later + l.ttl
    → Acquires o force now t l (acquire o force now later l)
unfolding acquire holder
acquire_info o force now later t l none e named order soon = ground (arith, str_eq_iff o "")
acquire_info o force now later t l (some i) e named order soon =
    ground (arith, str_eq_iff i.owner o, str_eq_iff o "")

-- The recorded owner's heartbeat, and any other.
abbrev pub Beats : String → (t : ℕ) → Lease → Result (Unit {0}) × Lease → Type 0
Beats o t l (a, l') =
    ((is_owned_by o l.info ≡ true) × (a ≡ ok tt) × (holder t l' ≡ some o))
    ⊎ ((is_owned_by o l.info ≡ false) × (a ≡ err lease_error) × (l' ≡ l))

heartbeat_info :
    (o : String) (now t : ℕ) (l : Lease) (i : Option LeaseInfo)
    → l.info ≡ i
    → t ≤ now + l.ttl
    → Beats o t l (heartbeat o now l)
unfolding heartbeat holder
heartbeat_info o now t l none e soon = inr (ground arith, ground arith, ground arith)
heartbeat_info o now t l (some i) e soon = elim (Bool-cases (str_eq i.owner o)) [
  | inl same ↦ inl (ground arith, ground arith, ground (arith, str_eq_iff i.owner o))
  | inr other ↦ inr (ground arith, ground arith, ground arith)
]

-- Past the term of `o`: `o` is refused, and whoever asks with a name gets the lease without force.
abbrev pub Lapsed : (o p : String) (t t' : ℕ) → Lease → Type 0
Lapsed o p t t' l =
    ((check o t l).0 ≡ err lease_error)
    × ((acquire p false t t' l).1.info
        ≡ some (record { owner = p; acquired_at = t'; expires_at = t' + l.ttl }))
    × (is_ok (acquire p false t t' l).0 ≡ true)

silent_info :
    (o p : String) (force : Bool) (now later t t' : ℕ) (l : Lease) (i : Option LeaseInfo)
    → l.info ≡ i
    → l.holds ≡ 0
    → is_ok (acquire o force now later l).0 ≡ true
    → later + l.ttl < t
    → p ≢ ""
    → Lapsed o p t t' (acquire o force now later l).1
unfolding acquire check
silent_info o p force now later t t' l none e idle h over named = ground (arith, str_eq_iff p "")
silent_info o p force now later t t' l (some i) e idle h over named =
    ground (arith, str_eq_iff p "")

-- `check` passes exactly for the holder, and it changes nobody's holding.
pub check_lem :
    (o : String) (now : ℕ) (l : Lease)
    → (((check o now l).0 ≡ ok tt) ↔ (holder now l ≡ some o))
      × (holder now (check o now l).1 ≡ holder now l)
unfolding check holder
check_lem o now l = check_info o now l l.info refl

-- For a caller with a name and a clock that does not go back: `acquire` succeeds for the holder,
-- for anybody where there is no holder, and by force, and makes the caller the holder for a full
-- term; in all other cases it fails and the holder stays.
pub acquire_lem :
    (o : String) (force : Bool) (now later t : ℕ) (l : Lease)
    → o ≢ ""
    → now ≤ later
    → t ≤ later + l.ttl
    → Acquires o force now t l (acquire o force now later l)
unfolding acquire holder
acquire_lem o force now later t l named order soon =
    acquire_info o force now later t l l.info refl named order soon

-- A heartbeat of the recorded owner gives it a full term from now, even if the term had run out
-- with nobody else taking over; any other heartbeat is refused and changes nothing.
pub heartbeat_lem :
    (o : String) (now t : ℕ) (l : Lease) → t ≤ now + l.ttl → Beats o t l (heartbeat o now l)
unfolding heartbeat holder
heartbeat_lem o now t l soon = heartbeat_info o now t l l.info refl soon

-- After an `acquire` that succeeds while no request is in flight, with nothing further heard from
-- the owner: past the term the owner is refused, and whoever asks next by a name is granted a term,
-- without force.
pub silent_owner_expires :
    (o p : String) (force : Bool) (now later t t' : ℕ) (l : Lease)
    → l.holds ≡ 0
    → is_ok (acquire o force now later l).0 ≡ true
    → later + l.ttl < t
    → p ≢ ""
    → Lapsed o p t t' (acquire o force now later l).1
silent_owner_expires o p force now later t t' l idle h over named =
    silent_info o p force now later t t' l l.info refl idle h over named
