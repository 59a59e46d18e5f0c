-- ===== src/Server/Handover.antt =====
-- The hand-over of the lease: what a new grant does to the event that stops a motion.
use package.flexiv_control.Server.{Server, Times, on_lease, on_robot}
use package.flexiv_control.Server.Motion.{Reply}
use package.flexiv_control.Server.Handlers.{settle_stop, handle_acquire_lease}
use flexiv_control.Common.{
  ℕ, String, Bool, true, false, some, ◌≡◌, ◌≢◌, ◌⊎◌, inl, inr, refl, arith, str_eq, str_eq_iff,
  Bool-cases, ◌&&◌, not,
}
use flexiv_control.Common.Result.{Result, ok, err, lease_error}
use flexiv_control.Common.Exec.{◌>>=◌}
use flexiv_control.Robot.{Robot, request_stop, clear_stop}
use flexiv_control.Lease.{LeaseInfo, Lease, owner, acquire, is_owned_by_other, expire_if_stale}

module _ {F B : Type 0} where
  -- What a grant to `o` does to the event, when `prev` had the lease before: nothing for the same
  -- owner, a stop for a motion of an owner robbed by force, else a clean start.
  abbrev pub Settles : Bool → String → String → Robot F B → Robot F B → Type 0
  Settles force prev o r r' =
      ((prev ≡ o) × (r' ≡ r))
      ⊎ ((prev ≢ o) × (force ≡ true) × (prev ≢ "") × (r' ≡ record r { cancel = true }))
      ⊎ ((prev ≢ o) × ((force ≡ false) ⊎ (prev ≡ "")) × (r' ≡ record r { cancel = false }))

  pub settle_stop-Settles :
      (force : Bool) (prev o : String) (r : Robot F B)
      → ((settle_stop force prev o r).0 ≡ ok tt)
        × Settles force prev o r (settle_stop force prev o r).1
  unfolding settle_stop request_stop clear_stop
  settle_stop-Settles force prev o r = ground (arith, str_eq_iff prev o, str_eq_iff prev "")

pub acquire-cases :
    (o : String) (force : Bool) (now later : ℕ) (l : Lease)
    → let (a, l') = acquire o force now later l in
      (a ≡ err lease_error) ⊎ ((i : LeaseInfo) × (a ≡ ok i) × (i.owner ≡ o) × (l'.info ≡ some i))
unfolding acquire
acquire-cases o force now later l = elim (Bool-cases (str_eq o "")) [
  | inl nameless ↦ rw nameless (inl refl)
  | inr named ↦ elim (Bool-cases (is_owned_by_other o (expire_if_stale now l).info && not force)) [
    | inl taken ↦ rw (named, taken) (inl refl)
    | inr free ↦ rw (named, free) (inr (_, refl, refl, refl))
  ]
]

module _ {F B : Type 0} (o : String) (force : Bool) (t : Times) (s : Server F B) where
  -- What comes of a request for the lease.
  abbrev pub Grants : Result (Reply F) × Server F B → Type 0
  Grants (a, s') =
      ((a ≡ err lease_error) × (s'.robot ≡ s.robot) × (s'.servo ≡ s.servo))
      ⊎ ((i : LeaseInfo) × (a ≡ ok (Reply.granted i))
          × (i.owner ≡ o)
          × (s'.lease.info ≡ some i)
          × (s'.servo ≡ s.servo)
          × Settles force (owner t.owned s.lease).0 i.owner s.robot s'.robot)

  -- A request for the lease is refused and touches nothing of the robot; or it is granted to the one
  -- who asks, and the event that stops a motion is left alone for the owner before it, set when
  -- another owner was robbed by force, and cleared for everybody else.
  pub handle_acquire_lease-Grants : Grants (handle_acquire_lease o force t s)
  unfolding handle_acquire_lease on_lease on_robot owner ◌>>=◌
  handle_acquire_lease-Grants =
      elim (acquire-cases o force t.expired t.granted (owner t.owned s.lease).1) [
        | inl taken ↦ rw taken (inl (refl, refl, refl))
        | inr (i, given, named, recorded) ↦
            (let (quiet, settles) =
                settle_stop-Settles force (owner t.owned s.lease).0 i.owner s.robot in
              rw (given, quiet) (inr (i, refl, named, recorded, refl, settles)))
      ]
