-- ===== src/Server/Fresh.antt =====
-- From one session to the next: the release by an owner, then the grant to another.
use package.flexiv_control.Server.{Server, Times, on_lease, on_robot}
use package.flexiv_control.Server.Motion.{Reply}
use package.flexiv_control.Server.Handlers.{settle_stop, handle_acquire_lease, handle_release_lease}
use package.flexiv_control.Server.Session.{IsStopped, handle_release_lease_lem}
use flexiv_control.Common.{
  ◌+◌, String, Bool, true, false, none, ◌≡◌, ◌≢◌, inl, inr, refl, arith, str_eq_iff, false≢true,
  sym, ◌∙◌,
}
use flexiv_control.Common.Result.{Result, ok}
use flexiv_control.Common.Exec.{◌>>=◌}
use flexiv_control.Number.{Number}
use flexiv_control.Types.{ControlMode}
use flexiv_control.Backend.Fake.{FakeBackend, fake_backend}
use flexiv_control.Robot.{Robot, clear_stop}
use flexiv_control.Lease.{LeaseInfo, Lease, owner, acquire, is_owned_by_other}

acquire_free :
    (o : String) (force : Bool) (t : Times) (l : Lease)
    → l.info ≡ none
    → o ≢ ""
    → ((owner t.owned l).0 ≡ "")
      × ((acquire o force t.expired t.granted (owner t.owned l).1).0
          ≡ ok (record { owner = o; acquired_at = t.granted; expires_at = t.granted + l.ttl }))
unfolding acquire owner
acquire_free o force t l free named = ground (arith, free, str_eq_iff o "")

-- With nobody before, the grant clears the event.
settle_fresh :
    {F B : Type 0} (p : String) (force : Bool) (r : Robot F B)
    → p ≢ ""
    → ((settle_stop force "" p r).0 ≡ ok tt)
      × ((settle_stop force "" p r).1 ≡ record r { cancel = false })
unfolding settle_stop clear_stop
settle_fresh p true r named = ground (arith, str_eq_iff "" p, str_eq_iff p "")
settle_fresh p false r named = ground (arith, str_eq_iff "" p, str_eq_iff p "")

module _ {F : Type 0} ⦃n : Number F⦄ (now : F) where
  -- "p" has the lease, and the robot is at rest with nothing pending.
  abbrev StartsFresh : String → Result (Reply F) × Server F (FakeBackend F) → Type 0
  StartsFresh p (a, s) =
      ((i : LeaseInfo) × (a ≡ ok (Reply.granted i)) × (i.owner ≡ p))
      × (s.servo ≡ none)
      × (s.robot.backend.mode ≡ ControlMode.idle)
      × (s.robot.cancel ≡ false)

  grant_free-StartsFresh :
      (p : String) (force : Bool) (t : Times) (s : Server F (FakeBackend F))
      → s.lease.info ≡ none
      → p ≢ ""
      → IsStopped now s
      → StartsFresh p (handle_acquire_lease p force t s)
  unfolding handle_acquire_lease on_lease on_robot ◌>>=◌
  grant_free-StartsFresh p force t s free named (gone, idle, set) =
      let (nobody, given) = acquire_free p force t s.lease free named in
      let (quiet, clear) = settle_fresh p force s.robot named in
      rw (given, nobody, quiet, clear) ((_, refl, refl), gone, idle, refl)

  -- After the owner's release, or with no owner left, whoever asks next for the lease by a name gets
  -- it, with the backend idle, no servo loop, and no stop pending that would end the first chunk.
  pub release_then_acquire :
      (o p : String) (force : Bool) (t : Times) (s : Server F (FakeBackend F))
      → is_owned_by_other o s.lease.info ≡ false
      → p ≢ ""
      → let s1 = (handle_release_lease (fake_backend now) o s).1 in
        let (a, s2) = handle_acquire_lease p force t s1 in
        ((i : LeaseInfo) × (a ≡ ok (Reply.granted i)) × (i.owner ≡ p))
        × (s2.servo ≡ none)
        × (s2.robot.backend.mode ≡ ControlMode.idle)
        × (s2.robot.cancel ≡ false)
  release_then_acquire o p force t s own named = elim (handle_release_lease_lem now o s) [
    | inl (foreign, said, kept) ↦ absurd (false≢true (sym own ∙ foreign))
    | inr (mine, said, free, stopped) ↦ grant_free-StartsFresh p force t _ free named stopped
  ]
