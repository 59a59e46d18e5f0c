-- ===== src/Client/Renewal.antt =====
-- What a turn of the heartbeat does to the lease.
use package.flexiv_control.Client.{Remote, Passage, opened, arrives}
use package.flexiv_control.Client.Answers.{call-in_step}
use package.flexiv_control.Client.Heartbeat.{Beat, give_up, answered, beat}
use flexiv_control.Common.{
  ℕ, ◌+◌, ◌≤◌, String, true, false, Option, none, some, [], ◌≡◌, ◌≢◌, ◌⊎◌, inl, inr, refl, sym, ap,
  ◌∙◌, subst, arith, false≢true,
}
use flexiv_control.Common.Result.{ok, err, lease_error, remote_error}
use flexiv_control.Common.Exec.{◌>>=◌}
use flexiv_control.Number.{Number}
use flexiv_control.Backend.{Backend}
use flexiv_control.Lease.{Lease, LeaseInfo, acquire, owner, expire_if_stale}
use flexiv_control.Lease.Holder.{holder, is_ok, Acquires, acquire_lem, heartbeat_lem}
use flexiv_control.Server.{Server, on_lease, on_robot}
use flexiv_control.Server.Motion.{Reply}
use flexiv_control.Server.Handlers.{Surroundings, handle_heartbeat, handle_acquire_lease}
use flexiv_control.Server.Handover.{acquire-cases, settle_stop-Settles}
use flexiv_control.Server.Dispatch.{Request, replied, failed, dispatch}

true-ne-false : true ≢ false
true-ne-false e = false≢true (sym e)

-- Looking who owns a lease changes nobody's holding, then or later.
holder-owner : (seen now : ℕ) (l : Lease) → seen ≤ now → holder now (owner seen l).1 ≡ holder now l
unfolding holder owner expire_if_stale
holder-owner seen now l early = by_info l.info refl
  where
    by_info : (i : Option LeaseInfo) → l.info ≡ i → holder now (owner seen l).1 ≡ holder now l
    by_info none e = ground arith
    by_info (some i) e = ground arith

ttl-owner : (seen : ℕ) (l : Lease) → ((owner seen l).1).ttl ≡ l.ttl
unfolding owner expire_if_stale
ttl-owner seen l = ground arith

module _ (o : String) (now later t : ℕ) (l : Lease)
    (acquires : Acquires o false now t l (acquire o false now later l)) where
  granted-holder :
      {i : LeaseInfo}
      → (acquire o false now later l).0 ≡ ok i
      → holder t (acquire o false now later l).1 ≡ some o
  granted-holder given = elim acquires [
    | inl (fine, free, holds) ↦ holds
    | inr (bad, a, b, c, d) ↦ absurd (true-ne-false (sym (ap is_ok given) ∙ bad))
  ]

  refused-holder :
      (acquire o false now later l).0 ≡ err lease_error
      → (holder now l ≢ none)
        × (holder now l ≢ some o)
        × (holder now (acquire o false now later l).1 ≡ holder now l)
  refused-holder taken = elim acquires [
    | inl (fine, a, b) ↦ absurd (true-ne-false (sym fine ∙ ap is_ok taken))
    | inr (bad, unforced, somebody, other, same) ↦ (somebody, other, same)
  ]

module _ {F : Type 0} ⦃n : Number F⦄ {B : Type 0} (ops : Backend F B) (o : String)
    (w : Surroundings F) (s : Server F B) where
  open w.scene.times use {owned, beaten, expired, granted}

  -- The server's answer to a beat.
  beaten-answer :
      (t : ℕ)
      → t ≤ beaten + s.lease.ttl
      → let (resp, s') = dispatch ops w (some (Request.heartbeat o)) s in
        ((r : Reply F) × (resp ≡ replied r) × (holder t s'.lease ≡ some o))
        ⊎ ((resp ≡ failed lease_error) × (s' ≡ s))
  unfolding dispatch handle_heartbeat on_lease ◌>>=◌
  beaten-answer t soon = elim (heartbeat_lem o beaten t s.lease soon) [
    | inl (own, fine, holds) ↦ rw fine (inl (_, refl, holds))
    | inr (other, refused, same) ↦ rw (refused, same) (inr (refl, refl))
  ]

  -- The server's answer to a request for the lease.
  acquired-answer :
      (t : ℕ)
      → o ≢ ""
      → owned ≤ expired
      → expired ≤ granted
      → t ≤ granted + s.lease.ttl
      → let (resp, s') = dispatch ops w (some (Request.acquire_lease o false)) s in
        ((r : Reply F) × (resp ≡ replied r) × (holder t s'.lease ≡ some o))
        ⊎ ((resp ≡ failed lease_error)
            × (holder expired s.lease ≢ none)
            × (holder expired s.lease ≢ some o)
            × (holder expired s'.lease ≡ holder expired s.lease))
  unfolding dispatch handle_acquire_lease on_lease on_robot ◌>>=◌
  acquired-answer t named seen order soon =
      let l1 = (owner owned s.lease).1 in
      let acquires =
        acquire_lem o false expired granted t l1 named order
          (subst (λ k. t ≤ granted + k) (sym (ttl-owner owned s.lease)) soon) in
      let unseen = holder-owner owned expired s.lease seen in
      elim (acquire-cases o false expired granted l1) [
        | inr (i, given, own, recorded) ↦
            (let (quiet, settles) =
                settle_stop-Settles false (owner owned s.lease).0 i.owner s.robot in
              let holds = granted-holder o expired granted t l1 acquires given in
              rw (given, quiet) (inl (_, refl, holds)))
        | inl taken ↦
            (let (somebody, other, same) = refused-holder o expired granted t l1 acquires taken in
              rw taken (
                inr (refl, (λ e. somebody (unseen ∙ e)), (λ e. other (unseen ∙ e)), same ∙ unseen)))
      ]

module _ {F : Type 0} ⦃n : Number F⦄ {B : Type 0} (ops : Backend F B) (max_failures : ℕ) where
  -- The client goes on with the lease, or has given it up since another owner holds it.
  abbrev pub Renews : (t seen : ℕ) → Remote F B → ℕ → Remote F B → Type 0
  Renews t seen c failures c' =
      ((failures ≡ 0)
        × (c'.has_lease ≡ c.has_lease)
        × (c'.hb_running ≡ c.hb_running)
        × (holder t c'.server.lease ≡ some c.owner))
      ⊎ ((c'.has_lease ≡ false)
          × (c'.hb_running ≡ false)
          × (holder seen c.server.lease ≢ none)
          × (holder seen c.server.lease ≢ some c.owner)
          × (holder seen c'.server.lease ≡ holder seen c.server.lease))

  -- After a beat that the server refused.
  second :
      (p : Passage F) (failures t : ℕ) (c : Remote F B)
      → c.queue ≡ []
      → c.link ≡ opened
      → p.fate ≡ arrives
      → c.owner ≢ ""
      → p.around.scene.times.owned ≤ p.around.scene.times.expired
      → p.around.scene.times.expired ≤ p.around.scene.times.granted
      → t ≤ p.around.scene.times.granted + c.server.lease.ttl
      → let (failures', c') = answered ops max_failures p failures (err remote_error, c) in
        Renews t p.around.scene.times.expired c failures' c'
  unfolding give_up
  second p failures t c clean up lands named seen order soon =
      rw (call-in_step ops p (Request.acquire_lease c.owner false) c clean up lands)
        (elim (acquired-answer ops c.owner p.around c.server t named seen order soon) [
          | inl (r, said, holds) ↦ rw said (inl (refl, refl, refl, holds))
          | inr (said, somebody, other, same) ↦ rw said (inr (refl, refl, somebody, other, same))
        ])

  -- A turn of the heartbeat in which both calls get through, for an owner with a name and a clock that
  -- does not go back: either no failure is counted, the client keeps its flags, and the server
  -- has given the owner a lease for a full term, be it that it was still recorded or that it
  -- had run out and nobody else had taken it; or the client drops the lease and ends the
  -- thread, somebody else held the lease at that time, and still does.
  pub beat-Renews :
      (b : Beat F) (failures t : ℕ) (c : Remote F B)
      → c.queue ≡ []
      → c.link ≡ opened
      → b.beating.fate ≡ arrives
      → b.acquiring.fate ≡ arrives
      → c.owner ≢ ""
      → t ≤ b.beating.around.scene.times.beaten + c.server.lease.ttl
      → b.acquiring.around.scene.times.owned ≤ b.acquiring.around.scene.times.expired
      → b.acquiring.around.scene.times.expired ≤ b.acquiring.around.scene.times.granted
      → t ≤ b.acquiring.around.scene.times.granted + c.server.lease.ttl
      → let (failures', c') = beat ops max_failures b failures c in
        Renews t b.acquiring.around.scene.times.expired c failures' c'
  unfolding beat
  beat-Renews b failures t c clean up lands again named soon seen order late =
      rw (call-in_step ops b.beating (Request.heartbeat c.owner) c clean up lands)
        (elim (beaten-answer ops c.owner b.beating.around c.server t soon) [
          | inl (r, said, holds) ↦ rw said (inl (refl, refl, refl, holds))
          | inr (said, same) ↦
              rw (said, same)
                (second b.acquiring failures t
                  (record c { link = opened; next_id = c.next_id + 1; queue = [] }) refl refl again
                  named seen order late)
        ])
