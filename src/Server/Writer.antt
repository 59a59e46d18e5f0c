-- ===== src/Server/Writer.antt =====
-- Who may write to the robot: the request gates of the server.
use mathlib.Core.Option.{none-ne-some, some-injective}
use package.flexiv_control.Server.{Server, Times, on_lease, require_lease, motion_lock}
use package.flexiv_control.Server.Dispatch.{Request, Response, failed, answer, dispatch}
use package.flexiv_control.Server.Handlers.{
  Surroundings, handle_set_safety_profile, handle_start_servo_loop, handle_stop_servo_loop,
  handle_servo_stream, handle_servo_stream_joint,
}
use package.flexiv_control.Server.Motion.{Reply, Motion, Scene, decoded, motion_body, handle_motion}
use flexiv_control.Common.{
  ℕ, Bool-cases, String, Option, none, some, List, ◌≡◌, ◌≢◌, inl, inr, refl, ap, ◌∙◌, sym, subst,
}
use flexiv_control.Common.Result.{Result, ok, err, lease_error}
use flexiv_control.Common.Exec.{Exec, ◌>>=◌, Post, Hoare, Hoare-bind, attempt}
use flexiv_control.Number.{Number}
use flexiv_control.Backend.{Backend}
use flexiv_control.Robot.{Robot}
use flexiv_control.Lease.{is_owned_by, expire_if_stale, Lease, check, heartbeat}
use flexiv_control.Lease.Holder.{holder, check_lem}
use flexiv_control.Lease.Sections.{Section}
use flexiv_control.ServoLoop.{ServoLoop}

-- The robot is the same but for the owner's name, and the servo loop is untouched.
abbrev pub Untouched : {F B : Type 0} → Server F B → Server F B → Type 0
Untouched s s' = (s'.robot ≡ record s.robot { owner = s'.robot.owner }) × (s'.servo ≡ s.servo)

module _ {F : Type 0} ⦃n : Number F⦄ {B : Type 0} (ops : Backend F B) where
  module _ (s : Server F B) where
    abbrev Same : Server F B → Type 0
    Same = Untouched s

    on_lease-Same : {A : Type 0} (m : Exec Lease A) → Hoare Same (on_lease m) (λ a. Same) Same
    unfolding on_lease
    on_lease-Same {A = A} m = record { at = λ s' i. either (m s'.lease) s' i }
      where
        either :
            (o : Result A × Lease) (s' : Server F B)
            → Untouched s s'
            → Post (λ a. Untouched s) (Untouched s) (o.0, record s' { lease = o.1 })
        either (ok a, l) s' i = i
        either (err e, l) s' i = i

    require_lease-Same : (o : String) (t : Times) → Hoare Same (require_lease o t) (λ a. Same) Same
    unfolding require_lease
    require_lease-Same o t = Hoare-bind _ _ (on_lease-Same (check o t.checked)) λ u.
        Hoare-bind _ _ (on_lease-Same (heartbeat o t.beaten)) λ u. record {
          at = λ s' i. (ap (λ (r : Robot F B). record r { owner = some o }) i.0, i.1);
        }

    -- The lock is not taken while a loop is installed.
    motion_lock-refused :
        {A : Type 0} (loop : ServoLoop F B) (o : String) (t : Times) (others : List Section)
        (body : Exec (Robot F B) A)
        → s.servo ≡ some loop
        → Hoare Same (motion_lock o t others body) (λ a s'. ⊥) Same
    unfolding motion_lock
    motion_lock-refused loop o t others body e = record { at = λ s' i. rw (i.1 ∙ e) (i.0, sym e) }

    attempt-Same : {A : Type 0} (a : Result A) → Hoare Same (attempt a) (λ a. Same) Same
    attempt-Same (ok a) = record { at = λ s' i. i }
    attempt-Same (err e) = record { at = λ s' i. i }

    -- While the servo loop is installed it is the only writer: a motion request is answered with an
    -- exception, whoever sends it and whatever it asks for, and leaves the backend, the filter and
    -- all else of the robot but the owner's name as they were, and the loop in its place.
    pub handle_motion-Untouched :
        (loop : ServoLoop F B) (o : String) (scene : Scene F) (m : Motion F)
        → s.servo ≡ some loop
        → Post (λ a s'. ⊥) (λ s'. Untouched s s') (handle_motion ops o scene m s)
    unfolding handle_motion
    handle_motion-Untouched loop o scene m e =
        (Hoare-bind _ _ (require_lease-Same o scene.times) λ owner.
            Hoare-bind _ _ (attempt-Same (decoded m)) λ u.
              motion_lock-refused loop owner scene.times scene.others
                (motion_body ops scene.world m) e).at
          s (refl, refl)

-- The owner whose lease a request needs.
abbrev pub asker : {F : Type 0} → Request F → Option String
asker (Request.motion o m) = some o
asker (Request.set_safety_profile o loaded) = some o
asker (Request.start_servo_loop o hz) = some o
asker (Request.stop_servo_loop o) = some o
asker (Request.servo_stream o pose grip) = some o
asker (Request.servo_stream_joint o q) = some o
asker _ = none

check_refused :
    (o : String) (now : ℕ) (l : Lease) → holder now l ≢ some o → (check o now l).0 ≡ err lease_error
unfolding check
check_refused o now l other = elim (Bool-cases (is_owned_by o (expire_if_stale now l).info)) [
  | inl own ↦ absurd (other ((check_lem o now l).0.0 (rw own refl)))
  | inr foreign ↦ rw foreign refl
]

module _ {F : Type 0} ⦃n : Number F⦄ {B : Type 0} (ops : Backend F B) (w : Surroundings F)
    (s : Server F B) (o : String) (other : holder w.scene.times.checked s.lease ≢ some o) where
  -- What a refused request does.
  abbrev Refused : Response F × Server F B → Type 0
  Refused (a, s') = (a ≡ failed lease_error) × Untouched s s'

  refused :
      (rest : String → Exec (Server F B) (Reply F))
      → Refused (answer ((require_lease o w.scene.times >>= rest) s))
  unfolding require_lease ◌>>=◌ on_lease
  refused rest = rw (check_refused o w.scene.times.checked s.lease other) (refl, (refl, refl))

  by_asker :
      (p : String)
      → some p ≡ some o
      → (rest : String → Exec (Server F B) (Reply F))
      → Refused (answer ((require_lease p w.scene.times >>= rest) s))
  by_asker p e rest =
      subst (λ q. Refused (answer ((require_lease q w.scene.times >>= rest) s)))
        (sym (some-injective p o e)) (refused rest)

  -- Every request that moves the robot, streams to it, or changes its mode, its profile or its servo
  -- loop is refused with the lease's error when the one who sends it does not hold the lease, and
  -- then neither the robot, but for the owner's name, nor the servo loop is touched.
  pub dispatch-refused :
      (r : Request F)
      → asker r ≡ some o
      → let (a, s') = dispatch ops w (some r) s in (a ≡ failed lease_error) × Untouched s s'
  unfolding dispatch handle_motion handle_set_safety_profile handle_start_servo_loop
      handle_stop_servo_loop handle_servo_stream handle_servo_stream_joint
  dispatch-refused (Request.motion p m) e = by_asker p e _
  dispatch-refused (Request.set_safety_profile p loaded) e = by_asker p e _
  dispatch-refused (Request.start_servo_loop p hz) e = by_asker p e _
  dispatch-refused (Request.stop_servo_loop p) e = by_asker p e _
  dispatch-refused (Request.servo_stream p pose grip) e = by_asker p e _
  dispatch-refused (Request.servo_stream_joint p q) e = by_asker p e _
  dispatch-refused Request.ping e = absurd (none-ne-some o e)
  dispatch-refused Request.get_lease e = absurd (none-ne-some o e)
  dispatch-refused Request.get_safety_profile e = absurd (none-ne-some o e)
  dispatch-refused Request.get_state e = absurd (none-ne-some o e)
  dispatch-refused Request.stop e = absurd (none-ne-some o e)
  dispatch-refused (Request.acquire_lease p force) e = absurd (none-ne-some o e)
  dispatch-refused (Request.release_lease p) e = absurd (none-ne-some o e)
  dispatch-refused (Request.heartbeat p) e = absurd (none-ne-some o e)
