-- ===== src/Client/Answers.antt =====
-- Which reply a call of the client returns.
use package.flexiv_control.Client.{
  Link, opened, absent, closed, Fate, unsent, arrives, fails, ends, Remote, Passage, outcome,
  take_line, served, over_link, call,
}
use flexiv_control.Common.{
  ℕ, ◌+◌, ◌≤◌, ◌==◌, true, false, some, List, [], ◌∷◌, ◌++◌, All, ◌≡◌, ◌≢◌, refl, sym, subst, arith,
}
use flexiv_control.Common.Result.{Result, Error, ok}
use flexiv_control.Number.{Number}
use flexiv_control.Backend.{Backend}
use flexiv_control.Server.{Server}
use flexiv_control.Server.Motion.{Reply}
use flexiv_control.Server.Dispatch.{Request, Response, replied, failed, unknown_method, dispatch}

-- A reply that is not an error is the reply of the server.
outcome-ok : {F : Type 0} (resp : Response F) (r : Reply F) → outcome resp ≡ ok r → resp ≡ replied r
outcome-ok (replied x) r e = cc
outcome-ok (failed x) r e = cc
outcome-ok unknown_method r e = cc

old : (i k : ℕ) → i ≤ k → (i == k + 1) ≡ false
old i k h = ground arith

same : (k : ℕ) → (k == k) ≡ true
same k = ground arith

err-ne-ok : {A : Type 0} {e : Error} {a : A} → Result.err e ≢ ok a
err-ne-ok h = cc

module _ {F : Type 0} where
  -- The replies that wait are to requests from before this one.
  abbrev Below : ℕ → List (ℕ × Response F) → Type 0
  Below k q = All (λ e. e.0 ≤ k) q

  Below-suc : (k : ℕ) (q : List (ℕ × Response F)) → Below k q → Below (k + 1) q
  Below-suc k [] h = tt
  Below-suc k (e ∷ q) h = (omega arith, Below-suc k q h.1)

  Below-append :
      (k : ℕ) (q : List (ℕ × Response F)) (resp : Response F)
      → Below k q
      → Below k (q ++ (k, resp) ∷ [])
  Below-append k [] resp h = (omega arith, tt)
  Below-append k (e ∷ q) resp h = (h.0, Below-append k q resp h.1)

  abbrev IsWaiting : List (ℕ × Response F) → Type 0
  IsWaiting [] = ⊥
  IsWaiting (e ∷ q) = Unit {0}

  IsWaiting-append : (q : List (ℕ × Response F)) (e : ℕ × Response F) → IsWaiting (q ++ e ∷ [])
  IsWaiting-append [] e = tt
  IsWaiting-append (x ∷ q) e = tt

module _ {F : Type 0} ⦃n : Number F⦄ {B : Type 0} (ops : Backend F B) where
  abbrev pub IsFresh : Remote F B → Type 0
  IsFresh c = Below c.next_id c.queue

  -- A call between calls of other clients.
  pub record Turn : Type 0 where
    pub others : Server F B → Server F B
    pub passage : Passage F
    pub request : Request F

  abbrev pub before : Turn → Remote F B → Remote F B
  before t c = record c { server = t.others c.server }

  abbrev pub made : Turn → Remote F B → Result (Reply F) × Remote F B
  made t c = call ops t.passage t.request (before t c)

  -- What the server answers to the request, at the time at which it is made.
  abbrev pub Owed : Turn → Remote F B → Reply F → Type 0
  Owed t c r = (dispatch ops t.passage.around (some t.request) (t.others c.server)).0 ≡ replied r

  answered :
      (k : ℕ) (q : List (ℕ × Response F)) (resp : Response F) (c : Remote F B)
      → Below k q
      → (r : Reply F) → (take_line (k + 1) (q ++ (k + 1, resp) ∷ []) c).0 ≡ ok r
      → resp ≡ replied r
  answered k [] resp c h r e = outcome-ok resp r (rw (same (k + 1)) at e)
  answered k ((i, x) ∷ q) resp c h r e = absurd (err-ne-ok (rw (old i k h.0) at e))

  -- The replies that wait after a read.
  take_line-IsFresh :
      (k : ℕ) (q : List (ℕ × Response F)) (c : Remote F B)
      → Below c.next_id q
      → IsFresh (take_line k q c).1
  take_line-IsFresh k [] c h = tt
  take_line-IsFresh k (x ∷ q) c h = h.1

  call-IsFresh :
      (p : Passage F) (req : Request F) (c : Remote F B) → IsFresh c → IsFresh (call ops p req c).1
  unfolding call served
  call-IsFresh p req c h = over c.link p.fate
    where
      joined : (resp : Response F) → Below (c.next_id + 1) (c.queue ++ (c.next_id + 1, resp) ∷ [])
      joined resp = Below-append (c.next_id + 1) c.queue resp (Below-suc c.next_id c.queue h)

      over : (k : Link) (f : Fate) → IsFresh (over_link ops k (record p { fate = f }) req c).1
      over absent f = h
      over closed f = Below-suc c.next_id c.queue h
      over opened unsent = Below-suc c.next_id c.queue h
      over opened arrives = take_line-IsFresh (c.next_id + 1) _ _ (joined _)
      over opened fails = joined _
      over opened ends = joined _

  call-Owed :
      (p : Passage F) (req : Request F) (c : Remote F B)
      → IsFresh c
      → (r : Reply F) → (call ops p req c).0 ≡ ok r
      → (dispatch ops p.around (some req) c.server).0 ≡ replied r
  unfolding call served
  call-Owed p req c h r = over c.link p.fate
    where
      over :
          (k : Link) (f : Fate)
          → (over_link ops k (record p { fate = f }) req c).0 ≡ ok r
          → (dispatch ops p.around (some req) c.server).0 ≡ replied r
      over absent f e = absurd (err-ne-ok e)
      over closed f e = absurd (err-ne-ok e)
      over opened unsent e = absurd (err-ne-ok e)
      over opened arrives e = answered c.next_id c.queue _ _ h r e
      over opened fails e = absurd (err-ne-ok e)
      over opened ends e = absurd (err-ne-ok e)

  -- Every reply that a call of the session returns is the one that the server owes it.
  abbrev pub Answered : List Turn → Remote F B → Type 0
  Answered [] c = Unit {0}
  Answered (t ∷ ts) c =
      ((r : Reply F) → (made t c).0 ≡ ok r → Owed t c r) × Answered ts (made t c).1

  all-Answered : (ts : List Turn) (c : Remote F B) → IsFresh c → Answered ts c
  all-Answered [] c h = tt
  all-Answered (t ∷ ts) c h = (
    λ r. call-Owed t.passage t.request (before t c) h r,
    all-Answered ts (made t c).1 (call-IsFresh t.passage t.request (before t c) h),
  )

  -- A call never returns the reply to another request. Over a connection that starts with no reply
  -- waiting, whatever calls are made, whatever requests are lost, whatever reads time out or find the
  -- stream at its end, and whatever other clients do to the server in between: a call that returns a
  -- reply returns what the server answered to that very request.
  pub calls-Answered : (ts : List Turn) (c : Remote F B) → c.queue ≡ [] → Answered ts c
  calls-Answered ts c clean = all-Answered ts c (subst (λ q. Below c.next_id q) (sym clean) tt)

  -- No call of the session returns a reply.
  abbrev pub IsSilent : List Turn → Remote F B → Type 0
  IsSilent [] c = Unit {0}
  IsSilent (t ∷ ts) c = ((r : Reply F) → (made t c).0 ≢ ok r) × IsSilent ts (made t c).1

  abbrev IsStale : Remote F B → Type 0
  IsStale c = IsFresh c × IsWaiting c.queue

  stale_read :
      (k : ℕ) (q : List (ℕ × Response F)) (resp : Response F) (c : Remote F B)
      → Below k q
      → IsWaiting q
      → ((r : Reply F) → (take_line (k + 1) (q ++ (k + 1, resp) ∷ []) c).0 ≢ ok r)
        × IsWaiting ((take_line (k + 1) (q ++ (k + 1, resp) ∷ []) c).1).queue
  stale_read k ((i, x) ∷ q) resp c h w =
      (λ r e. err-ne-ok (rw (old i k h.0) at e), IsWaiting-append q (k + 1, resp))
  stale_read k [] resp c h w = absurd w

  call-IsStale :
      (p : Passage F) (req : Request F) (c : Remote F B)
      → IsStale c
      → ((r : Reply F) → (call ops p req c).0 ≢ ok r) × IsWaiting ((call ops p req c).1).queue
  unfolding call served
  call-IsStale p req c (h, w) = over c.link p.fate
    where
      over :
          (k : Link) (f : Fate)
          → ((r : Reply F) → (over_link ops k (record p { fate = f }) req c).0 ≢ ok r)
            × IsWaiting ((over_link ops k (record p { fate = f }) req c).1).queue
      over absent f = (λ r e. err-ne-ok e, w)
      over closed f = (λ r e. err-ne-ok e, w)
      over opened unsent = (λ r e. err-ne-ok e, w)
      over opened arrives = stale_read c.next_id c.queue _ _ h w
      over opened fails = (λ r e. err-ne-ok e, IsWaiting-append c.queue _)
      over opened ends = (λ r e. err-ne-ok e, IsWaiting-append c.queue _)

  all-IsSilent : (ts : List Turn) (c : Remote F B) → IsStale c → IsSilent ts c
  all-IsSilent [] c h = tt
  all-IsSilent (t ∷ ts) c h =
      let (silent, waits) = call-IsStale t.passage t.request (before t c) h in
      (
        silent,
        all-IsSilent ts (made t c).1 (call-IsFresh t.passage t.request (before t c) h.0, waits),
      )

  missed-IsWaiting :
      (p : Passage F) (req : Request F) (c : Remote F B)
      → c.link ≡ opened
      → p.fate ≡ fails
      → IsWaiting ((call ops p req c).1).queue
  unfolding call served
  missed-IsWaiting p req c up lost = rw (up, lost) (IsWaiting-append c.queue _)

  -- A reply that was not read in its time spoils the connection for good. After a call whose request
  -- the server got and whose reply the client failed to read, no later call over this connection
  -- returns a reply, however well the network does from then on and whatever is asked: the
  -- client has to reconnect.
  pub missed-IsSilent :
      (p : Passage F) (req : Request F) (ts : List Turn) (c : Remote F B)
      → c.queue ≡ []
      → c.link ≡ opened
      → p.fate ≡ fails
      → IsSilent ts (call ops p req c).1
  missed-IsSilent p req ts c clean up lost = all-IsSilent ts (call ops p req c).1 (
    call-IsFresh p req c (subst (λ q. Below c.next_id q) (sym clean) tt),
    missed-IsWaiting p req c up lost,
  )

  -- A call over a connection on which nothing waits and nothing goes wrong.
  pub call-in_step :
      (p : Passage F) (req : Request F) (c : Remote F B)
      → c.queue ≡ []
      → c.link ≡ opened
      → p.fate ≡ arrives
      → call ops p req c ≡ (
        outcome (dispatch ops p.around (some req) c.server).0,
        record c {
          link = opened;
          next_id = c.next_id + 1;
          server = (dispatch ops p.around (some req) c.server).1;
          queue = [];
        },
      )
  unfolding call served
  call-in_step p req c clean up lands = rw (up, lands, clean, same (c.next_id + 1)) refl
