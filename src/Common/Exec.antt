-- ===== src/Common/Exec.antt =====
-- Methods that change their object and may raise: `Exec S A` is such a method of an object `S` that
-- returns an `A`. `Hoare P m Q E` says that from `P` a method `m` returns into `Q` or raises into `E`.
use mathlib.Core.Path.{◌≡◌, refl}
use mathlib.Core.Bool.{Bool, true, false}
use flexiv_control.Common.Tests.{if◌then◌else◌}
use package.flexiv_control.Common.Result.{Error, Result, ok, err}

abbrev pub Exec : Type 0 → Type 0 → Type 0
Exec S A = S → Result A × S

module _ {S A : Type 0} where
  abbrev pub return : A → Exec S A
  return a s = (ok a, s)

  abbrev pub raise : Error → Exec S A
  raise e s = (err e, s)

  -- A computation that may raise and changes nothing.
  abbrev pub attempt : Result A → Exec S A
  attempt r s = (r, s)

  -- Reads the object.
  abbrev pub gets : (S → A) → Exec S A
  gets f s = (ok (f s), s)

-- `try: m; except Exception:` with the value of the handler.
abbrev pub recovered : {S A : Type 0} → A → Result A × S → Result A × S
recovered a (ok x, s) = (ok x, s)
recovered a (err e, s) = (ok a, s)

unfoldable pub recover : {S A : Type 0} → A → Exec S A → Exec S A
recover a m s = recovered a (m s)

-- `try: m; except E:` with the classes `E` that pass the test.
abbrev pub handled : {S A : Type 0} → (Error → Bool) → Exec S A → Result A × S → Result A × S
handled test handler (ok x, s) = (ok x, s)
handled test handler (err e, s) = if test e then handler s else (err e, s)

unfoldable pub catching : {S A : Type 0} → (Error → Bool) → Exec S A → Exec S A → Exec S A
catching test handler m s = handled test handler (m s)

abbrev pub modify : {S : Type 0} → (S → S) → Exec S (Unit {0})
modify f s = (ok tt, f s)

module _ {S A B : Type 0} where
  abbrev pub proceed : Result A → (A → Exec S B) → Exec S B
  proceed (ok a) f s = f a s
  proceed (err e) f s = (err e, s)

  infixl 5 ◌>>=◌ ◌>>◌
  unfoldable pub ◌>>=◌ : Exec S A → (A → Exec S B) → Exec S B
  ◌>>=◌ m f s = let (r, s') = m s in proceed r f s'

  abbrev pub ◌>>◌ : Exec S A → Exec S B → Exec S B
  m >> k = m >>= λ _. k

-- What is true after a call.
abbrev pub Post : {S A : Type 0} → (A → S → Type 0) → (S → Type 0) → Result A × S → Type 0
Post Q E (ok a, s) = Q a s
Post Q E (err e, s) = E s

pub record Hoare {S A : Type 0} (P : S → Type 0) (m : Exec S A) (Q : A → S → Type 0)
    (E : S → Type 0) : Type 0 where
  pub at : (s : S) → P s → Post Q E (m s)

module _ {S A : Type 0} {P E : S → Type 0} {Q : A → S → Type 0} where
  pub Hoare-return : (a : A) → ((s : S) → P s → Q a s) → Hoare P (return a) Q E
  Hoare-return a h = record { at = h }

  pub Hoare-raise : (e : Error) → ((s : S) → P s → E s) → Hoare P (raise e) Q E
  Hoare-raise e h = record { at = h }

  pub Hoare-post :
      {m : Exec S A} {R : A → S → Type 0}
      → ((a : A) (s : S) → R a s → Q a s)
      → Hoare P m R E
      → Hoare P m Q E
  Hoare-post {m = m} {R = R} more h = record { at = λ s i. weaken (m s) (h.at s i) }
    where
      weaken : (o : Result A × S) → Post R E o → Post Q E o
      weaken (ok a, s) k = more a s k
      weaken (err e, s) k = k

  pub Hoare-if :
      (b : Bool) (m k : Exec S A)
      → (b ≡ true → Hoare P m Q E)
      → (b ≡ false → Hoare P k Q E)
      → Hoare P (if b then m else k) Q E
  Hoare-if true m k hm hk = hm refl
  Hoare-if false m k hm hk = hk refl

  pub Hoare-catching :
      {H : S → Type 0} (test : Error → Bool) (handler m : Exec S A)
      → ((s : S) → H s → E s)
      → Hoare H handler Q E
      → Hoare P m Q H
      → Hoare P (catching test handler m) Q E
  unfolding catching
  Hoare-catching {H} test handler m more hh hm = record { at = λ s i. after (m s) (hm.at s i) }
    where
      branch : (b : Bool) (e : Error) (s : S) → H s → Post Q E (if b then handler s else (err e, s))
      branch true e s h = hh.at s h
      branch false e s h = more s h

      after : (o : Result A × S) → Post Q H o → Post Q E (handled test handler o)
      after (ok x, s) h = h
      after (err e, s) h = branch (test e) e s h

module _ {S A B : Type 0} {P E : S → Type 0} {Q : A → S → Type 0} {R : B → S → Type 0} where
  pub Hoare-bind :
      (m : Exec S A) (f : A → Exec S B)
      → Hoare P m Q E
      → ((a : A) → Hoare (Q a) (f a) R E)
      → Hoare P (m >>= f) R E
  unfolding ◌>>=◌
  Hoare-bind m f hm hf = record { at = λ s h. let (r, s') = m s in rest r s' (hm.at s h) }
    where
      rest : (r : Result A) (s : S) → Post Q E (r, s) → Post R E (proceed r f s)
      rest (ok a) s h = (hf a).at s h
      rest (err e) s h = h

-- A method that keeps what is true of its object, however it ends.
abbrev pub Invariant : {S A : Type 0} → (S → Type 0) → Exec S A → Type 0
Invariant P m = Hoare P m (λ _. P) P

module _ {S A : Type 0} {P : S → Type 0} where
  pub Invariant-bind :
      {B : Type 0} {m : Exec S A} {f : A → Exec S B}
      → Invariant P m
      → ((a : A) → Invariant P (f a))
      → Invariant P (m >>= f)
  Invariant-bind hm hf = Hoare-bind _ _ hm hf

  pub Invariant-recover : (a : A) {m : Exec S A} → Invariant P m → Invariant P (recover a m)
  unfolding recover
  Invariant-recover a {m = m} h = record { at = λ s i. after (m s) (h.at s i) }
    where
      after : (o : Result A × S) → Post (λ _. P) P o → Post (λ _. P) P (recovered a o)
      after (ok x, s) i = i
      after (err e, s) i = i
