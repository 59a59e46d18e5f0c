-- ===== src/Common/Result.antt =====
-- Python exceptions as values. A method that mutates its object and may raise returns its result
-- beside the object, since what was written before the exception stays written.

use mathlib.Core.Path.{◌≡◌, refl}

-- The exception classes that the modelled code raises.
pub data Error : Type 0 where
  lease_error host_lock_error value_error runtime_error chunk_stopped servo_loop_active : Error
  not_implemented key_error type_error attribute_error timeout_error remote_error file_not_found
        index_error :
      Error

-- A method's outcome: the exception that it raised, or what it returned.
pub data Result {ℓ} (A : Type ℓ) : Type ℓ where
  err : Error → Result A
  ok : A → Result A

module _ {ℓ κ} {A : Type ℓ} {B : Type κ} where
  infixl 5 ◌>>=◌
  -- An exception skips what follows.
  abbrev pub ◌>>=◌ : Result A → (A → Result B) → Result B
  err e >>= go = err e
  ok v >>= go = go v

  -- What returns in the end returned at its first step.
  pub >>=-returned :
      {w : B} (r : Result A) (go : A → Result B)
      → (r >>= go) ≡ ok w
      → (v : A) × (r ≡ ok v) × (go v ≡ ok w)
  >>=-returned (err e) go done = cc
  >>=-returned (ok v) go done = (v, refl, done)
