-- ===== src/Client/Heartbeat.antt =====
-- `_heartbeat`, the thread that renews the lease.
use package.flexiv_control.Client.{Remote, Passage, call}
use flexiv_control.Common.{ℕ, ◌+◌, leb, Bool, true, false, List, [], ◌∷◌, if◌then◌else◌}
use flexiv_control.Common.Result.{Result, Error, ok, err}
use flexiv_control.Number.{Number}
use flexiv_control.Backend.{Backend}
use flexiv_control.Server.Motion.{Reply}
use flexiv_control.Server.Dispatch.{Request}

-- The calls that a turn may make.
pub record Beat (F : Type 0) : Type 0 where
  pub beating : Passage F
  pub acquiring : Passage F

-- except RemoteRobotError
abbrev pub is_remote : Error → Bool
is_remote Error.remote_error = true
is_remote _ = false

module _ {F B : Type 0} where
  unfoldable pub give_up : Remote F B → Remote F B
  give_up c = record c { has_lease = false; hb_running = false }

  -- A slow or dropped beat.
  unfoldable pub hiccup : (max_failures failures : ℕ) → Remote F B → ℕ × Remote F B
  hiccup max_failures failures c =
      (failures + 1, if leb max_failures (failures + 1) then give_up c else c)

  abbrev pub reacquired : (failures : ℕ) → Result (Reply F) × Remote F B → ℕ × Remote F B
  reacquired failures (ok r, c) = (0, c)
  reacquired failures (err e, c) = (failures, give_up c)

module _ {F : Type 0} ⦃n : Number F⦄ {B : Type 0} (ops : Backend F B) (max_failures : ℕ) where
  abbrev pub answered : Passage F → (failures : ℕ) → Result (Reply F) × Remote F B → ℕ × Remote F B
  answered p failures (ok r, c) = (0, c)
  answered p failures (err e, c) =
      if is_remote e
      then reacquired failures (call ops p (Request.acquire_lease c.owner false) c)
      else hiccup max_failures failures c

  -- The body of the loop, with the failures in a row so far.
  unfoldable pub beat : Beat F → (failures : ℕ) → Remote F B → ℕ × Remote F B
  beat b failures c =
      answered b.acquiring failures (call ops b.beating (Request.heartbeat c.owner) c)

  unfoldable pub beats : List (Beat F) → (failures : ℕ) → Remote F B → ℕ × Remote F B
  beats [] failures c = (failures, c)
  beats (b ∷ bs) failures c =
      let (failures', c') = beat b failures c in
      let rest = beats bs failures' c' in if c.hb_running then rest else (failures, c)
