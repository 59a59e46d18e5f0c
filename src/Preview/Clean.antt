-- ===== src/Preview/Clean.antt =====
-- Chunks without warnings.
use package.flexiv_control.Preview.{Problem, problem_if, is_outside, problems_from, validate_chunk}
use flexiv_control.Common.{
  ℕ, ◌+◌, ◌≡◌, Bool, true, false, Option, List, [], ◌∷◌, ◌++◌, All, arith, refl,
}
use flexiv_control.Number.{Number}
use flexiv_control.Types.{Vec3, Quat}
use flexiv_control.Safety.Profile.{SafetyProfile}
use flexiv_control.Safety.Cartesian.Workspace.{InBox}
use flexiv_control.ActionChunk.{CartesianWaypoint, CartesianChunk}

-- What is appended to nothing visible was nothing.
nil-append : {A : Type 0} (xs ys : List A) → xs ++ ys ≡ [] → (xs ≡ []) × (ys ≡ [])
nil-append [] ys e = (refl, e)
nil-append (x ∷ xs) ys e = cc

not_listed : (b : Bool) (problem : Problem) → problem_if b problem ≡ [] → b ≡ false
not_listed false problem e = refl
not_listed true problem e = cc

module _ {F : Type 0} ⦃n : Number F⦄ (p : SafetyProfile F) where
  is_outside-InBox : (v : Vec3 F) → is_outside p v ≡ false → InBox p v
  unfolding is_outside
  is_outside-InBox v h = ground (arith, h)

  problems_from-InBox :
      (lin_cap ang_cap : F) (i : ℕ) (prev : Option (Vec3 F)) (prev_quat : Option (Quat F))
      (ws : List (CartesianWaypoint F))
      → problems_from p lin_cap ang_cap i prev prev_quat ws ≡ []
      → All (λ w. InBox p w.position) ws
  unfolding problems_from
  problems_from-InBox lin_cap ang_cap i prev prev_quat [] clean = tt
  problems_from-InBox lin_cap ang_cap i prev prev_quat (w ∷ ws) clean =
      let (here, rest) = nil-append _ _ clean in
      let (slow, later) = nil-append _ _ rest in
      (
        is_outside-InBox w.position (not_listed _ _ here),
        problems_from-InBox lin_cap ang_cap (i + 1) _ _ ws later,
      )

  -- A chunk that `validate_chunk` has nothing to say about has all its waypoints in the workspace box.
  pub validate_chunk-InBox :
      (c : CartesianChunk F) → validate_chunk p c ≡ [] → All (λ w. InBox p w.position) c.waypoints
  unfolding validate_chunk
  validate_chunk-InBox c clean = problems_from-InBox _ _ 0 _ _ c.waypoints clean
