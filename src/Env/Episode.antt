-- ===== src/Env/Episode.antt =====
-- The flags of an episode.
use package.flexiv_control.Teleop.{Action}
use package.flexiv_control.Env.{
  Controlled, FlexivRealEnv, Outcome, RewardFn, on_robot, observe, counted_step, step,
}
use flexiv_control.Common.{
  ℕ, ◌+◌, leb, Bool, true, false, not, ◌||◌, Option, List, [], ◌∷◌, ◌≡◌, refl, ap, arith,
}
use flexiv_control.Common.Result.{Result, ok, err}
use flexiv_control.Common.Exec.{Exec, Post, Hoare, Hoare-bind, return, ◌>>=◌}
use flexiv_control.Number.{Number}

module _ {F R : Type 0} ⦃n : Number F⦄ (robot : Controlled F R)
    (reward_fn : Option (RewardFn F)) where
  -- The steps of an episode up to the first exception.
  unfoldable pub steps : List (Action F) → Exec (FlexivRealEnv F R) (List (Outcome F))
  steps [] = return []
  steps (a ∷ rest) = do out ← step robot reward_fn a; outs ← steps rest; return (out ∷ outs)

  -- The flags of a step, the `k`-th since the reset.
  abbrev pub IsFlagged : (limit k : ℕ) → Outcome F → Type 0
  IsFlagged limit k out =
      (out.truncated ≡ leb limit k) × (out.result.success ≡ false → out.terminated ≡ true)

  -- The flags of the steps after `k` others.
  abbrev pub AreFlagged : (limit k : ℕ) → List (Action F) → List (Outcome F) → Type 0
  AreFlagged limit k [] [] = Unit {0}
  AreFlagged limit k [] (out ∷ outs) = ⊥
  AreFlagged limit k (a ∷ rest) [] = ⊥
  AreFlagged limit k (a ∷ rest) (out ∷ outs) =
      IsFlagged limit (k + 1) out × AreFlagged limit (k + 1) rest outs

  module _ (limit : ℕ) where
    abbrev At : ℕ → FlexivRealEnv F R → Type 0
    At k e = (e.elapsed ≡ k) × (e.max_episode_steps ≡ limit)

    either :
        {A : Type 0} (k : ℕ) (o : Result A × R) (e : FlexivRealEnv F R)
        → At k e
        → Post (λ _. At k) (λ _. Unit {0}) (o.0, record e { robot = o.1 })
    either k (ok a, r) e h = h
    either k (err x, r) e h = tt

    on_robot-At :
        {A : Type 0} (k : ℕ) (m : Exec R A) → Hoare (At k) (on_robot m) (λ _. At k) (λ _. Unit {0})
    unfolding on_robot
    on_robot-At k m = record { at = λ e h. either k (m e.robot) e h }

    observe-At : (k : ℕ) → Hoare (At k) (observe robot) (λ _. At k) (λ _. Unit {0})
    unfolding observe
    observe-At k = Hoare-bind _ _ (on_robot-At k _) λ s. record { at = λ e h. h }

    attempted :
        {A : Type 0} (k : ℕ) (a : Result A) (e : FlexivRealEnv F R)
        → At k e
        → Post (λ _. At k) (λ _. Unit {0}) (a, e)
    attempted k (ok a) e h = h
    attempted k (err x) e h = tt

    failed_ends : (t s : Bool) → s ≡ false → (t || not s) ≡ true
    failed_ends t s e = ground arith

    counted_step-Flagged :
        (k : ℕ) (a : Action F) (e0 : FlexivRealEnv F R)
        → leb e0.max_episode_steps e0.elapsed ≡ leb limit k
        → Hoare
            (At k)
            (counted_step robot reward_fn a e0)
            (λ out e. IsFlagged limit k out × At k e)
            (λ _. Unit {0})
    unfolding counted_step
    counted_step-Flagged k a e0 same = Hoare-bind _ _ (on_robot-At k _) λ result.
        Hoare-bind _ _ (observe-At k) λ obs.
          Hoare-bind {Q = λ _. At k} _ _ (record { at = λ e h. attempted k _ e h })
            λ judged. record { at = λ e h. ((same, failed_ends judged.1 result.success), h) }

    step-Flagged :
        (k : ℕ) (a : Action F)
        → Hoare
            (At k)
            (step robot reward_fn a)
            (λ out e. IsFlagged limit (k + 1) out × At (k + 1) e)
            (λ _. Unit {0})
    unfolding step
    step-Flagged k a =
        Hoare-bind {Q = λ u. At (k + 1)} _ _
          (record { at = λ e h. (ap (λ (j : ℕ). j + 1) h.0, h.1) })
          λ u.
            Hoare-bind
              {Q = λ e0 e. (leb e0.max_episode_steps e0.elapsed ≡ leb limit (k + 1)) × At (k + 1) e}
              _ _ (record { at = λ e h. (rw (h.0, h.1) refl, h) })
              λ e0. record { at = λ e h. (counted_step-Flagged (k + 1) a e0 h.0).at e h.1 }

    steps-Flagged :
        (k : ℕ) (acts : List (Action F))
        → Hoare (At k) (steps acts) (λ outs e. AreFlagged limit k acts outs) (λ _. Unit {0})
    unfolding steps
    steps-Flagged k [] = record { at = λ e h. tt }
    steps-Flagged k (a ∷ rest) = Hoare-bind _ _ (step-Flagged k a) λ out.
        Hoare-bind {Q = λ outs e. IsFlagged limit (k + 1) out × AreFlagged limit (k + 1) rest outs}
          _ _
          (record {
            at = λ e h. both k out rest h.0 (steps rest e) ((steps-Flagged (k + 1) rest).at e h.1);
          })
          λ outs. record { at = λ e h. h }
      where
        both :
            (k : ℕ) (out : Outcome F) (rest : List (Action F))
            → IsFlagged limit (k + 1) out
            → (o : Result (List (Outcome F)) × FlexivRealEnv F R)
            → Post (λ outs e. AreFlagged limit (k + 1) rest outs) (λ _. Unit {0}) o
            → Post
                (λ outs e. IsFlagged limit (k + 1) out × AreFlagged limit (k + 1) rest outs)
                (λ _. Unit {0})
                o
        both k out rest f (ok outs, e) h = (f, h)
        both k out rest f (err x, e) h = tt

  -- The flags of an episode, for any robot and any reward. From a reset on, the `k`-th step, if no
  -- exception ended the episode before, says that it is truncated exactly when `k` has reached
  -- the limit of the environment, and says that it is terminated whenever the robot's motion was not
  -- a success, whatever the reward function says.
  pub steps-AreFlagged :
      (acts : List (Action F)) (e : FlexivRealEnv F R)
      → e.elapsed ≡ 0
      → Post (λ outs e'. AreFlagged e.max_episode_steps 0 acts outs) (λ e'. Unit {0}) (steps acts e)
  steps-AreFlagged acts e fresh = (steps-Flagged e.max_episode_steps 0 acts).at e (fresh, refl)
