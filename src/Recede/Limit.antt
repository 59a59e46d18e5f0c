-- ===== src/Recede/Limit.antt =====
-- The number of cycles of the loop of `run`.
use package.flexiv_control.Recede.{
  Runner, Callbacks, Steps, finished, unfinished, has_more, observation, proceed, run_from, run,
}
use flexiv_control.Common.{ℕ, zero, suc, ◌+◌, ◌<◌, ◌≤◌, ◌≡◌, false, not, Option, none, some, arith}
use flexiv_control.Common.Exec.{Exec, Post, Hoare, Hoare-bind, Hoare-return, Hoare-if, return}
use flexiv_control.Number.{Number}
use flexiv_control.ActionChunk.{CartesianChunk}
use flexiv_control.Backend.{Backend}
use flexiv_control.Robot.{Robot}
use flexiv_control.Robot.Gripper.{anything}
use flexiv_control.Robot.Cartesian.Method.{execute_cartesian_chunk}

-- The loop came to its end, after `m` chunks at most.
abbrev pub Within : ℕ → Steps → Type 0
Within m (finished steps) = steps ≤ m
Within m (unfinished steps) = ⊥

module _ {F : Type 0} ⦃n : Number F⦄ {B O : Type 0} (ops : Backend F B) (runner : Runner F O)
    (calls : Callbacks F) (m : ℕ) where
  abbrev Ends : Exec (Robot F B) Steps → Type 0
  Ends loop = Hoare (λ r. Unit) loop (λ s r. Within m s) (λ r. Unit)

  done : (steps : ℕ) → steps ≤ m → Ends (return (finished steps))
  done steps few = Hoare-return (finished steps) λ r i. few

  proceed-Within :
      (steps : ℕ) (again : ℕ → Exec (Robot F B) Steps) (chunk : Option (CartesianChunk F))
      → steps < m
      → Ends (again (steps + 1))
      → Ends (proceed ops runner calls steps again chunk)
  unfolding proceed
  proceed-Within steps again none few rest = done steps (omega arith)
  proceed-Within steps again (some chunk) few rest =
      Hoare-if (not (calls.approves (steps + 1) chunk)) _ _ (λ h. done steps (omega arith))
        λ h.
          Hoare-bind _ _
            (anything (execute_cartesian_chunk ops chunk false false (calls.requests steps)))
            λ result.
              Hoare-if (calls.ends (steps + 1) chunk result) _ _
                (λ h. done (steps + 1) (omega arith)) λ h. rest

  run_from-Within :
      (fuel steps : ℕ)
      → runner.max_steps ≡ some m
      → steps ≤ m
      → m < steps + fuel
      → Ends (run_from ops runner calls fuel steps)
  unfolding run_from
  run_from-Within zero steps limit few enough = absurd (omega arith)
  run_from-Within (suc fuel) steps limit few enough =
      Hoare-if (has_more runner.max_steps steps) _ _
        (λ more.
          let under : steps < m = ground (arith, limit, more) in
          Hoare-bind _ _ (anything (observation ops runner runner.observe steps)) λ obs.
            proceed-Within steps (run_from ops runner calls fuel) (runner.policy steps obs) under
              (run_from-Within fuel (steps + 1) limit (omega arith) (omega arith)))
        λ h. done steps few

  -- With `max_steps` set, `run` that raises nothing ends, whatever the policy and the operator do, and
  -- has executed no more chunks than that; fuel for one cycle more is enough.
  pub run-Within :
      (fuel : ℕ) (r : Robot F B)
      → runner.max_steps ≡ some m
      → m < fuel
      → Post (λ s r'. Within m s) (λ r'. Unit) (run ops runner calls fuel r)
  unfolding run
  run-Within fuel r limit enough =
      (run_from-Within fuel 0 limit (omega arith) (omega arith)).at r tt
