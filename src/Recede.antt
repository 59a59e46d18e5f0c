-- ===== src/Recede.antt =====
-- src/flexiv_control/recede.py: `RecedingHorizonRunner`. The policy, the observations and the callbacks
-- are the caller's, and may answer differently at each cycle `k`. Both loops run on fuel.
pub mod Limit
use flexiv_control.Common.{
  ℕ, zero, suc, ◌+◌, ltb, Bool, true, false, not, Option, none, some, if◌then◌else◌,
}
use flexiv_control.Common.Exec.{Exec, return, ◌>>=◌, ◌>>◌}
use flexiv_control.Number.{Number}
use flexiv_control.Types.{RobotState}
use flexiv_control.ActionChunk.{CartesianChunk}
use flexiv_control.Backend.{Backend}
use flexiv_control.Robot.{Robot, get_state}
use flexiv_control.Robot.Report.{ExecutionResult}
use flexiv_control.Robot.Cartesian.Method.{execute_cartesian_chunk}
use flexiv_control.ServoLoop.{ServoLoop, enqueue_chunk}
use flexiv_control.ServoLoop

-- What the policy is given: the robot's state, or what `observe` returned.
pub data Observation (F O : Type 0) : Type 0 where
  state : RobotState F → Observation F O
  observed : O → Observation F O

pub record Runner (F O : Type 0) : Type 0 where
  pub policy : ℕ → Observation F O → Option (CartesianChunk F)
  pub max_steps : Option ℕ
  pub observe : Option (ℕ → O)

-- The callbacks of `run`: whether the operator lets a chunk pass, and whether `on_step` returned
-- `False`. `requests` are the stop requests during each chunk.
pub record Callbacks (F : Type 0) : Type 0 where
  pub approves : ℕ → CartesianChunk F → Bool
  pub ends : ℕ → CartesianChunk F → ExecutionResult F → Bool
  pub requests : ℕ → ℕ → Bool

-- The readings at each cycle of `run_streaming`: the time, and the loop's own of its period.
pub record Clock (F : Type 0) : Type 0 where
  pub now : ℕ → F
  pub period : ℕ → F
  pub jitter : ℕ → F
  pub missed : ℕ → ℕ

-- The number of chunks that were executed, or the number when the fuel ran out.
pub data Steps : Type 0 where
  finished unfinished : ℕ → Steps

-- `self.max_steps is None or steps < self.max_steps`
abbrev pub has_more : Option ℕ → ℕ → Bool
has_more none steps = true
has_more (some m) steps = ltb steps m

module _ {F : Type 0} ⦃n : Number F⦄ {B O : Type 0} (ops : Backend F B) (runner : Runner F O) where
  abbrev observation : Option (ℕ → O) → ℕ → Exec (Robot F B) (Observation F O)
  observation none k = get_state ops >>= λ s. return (Observation.state s)
  observation (some observe) k = return (Observation.observed (observe k))

  -- What a cycle does with the policy's chunk, and the rest of the loop.
  unfoldable pub proceed :
      Callbacks F
      → ℕ
      → (ℕ → Exec (Robot F B) Steps)
      → Option (CartesianChunk F)
      → Exec (Robot F B) Steps
  proceed calls steps again none = return (finished steps)
  proceed calls steps again (some chunk) =
      if not (calls.approves (steps + 1) chunk)
      then return (finished steps)
      else execute_cartesian_chunk ops chunk false false (calls.requests steps) >>= λ result.
          if calls.ends (steps + 1) chunk result
          then return (finished (steps + 1))
          else again (steps + 1)

  unfoldable pub run_from : Callbacks F → ℕ → ℕ → Exec (Robot F B) Steps
  unfolding proceed
  run_from calls zero steps = return (unfinished steps)
  run_from calls (suc fuel) steps =
      let again = run_from calls fuel in
      if has_more runner.max_steps steps
      then (observation runner.observe steps >>= λ obs.
          proceed calls steps again (runner.policy steps obs))
      else return (finished steps)

  unfoldable pub run : Callbacks F → ℕ → Exec (Robot F B) Steps
  unfolding run_from
  run calls fuel = run_from calls fuel 0

  -- A cycle of `run_streaming`, at a time.
  unfoldable pub enqueue :
      F
      → ℕ
      → (ℕ → Exec (ServoLoop F B) Steps)
      → Option (CartesianChunk F)
      → Exec (ServoLoop F B) Steps
  enqueue now steps again none = return (finished steps)
  enqueue now steps again (some chunk) = enqueue_chunk ops chunk now >>= λ u. again (steps + 1)

  unfoldable pub run_streaming_from : Clock F → ℕ → ℕ → Exec (ServoLoop F B) Steps
  unfolding enqueue
  run_streaming_from clock zero steps = return (unfinished steps)
  run_streaming_from clock (suc fuel) steps =
      let again = run_streaming_from clock fuel in
      if has_more runner.max_steps steps
      then (ServoLoop.get_state ops (clock.period steps) (clock.jitter steps) (clock.missed steps)
          >>= λ s.
              enqueue (clock.now steps) steps again (runner.policy steps (Observation.state s)))
      else return (finished steps)

  unfoldable pub run_streaming : Clock F → ℕ → Exec (ServoLoop F B) Steps
  unfolding run_streaming_from
  run_streaming clock fuel = run_streaming_from clock fuel 0
