-- ===== src/Robot/Joint.antt =====
-- `Robot.execute_joint_chunk`: the body of its loop, the loop, and the method.
pub mod Answers
pub mod Streamed
pub mod Entry
use package.flexiv_control.Robot.{
  Robot, on_backend, check_lease, take_cancel, verify_chunk_profile, reset_filter, get_state,
  start_joint_impedance,
}
use flexiv_control.Common.{
  ℕ, ◌+◌, Bool, true, false, not, ◌||◌, Option, none, some, List, [], ◌∷◌, is_some, get_or_else,
  if◌then◌else◌,
}
use flexiv_control.Common.Result.{runtime_error, chunk_stopped, ok}
use flexiv_control.Common.Exec.{Exec, return, raise, gets, ◌>>=◌, ◌>>◌}
use flexiv_control.Number.{Number, ◌⊗◌}
use flexiv_control.Types.{StopReason, is_cartesian, is_idle, RobotState}
use flexiv_control.Safety.Profile.{SafetyResult}
use flexiv_control.Safety.Cartesian.Stages.{exceeds}
use flexiv_control.Safety.Joint.{filter_joint}
use flexiv_control.ActionChunk.{JointChunk}
use flexiv_control.Interpolation.Joints.{joint_setpoints}
use flexiv_control.Backend.{Backend}
use flexiv_control.Robot.Report.{ExecutionResult, empty_log, result_of}
use flexiv_control.Robot.Cartesian.Method.{aborted_at_entry, raised_if}

-- The local variables of the loop. `stopped` is the reason of a result that is no success, and
-- `tick_idx` counts the setpoints taken.
pub record JointRun : Type 0 where
  pub clipped : Bool
  pub stopped : Option StopReason
  pub tick_idx : ℕ

abbrev pub first_joint_run : JointRun
first_joint_run = record { clipped = false; stopped = none; tick_idx = 0 }

module _ {F : Type 0} ⦃n : Number F⦄ {B : Type 0} where
  unfoldable pub run_joint_filter : List F → RobotState F → Exec (Robot F B) (SafetyResult F)
  run_joint_filter q state r =
      let (sr, f) = filter_joint q state r.filter in (ok sr, record r { filter = f })

  module _ (ops : Backend F B) where
    unfoldable pub halt : StopReason → JointRun → Exec (Robot F B) JointRun
    unfolding on_backend ◌>>=◌
    halt reason run = do on_backend ops.stop; return (record run { stopped = some reason })

    -- An accepted result has joints.
    unfoldable pub obey : SafetyResult F → JointRun → Exec (Robot F B) JointRun
    unfolding halt on_backend ◌>>=◌
    obey sr run = if not sr.ok then halt sr.reason run else elim sr.q [
      | none ↦ raise runtime_error
      | some q ↦ on_backend (ops.stream_joint q) >>= λ _.
          return (record run { clipped = run.clipped || sr.clipped })
    ]

    -- The gates on the robot's fault and on the contact wrench, and the filter.
    unfoldable pub guarded : List F → JointRun → Exec (Robot F B) JointRun
    unfolding ◌>>=◌ on_backend get_state run_joint_filter halt obey
    guarded q run = do
      state ← get_state ops
      fault ← on_backend ops.in_fault
      cap ← gets (λ r. r.profile.max_contact_wrench)
      if fault
          then halt StopReason.backend_fault run
          else if exceeds state.wrench cap
          then halt StopReason.contact_wrench run
          else (do sr ← run_joint_filter q state; obey sr run)

    -- `requests k` says that another thread requests a stop before setpoint `k` is taken.
    unfoldable pub tick : (ℕ → Bool) → List F → JointRun → Exec (Robot F B) JointRun
    unfolding ◌>>=◌ take_cancel halt guarded
    tick requests q run =
        let run' = record run { tick_idx = run.tick_idx + 1 } in
        do
          cancelled ← take_cancel (requests (run.tick_idx + 1))
          if cancelled then halt StopReason.user run' else guarded q run'

    -- `for q in interp`, which a `break` leaves.
    unfoldable pub run_joints : (ℕ → Bool) → List (List F) → JointRun → Exec (Robot F B) JointRun
    unfolding ◌>>=◌ tick
    run_joints requests [] run = return run
    run_joints requests (q ∷ qs) run = do
      run' ← tick requests q run
      elim run'.stopped [ none ↦ run_joints requests qs run' | some reason ↦ return run' ]

    -- The state that the chunk starts from, and whether the mode was started for it.
    unfoldable pub started : Exec (Robot F B) (RobotState F × Bool)
    unfolding ◌>>=◌ get_state start_joint_impedance
    started = do
      state ← get_state ops
      if is_cartesian state.control_mode || is_idle state.control_mode
          then (do
            start_joint_impedance ops none false
            state' ← get_state ops
            return {A = RobotState F × Bool} (state', true))
          else return (state, false)

    unfoldable pub executed : JointChunk F → (ℕ → Bool) → Exec (Robot F B) (ExecutionResult F)
    unfolding ◌>>=◌ get_state verify_chunk_profile started reset_filter joint_setpoints run_joints
    executed chunk requests = do
      verify_chunk_profile chunk.safety_profile
      (start, autostarted) ← started
      reset_filter start
      r ← gets (λ r. r)
      let cap = n.of_nat 2 ⊗ r.profile.max_joint_speed_scale
      run ←
          run_joints requests (joint_setpoints r.control_hz (some cap) start.q chunk.waypoints)
            first_joint_run
      end ← get_state ops
      let res = result_of (not (is_some run.stopped)) (get_or_else StopReason.nothing run.stopped)
      return (record res {
        clipped = run.clipped;
        final_state = some end;
        log = record empty_log {
          requested_profile = chunk.safety_profile;
          active_profile = r.profile.name;
          mode_autostarted = autostarted;
        };
      })

    -- `execute_joint_chunk(chunk, raise_on_stop=...)`
    unfoldable pub execute_joint_chunk :
        JointChunk F → (raise_on_stop : Bool) → (ℕ → Bool) → Exec (Robot F B) (ExecutionResult F)
    unfolding ◌>>=◌ check_lease take_cancel aborted_at_entry executed raised_if
    execute_joint_chunk chunk raise_on_stop requests = do
      check_lease
      cancelled ← take_cancel false
      res ← (if cancelled then aborted_at_entry ops else executed chunk requests)
      raised_if ops raise_on_stop res
