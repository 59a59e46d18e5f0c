-- ===== src/Robot/Cartesian.antt =====
-- `Robot.execute_cartesian_chunk`: the body of its loop, the loop, and the method.
pub mod Rule
pub mod Entry
pub mod Box
pub mod Limit
pub mod Hardware
pub mod Method
use package.flexiv_control.Robot.{Robot, on_backend, take_cancel, run_filter, get_state}
use package.flexiv_control.Robot.Gate.{Orders, Run, distance, fire_due, grip_command}
use flexiv_control.Common.{
  ℕ, ◌+◌, Bool, true, false, not, ◌||◌, Option, none, some, List, [], ◌∷◌, ◌++◌, if◌then◌else◌,
}
use flexiv_control.Common.Result.{runtime_error}
use flexiv_control.Common.Exec.{Exec, return, raise, ◌>>=◌, ◌>>◌}
use flexiv_control.Number.{Number, ◌⊘◌, num_max}
use flexiv_control.Types.{
  StopReason, Vec3, Vec6, Pose, RobotState, ForceControlParams, GripperCommand,
}
use flexiv_control.Safety.Profile.{SafetyResult}
use flexiv_control.Safety.Cartesian.Stages.{exceeds}
use flexiv_control.ActionChunk.{CartesianChunk}
use flexiv_control.Interpolation.{Tick}
use flexiv_control.Backend.{Backend}
use flexiv_control.Robot.Report.{TrajectoryRow}

abbrev any_axis : Vec6 Bool → Bool
any_axis v = v.linear.x || v.linear.y || v.linear.z || v.angular.x || v.angular.y || v.angular.z

module _ {F : Type 0} ⦃n : Number F⦄ where
  abbrev target_if_enabled : Option (ForceControlParams F) → Option (Vec6 F)
  target_if_enabled none = none
  target_if_enabled (some c) = if any_axis c.enabled_axes then some c.target_wrench else none

  unfoldable pub chunk_wrench : CartesianChunk F → Option (Vec6 F)
  chunk_wrench chunk = target_if_enabled chunk.force_control

  -- np.max(np.abs(wrench))
  max_abs : Vec6 F → F
  max_abs w =
      num_max
        (num_max
          (num_max (num_max (num_max (n.abs w.linear.x) (n.abs w.linear.y)) (n.abs w.linear.z))
            (n.abs w.angular.x))
          (n.abs w.angular.y))
        (n.abs w.angular.z)

  abbrev lag_max : F → Option (Vec3 F) → RobotState F → F
  lag_max m none state = m
  lag_max m (some cmd) state = num_max m (distance cmd state.tcp_pose.position)

  abbrev row_if : Bool → Pose F → RobotState F → List (TrajectoryRow F)
  row_if recorded pose state =
      if recorded
      then record { pose_cmd = pose; pose_meas = state.tcp_pose; wrench = state.wrench } ∷ []
      else []

  -- The trajectory row and the bookkeeping at the end of the body.
  unfoldable pub noted : Bool → F → Pose F → RobotState F → Run F → Run F
  unfolding max_abs
  noted recorded dt pose state run = record run {
    trajectory = run.trajectory ++ row_if recorded pose state;
    max_err = lag_max run.max_err run.prev_cmd_pos state;
    max_speed = num_max run.max_speed (distance state.tcp_pose.position run.prev_pos ⊘ dt);
    max_wrench = num_max run.max_wrench (max_abs state.wrench);
    prev_pos = state.tcp_pose.position;
    prev_cmd_pos = some pose.position;
  }

  module _ {B : Type 0} (ops : Backend F B) (o : Orders F) where
    -- The stop of the backend, and the `break` with its reason.
    unfoldable pub halt : StopReason → Run F → Exec (Robot F B) (Run F)
    unfolding on_backend ◌>>=◌
    halt reason run = do on_backend ops.stop; return (record run { stopped = some reason })

    unfoldable pub grip_if :
        F → Tick F → RobotState F → Option (GripperCommand F) → Run F → Exec (Robot F B) (Run F)
    unfolding grip_command
    grip_if hz t state none run = return run
    grip_if hz t state (some g) run = grip_command ops o.chunk hz t.segment_ticks state g run

    -- The body from `stream_cartesian` on.
    unfoldable pub follow : Tick F → RobotState F → Pose F → Run F → Exec (Robot F B) (Run F)
    unfolding on_backend ◌>>=◌ chunk_wrench fire_due grip_if noted
    follow t state pose run = do
      on_backend (ops.stream_cartesian pose (chunk_wrench o.chunk))
      run1 ← fire_due ops o.chunk state run
      run2 ← λ r. grip_if r.control_hz t state t.grip run1 r
      λ r. return (noted o.recorded r.dt pose state run2) r

    -- An accepted result has a pose.
    unfoldable pub obey : Tick F → RobotState F → SafetyResult F → Run F → Exec (Robot F B) (Run F)
    unfolding halt follow
    obey t state sr run = if not sr.ok then halt sr.reason run else elim sr.pose [
      | none ↦ raise runtime_error
      | some pose ↦ follow t state pose (record run { clipped = run.clipped || sr.clipped })
    ]

    -- The gates on the robot's fault and on the contact wrench, and the filter.
    unfoldable pub guarded : Tick F → Run F → Exec (Robot F B) (Run F)
    unfolding ◌>>=◌ on_backend get_state run_filter halt obey
    guarded t run = do
      state ← get_state ops
      fault ← on_backend ops.in_fault
      if fault
          then halt StopReason.backend_fault run
          else if exceeds state.wrench o.wrench_cap
          then halt StopReason.contact_wrench run
          else (do sr ← run_filter t.pose state o.wrench_cap; obey t state sr run)

    unfoldable pub tick : Tick F → Run F → Exec (Robot F B) (Run F)
    unfolding ◌>>=◌ take_cancel halt guarded
    tick t run =
        let run' = record run { tick_idx = run.tick_idx + 1; segment = t.segment } in
        do
          cancelled ← take_cancel (o.requests (run.tick_idx + 1))
          if cancelled then halt StopReason.user run' else guarded t run'

    -- `for pose, grip in interp`, which a `break` leaves.
    unfoldable pub run_ticks : List (Tick F) → Run F → Exec (Robot F B) (Run F)
    unfolding ◌>>=◌ tick
    run_ticks [] run = return run
    run_ticks (t ∷ ts) run = do
      run' ← tick t run
      elim run'.stopped [ none ↦ run_ticks ts run' | some reason ↦ return run' ]
