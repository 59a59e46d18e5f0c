-- ===== src/Robot/Gate.antt =====
-- `Robot.execute_cartesian_chunk`: the variables of its loop and the gate on closing commands, which
-- is `_try_fire_close`, the settle window and the branch on `grip`.
use package.flexiv_control.Robot.{Robot, on_backend}
use flexiv_control.Common.{
  ℕ, ◌+◌, ◌/◌, Bool, true, false, not, ◌||◌, ◌&&◌, Option, none, some, List, is_some, nat_max,
  nat_min, leb, if◌then◌else◌,
}
use flexiv_control.Common.Exec.{Exec, return, ◌>>=◌, ◌>>◌}
use flexiv_control.Number.{Number, ◌⊖◌, ◌⊗◌, zero_num}
use flexiv_control.Types.{StopReason, Vec3, Vec6, RobotState, GripperCommand}
use flexiv_control.Transforms.{vec_entries, vec_sub}
use flexiv_control.ActionChunk.{CartesianChunk}
use flexiv_control.Backend.{Backend}
use flexiv_control.Robot.Report.{CloseAborted, TrajectoryRow}

-- What a run is given. `requests k` says that another thread requests a stop before tick `k` tests
-- for one.
pub record Orders (F : Type 0) : Type 0 where
  pub chunk : CartesianChunk F
  pub wrench_cap : Vec6 F
  pub recorded : Bool
  pub requests : ℕ → Bool

-- The local variables. `stopped` is the reason of a result that is no success, and
-- `segment` is the interpolator's `current_segment`.
pub record Run (F : Type 0) : Type 0 where
  pub clipped : Bool
  pub stopped : Option StopReason
  pub max_err : F
  pub max_speed : F
  pub max_wrench : F
  pub prev_pos : Vec3 F
  pub prev_cmd_pos : Option (Vec3 F)
  pub close_aborted : Bool
  pub close_log : Option (CloseAborted F)
  pub close_issued : Bool
  pub pending_close : Option (GripperCommand F × ℕ)
  pub tick_idx : ℕ
  pub segment : ℕ
  pub trajectory : List (TrajectoryRow F)

module _ {F : Type 0} ⦃n : Number F⦄ where
  abbrev pub distance : Vec3 F → Vec3 F → F
  distance a b = n.norm (vec_entries (vec_sub a b))

  abbrev pub tracking_error : Option (Vec3 F) → RobotState F → F
  tracking_error none state = zero_num
  tracking_error (some cmd) state = distance cmd state.tcp_pose.position

  -- A close is pending only for a chunk with a gate.
  abbrev above_gate : F → Option F → Bool
  above_gate e none = false
  above_gate e (some gate) = n.lt gate e

  abbrev pub log_abort : Option F → Run F → Run F
  log_abort e run = if run.close_aborted then run else (record run {
    close_aborted = true;
    close_log = some (record {
      segment = run.segment;
      tracking_error_m = e;
      stopped = run.stopped;
      clipped = run.clipped;
    });
  })

  unfoldable pub is_closing : GripperCommand F → RobotState F → Bool
  is_closing g state =
      g.grasp
      || n.lt (n.lit 1 6) state.gripper_width && n.lt g.width (state.gripper_width ⊖ n.lit 1 3)

  unfoldable pub is_gated : CartesianChunk F → GripperCommand F → Run F → Bool
  is_gated chunk g run = is_some chunk.grip_tracking_gate_m && not (g.grasp && run.close_issued)

  -- `closing and gate_active`
  unfoldable pub is_deferred : CartesianChunk F → RobotState F → GripperCommand F → Run F → Bool
  unfolding is_closing is_gated
  is_deferred chunk state g run = is_closing g state && is_gated chunk g run

  unfoldable pub is_refused : CartesianChunk F → F → Run F → Bool
  is_refused chunk e run =
      run.close_aborted || run.clipped || above_gate e chunk.grip_tracking_gate_m

  unfoldable pub is_due : Run F → Bool
  is_due run = elim run.pending_close [ none ↦ false | some (g, due) ↦ leb due run.tick_idx ]

  -- GRIP_GATE_SETTLE_S is 0.35.
  unfoldable pub settle_ticks : F → ℕ → ℕ
  settle_ticks hz segment_ticks =
      nat_min (n.round_nat (n.lit 35 2 ⊗ hz)) (nat_max 1 (segment_ticks / 2))

  module _ {B : Type 0} (ops : Backend F B) (chunk : CartesianChunk F) where
    unfoldable pub try_fire_close :
        GripperCommand F → RobotState F → Run F → Exec (Robot F B) (Run F)
    unfolding on_backend ◌>>=◌ is_refused
    try_fire_close g state run =
        let e = tracking_error run.prev_cmd_pos state in
        if is_refused chunk e run
        then return (log_abort (some e) run)
        else on_backend (ops.move_gripper g) >>= λ _. return (record run { close_issued = true })

    unfoldable pub resolve :
        Option (GripperCommand F × ℕ) → RobotState F → Run F → Exec (Robot F B) (Run F)
    unfolding try_fire_close
    resolve none state run = return run
    resolve (some (g, due)) state run = try_fire_close g state (record run { pending_close = none })

    -- The pending close, if there is one, is taken and resolved.
    unfoldable pub resolve_pending : RobotState F → Run F → Exec (Robot F B) (Run F)
    unfolding resolve
    resolve_pending state run = resolve run.pending_close state run

    unfoldable pub fire_due : RobotState F → Run F → Exec (Robot F B) (Run F)
    unfolding resolve_pending is_due
    fire_due state run = if is_due run then resolve_pending state run else return run

    -- The branch `if grip is not None`.
    unfoldable pub grip_command :
        F → ℕ → RobotState F → GripperCommand F → Run F → Exec (Robot F B) (Run F)
    unfolding is_closing is_deferred resolve_pending on_backend ◌>>=◌
    grip_command hz segment_ticks state g run =
        if is_deferred chunk state g run
        then if run.close_aborted then return run else (do
          run' ← resolve_pending state run
          return (record run' {
            pending_close = some (g, run'.tick_idx + settle_ticks hz segment_ticks);
          }))
        else (do
          on_backend (ops.move_gripper g)
          return (record run { close_issued = run.close_issued || is_closing g state }))
