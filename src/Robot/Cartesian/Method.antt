-- ===== src/Robot/Cartesian/Method.antt =====
-- `Robot.execute_cartesian_chunk` around its loop: the entry, the envelope, the close that is still
-- pending after the loop, the `finally` clause and the result.
use package.flexiv_control.Robot.{
  Robot, on_backend, check_lease, take_cancel, verify_chunk_profile, reset_filter, get_state,
  start_cartesian_impedance,
}
use package.flexiv_control.Robot.Gate.{Orders, Run, try_fire_close}
use package.flexiv_control.Robot.Cartesian.{run_ticks}
use flexiv_control.Common.{
  ℕ, Bool, true, false, not, ◌||◌, ◌&&◌, Option, none, some, [], is_some, get_or_else,
  if◌then◌else◌,
}
use flexiv_control.Common.Result.{Result, ok, err, chunk_stopped}
use flexiv_control.Common.Exec.{Exec, return, raise, attempt, gets, ◌>>=◌, ◌>>◌}
use flexiv_control.Number.{Number, ◌⊖◌, zero_num, num_min}
use flexiv_control.Types.{StopReason, is_cartesian, Vec6, RobotState, GripperCommand}
use flexiv_control.Transforms.{vec3}
use flexiv_control.Safety.Profile.{SafetyProfile}
use flexiv_control.ActionChunk.{CartesianChunk, for_execution}
use flexiv_control.Interpolation.{setpoints}
use flexiv_control.Backend.{Backend}
use flexiv_control.Robot.Report.{ExecutionResult, empty_log, result_of}

-- What is fixed before the loop.
pub record Envelope (F : Type 0) : Type 0 where
  pub linear_speed_cap : F
  pub angular_speed_cap : F
  pub allow : Option (Vec6 F)
  pub wrench_cap : Vec6 F

module _ {F : Type 0} ⦃n : Number F⦄ where
  abbrev vec6_with : (F → F → F) → Vec6 F → Vec6 F → Vec6 F
  vec6_with f a b = record {
    linear = vec3 (f a.linear.x b.linear.x) (f a.linear.y b.linear.y) (f a.linear.z b.linear.z);
    angular =
        vec3 (f a.angular.x b.angular.x) (f a.angular.y b.angular.y) (f a.angular.z b.angular.z);
  }

  abbrev any_positive : Vec6 F → Bool
  any_positive v =
      n.lt zero_num v.linear.x
      || n.lt zero_num v.linear.y
      || n.lt zero_num v.linear.z
      || n.lt zero_num v.angular.x
      || n.lt zero_num v.angular.y
      || n.lt zero_num v.angular.z

  -- A cap of a chunk tightens the profile's, if it is set.
  abbrev tightened : F → F → F
  tightened cap limit = if n.lt zero_num limit then num_min cap limit else cap

  abbrev granted_of : SafetyProfile F → Option (Vec6 F) → Option (Vec6 F)
  granted_of p none = none
  granted_of p (some request) =
      let allow = vec6_with num_min request p.max_wrench_allowance in
      if any_positive allow then some allow else none

  -- The headroom that is granted, when it relaxes the wrench cap.
  unfoldable pub granted : SafetyProfile F → CartesianChunk F → Option (Vec6 F)
  granted p chunk = granted_of p chunk.contact_wrench_allowance

  abbrev raised : Vec6 F → Option (Vec6 F) → Vec6 F
  raised cap none = cap
  raised cap (some allow) = vec6_with n.add cap allow

  abbrev lowered : Vec6 F → Option (Vec6 F) → Vec6 F
  lowered cap none = cap
  lowered cap (some limit) = vec6_with num_min cap limit

  unfoldable pub envelope_of : SafetyProfile F → CartesianChunk F → Envelope F
  unfolding granted
  envelope_of p chunk = record {
    linear_speed_cap = tightened p.max_linear_speed chunk.max_tcp_linear_speed;
    angular_speed_cap = tightened p.max_angular_speed chunk.max_tcp_angular_speed;
    allow = granted p chunk;
    wrench_cap = lowered (raised p.max_contact_wrench (granted p chunk)) chunk.max_contact_wrench;
  }

  unfoldable pub first_run : RobotState F → Run F
  first_run start = record {
    clipped = false;
    stopped = none;
    max_err = zero_num;
    max_speed = zero_num;
    max_wrench = zero_num;
    prev_pos = start.tcp_pose.position;
    prev_cmd_pos = none;
    close_aborted = false;
    close_log = none;
    close_issued = false;
    pending_close = none;
    tick_idx = 0;
    segment = 0;
    trajectory = [];
  }

  abbrev stopped_close : Run F → Run F
  stopped_close run = if run.close_aborted then run else (record run {
    close_aborted = true;
    close_log = some (record {
      segment = run.segment;
      tracking_error_m = none;
      stopped = run.stopped;
      clipped = run.clipped;
    });
  })

  module _ {B : Type 0} (ops : Backend F B) where
    unfoldable pub settle :
        CartesianChunk F
        → Option (GripperCommand F × ℕ)
        → Option StopReason
        → Run F
        → Exec (Robot F B) (Run F)
    unfolding ◌>>=◌ get_state try_fire_close
    settle chunk none stopped run = return run
    settle chunk (some (g, due)) none run = get_state ops >>= λ state.
        try_fire_close ops chunk g state (record run { pending_close = none })
    settle chunk (some (g, due)) (some reason) run =
        return (stopped_close (record run { pending_close = none }))

    -- A close that is pending after the loop is resolved, or given up when the run was stopped.
    unfoldable pub settle_pending : CartesianChunk F → Run F → Exec (Robot F B) (Run F)
    unfolding settle
    settle_pending chunk run = settle chunk run.pending_close run.stopped run

    abbrev failed {ℓ} : {A : Type ℓ} → Result A → Bool
    failed (ok a) = false
    failed (err e) = true

    -- The `finally` clause: whether the restore of the firmware's limit failed, which is no error.
    unfoldable pub restore_limit : Bool → Exec (Robot F B) Bool
    unfolding on_backend
    restore_limit relaxed r =
        if relaxed
        then (let (a, r') =
              on_backend (ops.set_contact_wrench_limit r.profile.max_contact_wrench) r in
            (ok (failed a), r'))
        else (ok false, r)

    -- `try: body finally: cleanup`, for a clean-up that does not raise.
    unfoldable pub finally :
        {A C : Type 0} → Exec (Robot F B) A → Exec (Robot F B) C → Exec (Robot F B) (A × C)
    unfolding ◌>>=◌
    finally body cleanup r =
        let (a, r') = body r in (cleanup >>= λ c. attempt a >>= λ v. return (v, c)) r'

    unfoldable pub arm_limit : Envelope F → Exec (Robot F B) (Unit {0})
    unfolding on_backend
    arm_limit e =
        if is_some e.allow
        then on_backend (ops.set_contact_wrench_limit e.wrench_cap)
        else return tt

    unfoldable pub run_chunk :
        CartesianChunk F
        → Envelope F
        → Bool
        → (ℕ → Bool)
        → RobotState F
        → Exec (Robot F B) (Run F × Bool)
    unfolding ◌>>=◌ arm_limit restore_limit finally settle_pending run_ticks setpoints
    run_chunk chunk e recorded requests start = do
      hz ← gets (λ r. r.control_hz)
      let ticks =
          setpoints
            (record {
              hz = hz;
              max_linear_speed = some e.linear_speed_cap;
              max_angular_speed = some e.angular_speed_cap;
            })
            chunk start.tcp_pose
      arm_limit e
      let orders : Orders F = record {
        chunk = chunk;
        wrench_cap = e.wrench_cap;
        recorded = recorded;
        requests = requests;
      }
      finally (run_ticks ops orders ticks (first_run start) >>= λ run. settle_pending chunk run)
          (restore_limit (is_some e.allow))

    -- A stop that was pending at entry.
    unfoldable pub aborted_at_entry : Exec (Robot F B) (ExecutionResult F)
    unfolding ◌>>=◌ get_state
    aborted_at_entry = do
      state ← get_state ops
      let res = result_of false StopReason.user
      return (record res {
        final_state = some state;
        log = record empty_log { aborted_at_entry = true };
      })

    -- The state that the chunk starts from, and whether the mode was started for it.
    unfoldable pub started : CartesianChunk F → Exec (Robot F B) (RobotState F × Bool)
    unfolding ◌>>=◌ get_state start_cartesian_impedance
    started chunk = do
      state ← get_state ops
      if is_cartesian state.control_mode then return (state, false) else (do
        start_cartesian_impedance ops (some chunk.impedance) false none none
        state' ← get_state ops
        return (state', true))

    abbrev stopped_at : Run F → Option ℕ
    stopped_at run = elim run.stopped [ none ↦ none | some reason ↦ some run.segment ]

    unfoldable pub report :
        CartesianChunk F
        → SafetyProfile F
        → Envelope F
        → Bool
        → RobotState F
        → RobotState F
        → Run F × Bool
        → ExecutionResult F
    report chunk p e autostarted start end (run, restore_failed) = record {
      success = not (is_some run.stopped);
      clipped = run.clipped;
      stop_reason = get_or_else StopReason.nothing run.stopped;
      executed_duration = end.stamp ⊖ start.stamp;
      path_tracking_error = run.max_err;
      max_tcp_speed = run.max_speed;
      max_wrench = run.max_wrench;
      gripper_width_final = end.gripper_width;
      final_state = some end;
      log = record {
        requested_profile = chunk.safety_profile;
        active_profile = p.name;
        aborted_at_entry = false;
        mode_autostarted = autostarted;
        linear_speed_cap = some e.linear_speed_cap;
        angular_speed_cap = some e.angular_speed_cap;
        contact_wrench_allowance = e.allow;
        close_aborted = run.close_log;
        wrench_restore_failed = restore_failed;
        trajectory = run.trajectory;
        stopped_at_waypoint = stopped_at run;
      };
    }

    unfoldable pub executed :
        CartesianChunk F → Bool → (ℕ → Bool) → Exec (Robot F B) (ExecutionResult F)
    unfolding ◌>>=◌ get_state verify_chunk_profile started reset_filter for_execution envelope_of
        run_chunk report
    executed chunk recorded requests = do
      verify_chunk_profile chunk.safety_profile
      (start, autostarted) ← started chunk
      reset_filter start
      sliced ← attempt (for_execution chunk start.tcp_pose)
      p ← gets (λ r. r.profile)
      let e = envelope_of p sliced
      out ← run_chunk sliced e recorded requests start
      end ← get_state ops
      return (report chunk p e autostarted start end out)

    unfoldable pub raised_if : Bool → ExecutionResult F → Exec (Robot F B) (ExecutionResult F)
    raised_if raise_on_stop res =
        if raise_on_stop && not res.success then raise chunk_stopped else return res

    -- `execute_cartesian_chunk(chunk, raise_on_stop=..., record=...)`
    unfoldable pub execute_cartesian_chunk :
        CartesianChunk F
        → (raise_on_stop recorded : Bool) → (ℕ → Bool)
        → Exec (Robot F B) (ExecutionResult F)
    unfolding ◌>>=◌ check_lease take_cancel aborted_at_entry executed raised_if
    execute_cartesian_chunk chunk raise_on_stop recorded requests = do
      check_lease
      cancelled ← take_cancel false
      res ← (if cancelled then aborted_at_entry else executed chunk recorded requests)
      raised_if raise_on_stop res
