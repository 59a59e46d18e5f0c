-- ===== src/Protocol/Outcome.antt =====
-- `result_to_dict` and `result_from_dict`. The log is a free-form dictionary, which both pass on as
-- it is: the JSON value that stands for the entries of a log is a parameter, and the client is left
-- with that value. No method of the robot sets `max_joint_speed`, which is 0.0.
use package.flexiv_control.Protocol.{reason_of, state_to_dict}
use package.flexiv_control.Protocol.Decode.{state_from_dict, none_or}
use package.flexiv_control.Protocol.RoundTrip.{
  reason_of-reason_value, state_from_dict-state_to_dict,
}
use package.flexiv_control.Protocol.Wire.{
  Json, null, boolean, number, text, object, empty, dict, members, find, get_item, get, as_text,
  Builtins, as_float, as_bool,
}
use flexiv_control.Common.{String, Bool, Option, none, some, [], ◌∷◌, ◌≡◌, refl}
use flexiv_control.Common.Result.{Result, ok, ◌>>=◌}
use flexiv_control.Number.{Number, zero_num}
use flexiv_control.Types.{StopReason, reason_value, RobotState}
use flexiv_control.Robot.Report.{ExecutionLog, ExecutionResult}

-- An `ExecutionResult` that came over the wire.
pub record ReceivedResult (F : Type 0) : Type 0 where
  pub success : Bool
  pub clipped : Bool
  pub stop_reason : StopReason
  pub executed_duration : F
  pub path_tracking_error : F
  pub max_tcp_speed : F
  pub max_joint_speed : F
  pub max_wrench : F
  pub gripper_width_final : F
  pub final_state : Option (RobotState F)
  pub log : Json F

module _ {F : Type 0} ⦃n : Number F⦄ where
  abbrev state_or_null : Option (RobotState F) → Json F
  state_or_null none = null
  state_or_null (some s) = state_to_dict s

  unfoldable pub result_to_dict : (ExecutionLog F → Json F) → ExecutionResult F → Json F
  result_to_dict logs r = dict (
      ("success", boolean r.success)
      ∷ ("clipped", boolean r.clipped)
      ∷ ("stop_reason", text (reason_value r.stop_reason))
      ∷ ("executed_duration", number r.executed_duration)
      ∷ ("path_tracking_error", number r.path_tracking_error)
      ∷ ("max_tcp_speed", number r.max_tcp_speed)
      ∷ ("max_joint_speed", number zero_num)
      ∷ ("max_wrench", number r.max_wrench)
      ∷ ("gripper_width_final", number r.gripper_width_final)
      ∷ ("final_state", state_or_null r.final_state)
      ∷ ("log", logs r.log)
      ∷ [])

  -- What is left of a result at the other end.
  abbrev pub received : (ExecutionLog F → Json F) → ExecutionResult F → ReceivedResult F
  received logs r = record {
    success = r.success;
    clipped = r.clipped;
    stop_reason = r.stop_reason;
    executed_duration = r.executed_duration;
    path_tracking_error = r.path_tracking_error;
    max_tcp_speed = r.max_tcp_speed;
    max_joint_speed = zero_num;
    max_wrench = r.max_wrench;
    gripper_width_final = r.gripper_width_final;
    final_state = r.final_state;
    log = logs r.log;
  }

  module _ (py : Builtins F) where
    -- float(d.get(k, 0.0))
    abbrev figure : String → Json F → Result F
    figure k d = get k (number zero_num) d >>= as_float py

    unfoldable pub result_from_dict : Json F → Result (ReceivedResult F)
    result_from_dict d = do
      final ← get "final_state" null d
      success ← get_item "success" d
      clipped ← get "clipped" (boolean Bool.false) d
      reason ← get "stop_reason" (text "none") d >>= as_text >>= reason_of
      executed ← figure "executed_duration" d
      tracking ← figure "path_tracking_error" d
      tcp_speed ← figure "max_tcp_speed" d
      joint_speed ← figure "max_joint_speed" d
      wrench ← figure "max_wrench" d
      width ← figure "gripper_width_final" d
      state ← none_or py (state_from_dict py) final
      log ← get "log" (object empty) d
      ok (record {
        success = as_bool success;
        clipped = as_bool clipped;
        stop_reason = reason;
        executed_duration = executed;
        path_tracking_error = tracking;
        max_tcp_speed = tcp_speed;
        max_joint_speed = joint_speed;
        max_wrench = wrench;
        gripper_width_final = width;
        final_state = state;
        log = log;
      })

    none_or-sent :
        (s : RobotState F)
        → none_or py (state_from_dict py) (state_to_dict s)
          ≡ (state_from_dict py (state_to_dict s) >>= λ v. ok (some v))
    unfolding none_or state_to_dict
    none_or-sent s = refl

    none_or-state :
        (s : Option (RobotState F)) → none_or py (state_from_dict py) (state_or_null s) ≡ ok s
    unfolding none_or
    none_or-state none = refl
    none_or-state (some s) = rw (none_or-sent s, state_from_dict-state_to_dict py s) refl

    -- A result that the server sends is the result that the client reads.
    pub result_from_dict-result_to_dict :
        (logs : ExecutionLog F → Json F) (r : ExecutionResult F)
        → result_from_dict (result_to_dict logs r) ≡ ok (received logs r)
    unfolding result_from_dict result_to_dict get get_item members find as_float as_text as_bool
    result_from_dict-result_to_dict logs r = simp (reason_of-reason_value, none_or-state) refl
