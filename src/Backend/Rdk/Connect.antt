-- ===== src/Backend/Rdk/Connect.antt =====
-- `connect` and `zero_ft_sensor` of the hardware backend. A loop that polls with a time limit takes
-- the readings of the clock since its start as a list; past the end of the list its time is up.
use package.flexiv_control.Backend.Rdk.{Command, Sdk, FlexivRdk, on_sdk, attach}
use flexiv_control.Common.{
  ℕ, String, Bool, true, false, not, ◌&&◌, ◌==◌, str_eq, Option, none, some, List, [], ◌∷◌, length,
  if◌then◌else◌,
}
use flexiv_control.Common.Result.{Error, value_error, runtime_error, timeout_error}
use flexiv_control.Common.Exec.{Exec, return, raise, gets, modify, recover, catching, ◌>>=◌, ◌>>◌}
use flexiv_control.Number.{Number}
use flexiv_control.Types.{ControlMode}

module _ {F V : Type 0} ⦃n : Number F⦄ (sdk : Sdk F V) where
  unfoldable pub clear_fault : Exec (FlexivRdk F V) (Unit {0})
  clear_fault = do
    faulted ← if sdk.has_fault then on_sdk sdk.fault else return false
    if faulted
        then (do
          cleared ← on_sdk sdk.clear_fault
          if cleared then return tt else raise runtime_error)
        else return tt

  unfoldable pub wait_operational : List F → Exec (FlexivRdk F V) (Unit {0})
  wait_operational [] = raise timeout_error
  wait_operational (elapsed ∷ rest) = do
    up ← on_sdk sdk.operational
    if up
        then return tt
        else (if n.lt (n.of_nat 10) elapsed then raise timeout_error else wait_operational rest)

  -- The joints as the robot reports them, unless it reports none.
  abbrev counted : Option (List F) → ℕ
  counted none = 0
  counted (some q) = length q

  abbrev is_value_error : Error → Bool
  is_value_error Error.value_error = true
  is_value_error _ = false

  unfoldable pub adopt_joints : Exec (FlexivRdk F V) (Unit {0})
  adopt_joints = do
    reported ←
        catching (λ e. not (is_value_error e)) (return 0)
          (on_sdk sdk.states >>= λ s. return (counted s.q))
    b ← gets (λ b. b)
    if reported == 0
        then return tt
        else (if not (b.n_joints == 0) && not (b.n_joints == reported)
            then raise value_error
            else modify (λ b. record b { n_joints = reported }))

  -- while self._robot.busy() and time.time() - t0 < 10.0
  unfoldable pub wait_idle : List F → Exec (FlexivRdk F V) (Unit {0})
  wait_idle [] = return tt
  wait_idle (elapsed ∷ rest) = do
    busy ← on_sdk sdk.busy
    if busy && n.lt elapsed (n.of_nat 10) then wait_idle rest else return tt

  -- The primitive `ZeroFTSensor`, and back to the idle mode, where the package has primitives.
  unfoldable pub run_zero : List F → Exec (FlexivRdk F V) (Unit {0})
  run_zero times = do
    on_sdk (sdk.call (Command.switch_mode ControlMode.nrt_primitive))
    on_sdk (sdk.call (Command.execute_primitive "ZeroFTSensor"))
    wait_idle times
    on_sdk (sdk.call (Command.switch_mode ControlMode.idle))

  unfoldable pub zero_ft_sensor : List F → Exec (FlexivRdk F V) (Unit {0})
  zero_ft_sensor times =
      if sdk.exposes ControlMode.nrt_primitive
      then (do run_zero times; modify (λ b. record b { mode = ControlMode.idle }))
      else return tt

  -- A gripper that fails to come up is dropped with a warning. Its class has `Enable` and `Init`.
  unfoldable pub bring_up : Option String → Exec (FlexivRdk F V) (Unit {0})
  bring_up none = return tt
  bring_up (some name) = if str_eq name "" then modify (λ b. record b { gripper = false }) else (do
    on_sdk sdk.open_gripper
    up ← recover false (
        on_sdk (sdk.call (Command.gripper_enable name))
        >> (on_sdk (sdk.call Command.gripper_init) >> return true))
    modify (λ b. record b { gripper = up }))

  unfoldable pub connect : (waiting zeroing : List F) → Exec (FlexivRdk F V) (Unit {0})
  connect waiting zeroing = do
    attach sdk
    clear_fault
    on_sdk (sdk.call Command.enable)
    wait_operational waiting
    adopt_joints
    recover tt (if sdk.exposes ControlMode.nrt_primitive then run_zero zeroing else return tt)
    b ← gets (λ b. b)
    bring_up b.gripper_name
    modify (λ b. record b { connected = true })
