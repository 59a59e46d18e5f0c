-- ===== src/Robot.antt =====
-- src/flexiv_control/robot.py: the facade over a backend. The object of every method is a `Robot`;
-- the backend's methods act on its field `backend`.
pub mod Report
pub mod Rules
pub mod Gate
pub mod Cartesian
pub mod Joint
pub mod Gripper
pub mod Moves
pub mod GoHome
use flexiv_control.Common.{
  ℕ, String, Bool, true, false, not, ◌||◌, ◌&&◌, Option, none, some, List, get_or_else, str_eq,
  if◌then◌else◌,
}
use flexiv_control.Common.Result.{Result, Error, ok, err, lease_error, value_error}
use flexiv_control.Common.Exec.{Exec, return, raise, modify, ◌>>=◌, ◌>>◌}
use flexiv_control.Number.{Number}
use flexiv_control.Types.{
  ControlMode, Vec6, Pose, RobotState, ImpedanceParams, JointImpedanceParams, ForceControlParams,
}
use flexiv_control.Safety.Profile.{SafetyProfile, SafetyResult, SafetyFilter, reset, set_profile}
use flexiv_control.Safety.Cartesian.{filter_cartesian}
use flexiv_control.Backend.{Backend, ModeRequest}

pub record Robot (F B : Type 0) : Type 0 where
  pub backend : B
  pub control_hz : F
  pub dt : F
  pub profile : SafetyProfile F
  pub filter : SafetyFilter F
  pub owner : Option String
  pub cancel : Bool
  pub last_state : Option (RobotState F)
  pub q_home : List F
  pub gripper_home_width : Option F
  -- ImpedanceParams() and JointImpedanceParams()
  pub default_impedance : ImpedanceParams F
  pub default_joint_impedance : JointImpedanceParams F

-- A method of the backend, as one of the robot.
unfoldable pub on_backend : {F B A : Type 0} → Exec B A → Exec (Robot F B) A
on_backend m r = let (a, b) = m r.backend in (a, record r { backend = b })

abbrev is_other : Option String → String → Bool
is_other none o = false
is_other (some p) o = not (str_eq p o)

module _ {F B : Type 0} where
  pub acquire_lease : String → Exec (Robot F B) (Unit {0})
  acquire_lease o r =
      if is_other r.owner o then (err lease_error, r) else (ok tt, record r { owner = some o })

  pub release_lease : Exec (Robot F B) (Unit {0})
  release_lease = modify λ r. record r { owner = none }

  unfoldable pub check_lease : Exec (Robot F B) (Unit {0})
  check_lease = modify λ r. record r { owner = some (get_or_else "default" r.owner) }

  -- `set_safety_profile` with the profile that was loaded; the loading may raise.
  unfoldable pub set_safety_profile : Result (SafetyProfile F) → Exec (Robot F B) (Unit {0})
  set_safety_profile loaded r = elim loaded [
    | ok p ↦ (ok tt, record r { profile = p; filter = set_profile p r.filter })
    | err e ↦ (err e, r)
  ]

  -- `self._cancel.is_set()` and, if so, `self._cancel.clear()`. Another thread may have set the event
  -- before the test: `requested`.
  unfoldable pub take_cancel : Bool → Exec (Robot F B) Bool
  take_cancel requested r =
      if r.cancel || requested then (ok true, record r { cancel = false }) else (ok false, r)

  unfoldable pub request_stop : Exec (Robot F B) (Unit {0})
  request_stop = modify λ r. record r { cancel = true }

  unfoldable pub clear_stop : Exec (Robot F B) (Unit {0})
  clear_stop = modify λ r. record r { cancel = false }

  unfoldable pub verify_chunk_profile : String → Exec (Robot F B) (Unit {0})
  verify_chunk_profile requested r =
      if not (str_eq requested "") && not (str_eq requested r.profile.name)
      then (err value_error, r)
      else (ok tt, r)

  module _ ⦃n : Number F⦄ where
    unfoldable pub reset_filter : RobotState F → Exec (Robot F B) (Unit {0})
    reset_filter s = modify λ r. record r { filter = reset (some s) none none r.filter }

    unfoldable pub run_filter : Pose F → RobotState F → Vec6 F → Exec (Robot F B) (SafetyResult F)
    run_filter pose state cap r =
        let (sr, f) = filter_cartesian pose state (some cap) r.filter in
        (ok sr, record r { filter = f })

  abbrev pub peek_state : Robot F B → Option (RobotState F)
  peek_state r = r.last_state

  module _ (ops : Backend F B) where
    unfoldable pub get_state : Exec (Robot F B) (RobotState F)
    unfolding on_backend ◌>>=◌
    get_state = do
      s ← on_backend ops.read_state
      modify (λ r. record r { last_state = some s })
      return s

    unfoldable pub connect : Exec (Robot F B) (Unit {0})
    unfolding on_backend
    connect = on_backend ops.connect

    unfoldable pub disconnect : Exec (Robot F B) (Unit {0})
    unfolding on_backend
    disconnect = on_backend ops.disconnect

    unfoldable pub zero_ft_sensor : Exec (Robot F B) (Unit {0})
    unfolding on_backend check_lease ◌>>=◌
    zero_ft_sensor = do check_lease; on_backend ops.zero_ft_sensor

    unfoldable pub start_cartesian_impedance :
        Option (ImpedanceParams F)
        → Bool
        → Option (ForceControlParams F)
        → Option (List F)
        → Exec (Robot F B) (Unit {0})
    unfolding on_backend
    start_cartesian_impedance impedance realtime force_control nullspace_q r =
        on_backend
          (ops.set_mode (record {
            mode =
                if realtime
                then ControlMode.rt_cartesian_motion_force
                else ControlMode.nrt_cartesian_motion_force;
            impedance = some (get_or_else r.default_impedance impedance);
            joint_impedance = none;
            force_control = force_control;
            nullspace_q = some (get_or_else r.q_home nullspace_q);
            max_contact_wrench = some r.profile.max_contact_wrench;
          }))
          r

    unfoldable pub start_joint_impedance :
        Option (JointImpedanceParams F) → Bool → Exec (Robot F B) (Unit {0})
    unfolding on_backend
    start_joint_impedance joint_impedance realtime r =
        on_backend
          (ops.set_mode (record {
            mode =
                if realtime
                then ControlMode.rt_joint_impedance
                else ControlMode.nrt_joint_impedance;
            impedance = none;
            joint_impedance = some (get_or_else r.default_joint_impedance joint_impedance);
            force_control = none;
            nullspace_q = none;
            max_contact_wrench = none;
          }))
          r

    unfoldable pub stop : Exec (Robot F B) (Unit {0})
    unfolding on_backend request_stop ◌>>=◌
    stop = do request_stop; on_backend ops.stop
