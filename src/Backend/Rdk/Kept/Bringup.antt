-- ===== src/Backend/Rdk/Kept/Bringup.antt =====
-- The lemmas for `connect` and `zero_ft_sensor` of the hardware backend.
use package.flexiv_control.Backend.Rdk.Kept.{is_special, Kept, call, asks}
use package.flexiv_control.Backend.Rdk.{Command, Sdk, FlexivRdk, on_sdk}
use package.flexiv_control.Backend.Rdk.Connect.{
  clear_fault, wait_operational, adopt_joints, wait_idle, run_zero, zero_ft_sensor, bring_up,
  connect,
}
use package.flexiv_control.Backend.Rdk.Records.{Records, Gated, attach-Keeps}
use flexiv_control.Common.{
  String, false, not, ◌&&◌, ◌==◌, str_eq, Option, none, some, List, [], ◌∷◌, ◌≡◌, refl,
}
use flexiv_control.Common.Exec.{
  Exec, Hoare-if, Hoare-bind, Hoare-catching, Invariant-bind, Invariant-recover,
}
use flexiv_control.Number.{Number}
use flexiv_control.Types.{ControlMode}

module _ {F V : Type 0} ⦃n : Number F⦄ (sdk : Sdk F V) (log : V → List (Command F))
    (records : Records sdk log) (Allowed : Command F → Type 0)
    (plain : (c : Command F) → is_special c ≡ false → Allowed c) where
  abbrev IsKept : {A : Type 0} → Exec (FlexivRdk F V) A → Type 0
  IsKept m = Kept sdk log records Allowed plain m

  tell : (c : Command F) → is_special c ≡ false → IsKept (on_sdk (sdk.call c))
  tell = call sdk log records Allowed plain

  ask : {A : Type 0} (m : Exec V A) → ((v : V) → log (m v).1 ≡ log v) → IsKept (on_sdk m)
  ask = asks sdk log records Allowed plain

  clear_fault-Kept : IsKept (clear_fault sdk)
  unfolding clear_fault
  clear_fault-Kept =
      Invariant-bind
        (Hoare-if sdk.has_fault _ _ (λ e. ask sdk.fault records.fault)
          λ e. record { at = λ b i. i })
        λ faulted.
          Hoare-if faulted _ _
            (λ e. Invariant-bind (ask sdk.clear_fault records.clear_fault) λ cleared.
              Hoare-if cleared _ _ (λ e. record { at = λ b i. i }) λ e. record { at = λ b i. i })
            λ e. record { at = λ b i. i }

  wait_operational-Kept : (times : List F) → IsKept (wait_operational sdk times)
  unfolding wait_operational
  wait_operational-Kept [] = record { at = λ b i. i }
  wait_operational-Kept (t ∷ rest) = Invariant-bind (ask sdk.operational records.operational) λ up.
      Hoare-if up _ _ (λ e. record { at = λ b i. i })
        λ e.
          Hoare-if (n.lt (n.of_nat 10) t) _ _ (λ e. record { at = λ b i. i })
            λ e. wait_operational-Kept rest

  adopt_joints-Kept : IsKept (adopt_joints sdk)
  unfolding adopt_joints
  adopt_joints-Kept =
      Invariant-bind
        (Hoare-catching _ _ _ (λ b i. i) (record { at = λ b i. i })
          (Invariant-bind (ask sdk.states records.states) λ s. record { at = λ b i. i }))
        λ reported.
          Hoare-bind {Q = λ b. Gated sdk log records Allowed} _ _ (record { at = λ b i. i })
            λ b.
              Hoare-if (reported == 0) _ _ (λ e. record { at = λ b i. i })
                λ e.
                  Hoare-if (not (b.n_joints == 0) && not (b.n_joints == reported)) _ _
                    (λ e. record { at = λ b i. i }) λ e. record { at = λ b i. i }

  wait_idle-Kept : (times : List F) → IsKept (wait_idle sdk times)
  unfolding wait_idle
  wait_idle-Kept [] = record { at = λ b i. i }
  wait_idle-Kept (t ∷ rest) = Invariant-bind (ask sdk.busy records.busy) λ busy.
      Hoare-if (busy && n.lt t (n.of_nat 10)) _ _ (λ e. wait_idle-Kept rest)
        λ e. record { at = λ b i. i }

  run_zero-Kept : (times : List F) → IsKept (run_zero sdk times)
  unfolding run_zero
  run_zero-Kept times =
      Invariant-bind (tell (Command.switch_mode ControlMode.nrt_primitive) refl) λ u.
        Invariant-bind (tell (Command.execute_primitive "ZeroFTSensor") refl) λ u.
          Invariant-bind (wait_idle-Kept times)
            λ u. tell (Command.switch_mode ControlMode.idle) refl

  pub zero_ft_sensor-Kept : (times : List F) → IsKept (zero_ft_sensor sdk times)
  unfolding zero_ft_sensor
  zero_ft_sensor-Kept times =
      Hoare-if (sdk.exposes ControlMode.nrt_primitive) _ _
        (λ e. Invariant-bind (run_zero-Kept times) λ u. record { at = λ b i. i })
        λ e. record { at = λ b i. i }

  bring_up-Kept : (name : Option String) → IsKept (bring_up sdk name)
  unfolding bring_up
  bring_up-Kept none = record { at = λ b i. i }
  bring_up-Kept (some name) =
      Hoare-if (str_eq name "") _ _ (λ e. record { at = λ b i. i })
        λ e. Invariant-bind (ask sdk.open_gripper records.open_gripper) λ u.
          Invariant-bind
            (Invariant-recover _ (
              Invariant-bind (tell (Command.gripper_enable name) refl)
                λ u. Invariant-bind (tell Command.gripper_init refl) λ u. record { at = λ b i. i }))
            λ up. record { at = λ b i. i }

  pub connect-Kept : (waiting zeroing : List F) → IsKept (connect sdk waiting zeroing)
  unfolding connect
  connect-Kept waiting zeroing = Invariant-bind (attach-Keeps sdk log records Allowed) λ u.
      Invariant-bind clear_fault-Kept λ u. Invariant-bind (tell Command.enable refl) λ u.
        Invariant-bind (wait_operational-Kept waiting) λ u. Invariant-bind adopt_joints-Kept λ u.
          Invariant-bind
            (Invariant-recover _ (
              Hoare-if (sdk.exposes ControlMode.nrt_primitive) _ _ (λ e. run_zero-Kept zeroing)
                λ e. record { at = λ b i. i }))
            λ u.
              Invariant-bind (record { at = λ b i. i })
                λ b. Invariant-bind (bring_up-Kept b.gripper_name) λ u. record { at = λ b i. i }
