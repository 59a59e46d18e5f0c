-- ===== src/Robot/Cartesian/Hardware.antt =====
-- The Cartesian executor on the hardware backend: what the arm is told.
use package.flexiv_control.Robot.{Robot}
use package.flexiv_control.Robot.Gate.{Orders, Run}
use package.flexiv_control.Robot.Rules.{Respects}
use package.flexiv_control.Robot.Cartesian.{run_ticks}
use package.flexiv_control.Robot.Cartesian.Box.{Fits, Emits, IsReady, loop}
use flexiv_control.Common.{Bool, true, false, none, List, All, ◌≡◌, ◌⊎◌}
use flexiv_control.Common.Exec.{Post}
use flexiv_control.Number.{Number, IsOrdered, IsExact}
use flexiv_control.Types.{ControlMode, Vec6, Pose}
use flexiv_control.Safety.Profile.{SafetyProfile}
use flexiv_control.Safety.Cartesian.Workspace.{IsSound}
use flexiv_control.Interpolation.{Tick}
use flexiv_control.Backend.Rdk.{Command, Sdk, FlexivRdk}
use flexiv_control.Backend.Rdk.Methods.{motion_force, rdk_backend}
use flexiv_control.Backend.Rdk.Records.{Records, Gated, in_fault-Keeps}
use flexiv_control.Backend.Rdk.Kept.{
  is_special, read_state-Kept, stream_cartesian-Kept, move_gripper-Kept, stop-Kept,
}

-- The command moves the arm to no pose outside the box.
abbrev pub IsContained : {F : Type 0} ⦃n : Number F⦄ → SafetyProfile F → Command F → Type 0
IsContained p (Command.stream_cartesian_motion_force pose w) = Emits p pose
IsContained p (Command.send_cartesian_motion_force pose w) = Emits p pose
IsContained p _ = Unit {0}

module _ {F : Type 0} ⦃n : Number F⦄ (p : SafetyProfile F) where
  plain-IsContained : (c : Command F) → is_special c ≡ false → IsContained p c
  plain-IsContained (Command.stream_cartesian_motion_force pose w) e = cc
  plain-IsContained (Command.send_cartesian_motion_force pose w) e = cc
  plain-IsContained (Command.switch_mode m) e = tt
  plain-IsContained Command.enable e = tt
  plain-IsContained Command.stop e = tt
  plain-IsContained Command.gripper_init e = tt
  plain-IsContained (Command.execute_primitive s) e = tt
  plain-IsContained (Command.gripper_enable s) e = tt
  plain-IsContained (Command.set_cartesian_impedance s d) e = tt
  plain-IsContained (Command.set_joint_impedance s d) e = tt
  plain-IsContained (Command.set_max_contact_wrench w) e = tt
  plain-IsContained (Command.set_force_control_axis a) e = tt
  plain-IsContained (Command.set_force_control_frame t) e = tt
  plain-IsContained (Command.set_null_space_posture q) e = tt
  plain-IsContained (Command.stream_joint_position q v a) e = tt
  plain-IsContained (Command.send_joint_position q v a mv ma) e = tt
  plain-IsContained (Command.gripper_grasp f) e = tt
  plain-IsContained (Command.gripper_move w v f) e = tt

  contained :
      (pose : Pose F)
      → Emits p pose
      → (realtime : Bool) (w : Vec6 F) → IsContained p (motion_force realtime pose w)
  contained pose good true w = good
  contained pose good false w = good

  module _ {V : Type 0} (sdk : Sdk F V) (log : V → List (Command F))
      (records : Records sdk log) where
    abbrev Told : FlexivRdk F V → Type 0
    Told = Gated sdk log records (IsContained p)

    rdk-Respects :
        (now : F) (waiting zeroing homing : List F)
        → Respects
            (rdk_backend sdk now waiting zeroing homing)
            Told
            (Emits p)
            (λ b. b.mode ≡ ControlMode.idle)
    rdk-Respects now waiting zeroing homing = record {
      read_state = read_state-Kept sdk log records (IsContained p) plain-IsContained now;
      in_fault = in_fault-Keeps sdk log records (IsContained p);
      stop = stop-Kept sdk log records (IsContained p) plain-IsContained;
      stream_cartesian = λ pose w good.
          stream_cartesian-Kept sdk log records (IsContained p) plain-IsContained pose w
            (contained pose good);
      move_gripper = λ g. move_gripper-Kept sdk log records (IsContained p) plain-IsContained g;
    }

    -- The containment on the real arm. In exact arithmetic, under a profile with sound limits and no
    -- acceleration cap, for a filter with a positive period whose previous command lies in the box, a
    -- run that is not stopped, and a backend that was not made for torque control and has given the
    -- arm no command outside the box before: whatever setpoints, each inside the box or not
    -- `allclose` to its clipped version, whatever stop requests, and whatever the package answers or
    -- raises, every Cartesian motion command that the arm was given lies in the box, also if a call
    -- raised, and a run that stopped early has told the arm to stop and taken it for idle.
    pub run_ticks-IsContained :
        IsOrdered F
        → IsExact F
        → IsSound p
        → p.max_linear_accel ≡ none
        → (now : F) (waiting zeroing homing : List F) (o : Orders F) (ts : List (Tick F))
          (run : Run F) (r : Robot F (FlexivRdk F V))
        → All (λ t. Fits p t.pose) ts
        → run.stopped ≡ none
        → r.backend.allow_torque ≡ false
        → All (IsContained p) (log r.backend.sdk)
        → IsReady p r.filter
        → Post
            (λ run' r'.
              (Gated sdk log records (IsContained p) r'.backend × IsReady p r'.filter)
              × ((run'.stopped ≡ none) ⊎ (r'.backend.mode ≡ ControlMode.idle)))
            (λ r'. Gated sdk log records (IsContained p) r'.backend × IsReady p r'.filter)
            (run_ticks (rdk_backend sdk now waiting zeroing homing) o ts run r)
    run_ticks-IsContained order exact sound slow now waiting zeroing homing o ts run r fits live
          gate told ready =
        loop p order exact sound slow (rdk_backend sdk now waiting zeroing homing) Told
          (λ b. b.mode ≡ ControlMode.idle) (rdk-Respects now waiting zeroing homing) o ts run fits
          live r (gate, told) ready
