-- ===== src/Backend/Rdk/Torque.antt =====
-- The gate of the torque mode over the whole life of a backend.
use package.flexiv_control.Backend.{ModeRequest}
use package.flexiv_control.Backend.Rdk.{Command, Sdk, FlexivRdk, in_fault}
use package.flexiv_control.Backend.Rdk.Connect.{connect, zero_ft_sensor}
use package.flexiv_control.Backend.Rdk.Methods.{
  is_torque, motion_force, disconnect, read_state, set_mode, set_contact_wrench_limit,
  stream_cartesian, stream_joint, move_gripper, stop, home,
}
use package.flexiv_control.Backend.Rdk.Records.{Records, Gated, in_fault-Keeps}
use package.flexiv_control.Backend.Rdk.Kept.Bringup.{connect-Kept, zero_ft_sensor-Kept}
use package.flexiv_control.Backend.Rdk.Kept.{
  is_special, disconnect-Kept, read_state-Kept, set_mode-Kept, set_contact_wrench_limit-Kept,
  stream_cartesian-Kept, stream_joint-Kept, move_gripper-Kept, stop-Kept, home-Kept,
}
use flexiv_control.Common.{Bool, true, false, Option, List, [], ◌∷◌, All, ◌≡◌}
use flexiv_control.Common.Result.{Result, ok, err}
use flexiv_control.Common.Exec.{Hoare-post, Post}
use flexiv_control.Number.{Number}
use flexiv_control.Types.{Vec6, Pose, GripperCommand}

-- A call of a method, with the readings of the clock that it takes.
pub data Call (F : Type 0) : Type 0 where
  connects : (waiting zeroing : List F) → Call F
  disconnects reads_fault stops : Call F
  reads_state : F → Call F
  sets_mode : ModeRequest F → Call F
  streams_cartesian : Pose F → Option (Vec6 F) → Call F
  streams_joint : List F → Call F
  moves_gripper : GripperCommand F → Call F
  limits_wrench : Vec6 F → Call F
  zeroes_sensor : List F → Call F
  homes : List F → Option (List F) → Call F

module _ {F V : Type 0} ⦃n : Number F⦄ (sdk : Sdk F V) where
  abbrev dropped : {A : Type 0} → Result A × FlexivRdk F V → FlexivRdk F V
  dropped (a, b) = b

  -- What a call leaves, however it ends.
  unfoldable pub after : Call F → FlexivRdk F V → FlexivRdk F V
  after (connects waiting zeroing) b = dropped (connect sdk waiting zeroing b)
  after disconnects b = dropped (disconnect sdk b)
  after reads_fault b = dropped (in_fault sdk b)
  after stops b = dropped (stop sdk b)
  after (reads_state now) b = dropped (read_state sdk now b)
  after (sets_mode m) b = dropped (set_mode sdk m b)
  after (streams_cartesian pose w) b = dropped (stream_cartesian sdk pose w b)
  after (streams_joint q) b = dropped (stream_joint sdk q b)
  after (moves_gripper g) b = dropped (move_gripper sdk g b)
  after (limits_wrench w) b = dropped (set_contact_wrench_limit sdk w b)
  after (zeroes_sensor times) b = dropped (zero_ft_sensor sdk times b)
  after (homes times q) b = dropped (home sdk times q b)

  unfoldable pub after_all : List (Call F) → FlexivRdk F V → FlexivRdk F V
  after_all [] b = b
  after_all (c ∷ cs) b = after_all cs (after c b)

-- The command is no switch to the torque mode.
abbrev pub IsTorqueFree : {F : Type 0} → Command F → Type 0
IsTorqueFree (Command.switch_mode m) = is_torque m ≡ false
IsTorqueFree _ = Unit {0}

plain-IsTorqueFree : {F : Type 0} (c : Command F) → is_special c ≡ false → IsTorqueFree c
plain-IsTorqueFree (Command.switch_mode m) e = e
plain-IsTorqueFree (Command.enable) e = tt
plain-IsTorqueFree (Command.stop) e = tt
plain-IsTorqueFree (Command.gripper_init) e = tt
plain-IsTorqueFree (Command.execute_primitive s) e = tt
plain-IsTorqueFree (Command.gripper_enable s) e = tt
plain-IsTorqueFree (Command.set_cartesian_impedance s d) e = tt
plain-IsTorqueFree (Command.set_joint_impedance s d) e = tt
plain-IsTorqueFree (Command.set_max_contact_wrench w) e = tt
plain-IsTorqueFree (Command.set_force_control_axis a) e = tt
plain-IsTorqueFree (Command.set_force_control_frame t) e = tt
plain-IsTorqueFree (Command.set_null_space_posture q) e = tt
plain-IsTorqueFree (Command.stream_cartesian_motion_force p w) e = tt
plain-IsTorqueFree (Command.send_cartesian_motion_force p w) e = tt
plain-IsTorqueFree (Command.stream_joint_position q v a) e = tt
plain-IsTorqueFree (Command.send_joint_position q v a mv ma) e = tt
plain-IsTorqueFree (Command.gripper_grasp f) e = tt
plain-IsTorqueFree (Command.gripper_move w v f) e = tt

module _ {F V : Type 0} ⦃n : Number F⦄ (sdk : Sdk F V) (log : V → List (Command F))
    (records : Records sdk log) where
  abbrev Free : FlexivRdk F V → Type 0
  Free = Gated sdk log records IsTorqueFree

  ended :
      {A : Type 0} (o : Result A × FlexivRdk F V) → Post (λ _. Free) Free o → Free (dropped sdk o)
  ended (ok a, b) h = h
  ended (err e, b) h = h

  after-Free : (c : Call F) (b : FlexivRdk F V) → Free b → Free (after sdk c b)
  unfolding after
  after-Free (connects waiting zeroing) b i =
      ended _
        ((connect-Kept sdk log records IsTorqueFree plain-IsTorqueFree waiting zeroing).at b i)
  after-Free disconnects b i =
      ended _ ((disconnect-Kept sdk log records IsTorqueFree plain-IsTorqueFree).at b i)
  after-Free reads_fault b i = ended _ ((in_fault-Keeps sdk log records IsTorqueFree).at b i)
  after-Free stops b i = ended _ (
      (Hoare-post (λ a s h. h.0) (stop-Kept sdk log records IsTorqueFree plain-IsTorqueFree)).at b
        i)
  after-Free (reads_state now) b i =
      ended _ ((read_state-Kept sdk log records IsTorqueFree plain-IsTorqueFree now).at b i)
  after-Free (sets_mode m) b i =
      ended _ ((set_mode-Kept sdk log records IsTorqueFree plain-IsTorqueFree m).at b i)
  after-Free (streams_cartesian pose w) b i =
      ended _
        ((stream_cartesian-Kept sdk log records IsTorqueFree plain-IsTorqueFree pose w free).at b i)
    where
      free : (realtime : Bool) (v : Vec6 F) → IsTorqueFree (motion_force realtime pose v)
      free true v = tt
      free false v = tt
  after-Free (streams_joint q) b i =
      ended _ ((stream_joint-Kept sdk log records IsTorqueFree plain-IsTorqueFree q).at b i)
  after-Free (moves_gripper g) b i =
      ended _ ((move_gripper-Kept sdk log records IsTorqueFree plain-IsTorqueFree g).at b i)
  after-Free (limits_wrench w) b i =
      ended _
        ((set_contact_wrench_limit-Kept sdk log records IsTorqueFree plain-IsTorqueFree w).at b i)
  after-Free (zeroes_sensor times) b i =
      ended _ ((zero_ft_sensor-Kept sdk log records IsTorqueFree plain-IsTorqueFree times).at b i)
  after-Free (homes times q) b i =
      ended _ ((home-Kept sdk log records IsTorqueFree plain-IsTorqueFree times q).at b i)

  kept : (cs : List (Call F)) (b : FlexivRdk F V) → Free b → Free (after_all sdk cs b)
  unfolding after_all
  kept [] b i = i
  kept (c ∷ cs) b i = kept cs (after sdk c b) (after-Free c b i)

  -- A backend that was not made for torque control never switches the arm to the torque mode:
  -- whatever methods are called, in whatever order, whatever the package answers and wherever it
  -- raises, no such switch is in the log if none was at the start, and no method opts in.
  pub after_all-IsTorqueFree :
      (cs : List (Call F)) (b : FlexivRdk F V)
      → b.allow_torque ≡ false
      → All IsTorqueFree (log b.sdk)
      → ((after_all sdk cs b).allow_torque ≡ false)
        × All IsTorqueFree (log (after_all sdk cs b).sdk)
  after_all-IsTorqueFree cs b gate h = kept cs b (gate, h)
