-- ===== src/Backend.antt =====
-- src/flexiv_control/backends/base.py: the interface of a backend, whose object is a `B`. Every
-- method may raise.
pub mod Fake
pub mod Rdk
use flexiv_control.Common.{Bool, Option, List}
use flexiv_control.Common.Exec.{Exec}
use flexiv_control.Types.{
  ControlMode, Vec6, Pose, RobotState, ImpedanceParams, JointImpedanceParams, ForceControlParams,
  GripperCommand,
}

-- The arguments of `set_mode`.
pub record ModeRequest (F : Type 0) : Type 0 where
  pub mode : ControlMode
  pub impedance : Option (ImpedanceParams F)
  pub joint_impedance : Option (JointImpedanceParams F)
  pub force_control : Option (ForceControlParams F)
  pub nullspace_q : Option (List F)
  pub max_contact_wrench : Option (Vec6 F)

pub record Backend (F B : Type 0) : Type 0 where
  pub connect : Exec B (Unit {0})
  pub disconnect : Exec B (Unit {0})
  pub read_state : Exec B (RobotState F)
  pub in_fault : Exec B Bool
  pub set_mode : ModeRequest F → Exec B (Unit {0})
  pub stream_cartesian : Pose F → Option (Vec6 F) → Exec B (Unit {0})
  pub stream_joint : List F → Exec B (Unit {0})
  pub move_gripper : GripperCommand F → Exec B (Unit {0})
  pub set_contact_wrench_limit : Vec6 F → Exec B (Unit {0})
  pub zero_ft_sensor : Exec B (Unit {0})
  pub stop : Exec B (Unit {0})
  pub home : Option (List F) → Exec B (Unit {0})
