-- ===== src/Safety/Cartesian.antt =====
-- `SafetyFilter.filter_cartesian`, one function for each numbered stage of its body. A stage takes
-- and returns the working pose, the `clipped` flag and the `reasons`.
pub mod Stages
pub mod Verdict
pub mod Workspace
use Stages.{
  Work, exceeds, workspace_stage, jump_linear_stage, jump_angular_stage, speed_linear_stage,
  speed_angular_stage, accel_stage,
}
use package.flexiv_control.Safety.Profile.{
  WorkspaceAction, clips, rejects, SafetyProfile, SafetyResult, SafetyFilter, rejected,
}
use flexiv_control.Common.{
  Bool, true, false, not, ◌&&◌, Option, none, some, List, [], ◌∷◌, get_or_else, if◌then◌else◌,
}
use flexiv_control.Number.{Number}
use flexiv_control.Types.{StopReason, Vec3, Vec6, Pose, RobotState}

module _ {F : Type 0} ⦃n : Number F⦄ where
  -- Stages 3 and 4 of the body.
  unfoldable pub limited : SafetyFilter F → Pose F → Work F → Work F
  limited f ref w =
      speed_angular_stage f.p f.dt ref
        (speed_linear_stage f.p f.dt ref (jump_angular_stage f.p ref (jump_linear_stage f.p ref w)))

  finish : SafetyFilter F → Pose F → Work F → SafetyResult F × SafetyFilter F
  finish f ref w =
      let (w', vel) = accel_stage f.p f.dt f.prev_lin_vel ref w in
      (
        record {
          ok = true;
          pose = some w'.pose;
          q = none;
          clipped = w'.clipped;
          reason = StopReason.nothing;
          clip_reasons = w'.reasons;
        },
        record f { prev_lin_vel = some vel; prev_pose = some w'.pose },
      )

  unfoldable pub filter_cartesian :
      Pose F → RobotState F → Option (Vec6 F) → SafetyFilter F → SafetyResult F × SafetyFilter F
  unfolding finish
  filter_cartesian target state max_contact_wrench f =
      let cap = get_or_else f.p.max_contact_wrench max_contact_wrench in
      let ref = get_or_else state.tcp_pose f.prev_pose in
      if exceeds state.wrench cap
      then (rejected StopReason.contact_wrench, f)
      else elim (workspace_stage f.p target) [
        | none ↦ (rejected StopReason.workspace, f)
        | some w ↦ finish f ref (limited f ref w)
      ]
