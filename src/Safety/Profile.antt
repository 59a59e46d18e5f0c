-- ===== src/Safety/Profile.antt =====
-- The profile, the result and the state of the filter: `SafetyProfile`, `SafetyResult`, and
-- `SafetyFilter` with its `reset` and `set_profile`.
use flexiv_control.Common.{String, Bool, Option, none, some, List, [], ◌∷◌}
use flexiv_control.Number.{Number, zero_num}
use flexiv_control.Types.{StopReason, Vec3, Vec6, Pose, RobotState}
use flexiv_control.Transforms.{vec3}

pub data WorkspaceAction : Type 0 where
  clips rejects : WorkspaceAction

pub record Range (F : Type 0) : Type 0 where
  pub low : F
  pub high : F

pub record SafetyProfile (F : Type 0) : Type 0 where
  pub name : String
  pub ws_x : Range F
  pub ws_y : Range F
  pub ws_z : Range F
  pub workspace_action : WorkspaceAction
  pub max_linear_speed : F
  pub max_angular_speed : F
  pub max_pose_jump_linear : F
  pub max_pose_jump_angular : F
  pub max_linear_accel : Option F
  pub joint_margin_rad : F
  pub max_joint_speed_scale : F
  pub joint_lower : List F
  pub joint_upper : List F
  pub max_contact_wrench : Vec6 F
  pub max_wrench_allowance : Vec6 F
  pub command_timeout_ms : F
  pub state_timeout_ms : F
  pub stop_on_stale_command : Bool
  pub stop_on_state_stale : Bool
  pub hold_timeout_ms : Option F

pub record SafetyResult (F : Type 0) : Type 0 where
  pub ok : Bool
  pub pose : Option (Pose F)
  pub q : Option (List F)
  pub clipped : Bool
  pub reason : StopReason
  pub clip_reasons : List StopReason

abbrev first_reason : List StopReason → StopReason
first_reason [] = StopReason.nothing
first_reason (r ∷ rs) = r

unfoldable pub primary_clip_reason : {F : Type 0} → SafetyResult F → StopReason
primary_clip_reason r = first_reason r.clip_reasons

-- `SafetyResult(ok=False, reason=r)` and `SafetyResult(ok=True)`
abbrev pub rejected : {F : Type 0} → StopReason → SafetyResult F
rejected r = record {
  ok = Bool.false;
  pose = none;
  q = none;
  clipped = Bool.false;
  reason = r;
  clip_reasons = [];
}

abbrev pub passed : {F : Type 0} → SafetyResult F
passed = record {
  ok = Bool.true;
  pose = none;
  q = none;
  clipped = Bool.false;
  reason = StopReason.nothing;
  clip_reasons = [];
}

pub record SafetyFilter (F : Type 0) : Type 0 where
  pub p : SafetyProfile F
  pub dt : F
  pub prev_pose : Option (Pose F)
  pub prev_q : Option (List F)
  pub prev_lin_vel : Option (Vec3 F)

unfoldable pub init : {F : Type 0} → SafetyProfile F → F → SafetyFilter F
init profile dt = record {
  p = profile;
  dt = dt;
  prev_pose = none;
  prev_q = none;
  prev_lin_vel = none;
}

unfoldable pub set_profile : {F : Type 0} → SafetyProfile F → SafetyFilter F → SafetyFilter F
set_profile profile f = record f { p = profile }

abbrev anchored : {F : Type 0} → Option (RobotState F) → SafetyFilter F → SafetyFilter F
anchored none f = f
anchored (some s) f = record f { prev_pose = some s.tcp_pose; prev_q = some s.q }

abbrev override {ℓ} : {A : Type ℓ} → Option A → Option A → Option A
override none old = old
override (some a) old = some a

-- `reset(state, pose=pose, q=q)`
unfoldable pub reset :
    {F : Type 0} ⦃n : Number F⦄
    → Option (RobotState F)
    → Option (Pose F)
    → Option (List F)
    → SafetyFilter F
    → SafetyFilter F
reset state pose q f =
    let g = anchored state f in
    record g {
      prev_pose = override pose g.prev_pose;
      prev_q = override q g.prev_q;
      prev_lin_vel = some (vec3 zero_num zero_num zero_num);
    }
