-- ===== src/Env.antt =====
-- src/flexiv_control/envs/gym_env.py: `FlexivRealEnv`, an episode of reinforcement learning on the
-- robot. The robot, a `Robot` or a `RemoteRobot`, is an interface of the methods that are called, and
-- the reward is the caller's function. Casts to float32 are not modelled.
pub mod Episode
pub mod Homed
use flexiv_control.Common.{
  ℕ, ◌+◌, leb, String, Bool, true, false, not, ◌||◌, Option, none, some, List, [], ◌∷◌,
  if◌then◌else◌,
}
use flexiv_control.Common.Result.{Result, Error, ok, err, type_error, file_not_found}
use flexiv_control.Common.Exec.{
  Exec, return, raise, attempt, gets, modify, recover, catching, ◌>>=◌, ◌>>◌,
}
use flexiv_control.Number.{Number, ◌⊗◌, zero_num, one_num, clip}
use flexiv_control.Types.{Vec3, Vec6, Pose, RobotState, GripperCommand, from_signed_action}
use flexiv_control.Robot.Report.{ExecutionResult}
use flexiv_control.Teleop.{Action, is_type_error}

-- The robot as the environment uses it.
pub record Controlled (F R : Type 0) : Type 0 where
  pub connect : Exec R (Unit {0})
  -- with the owner's name, and without
  pub acquire_lease : String → Exec R (Unit {0})
  pub acquire_unnamed : Exec R (Unit {0})
  -- `set_safety_profile` with the profile of the environment
  pub set_safety_profile : Exec R (Unit {0})
  pub start_cartesian_impedance : Exec R (Unit {0})
  pub servo_cartesian_pose : Pose F → F → Exec R (ExecutionResult F)
  pub servo_cartesian_delta : Vec6 F → F → Option (GripperCommand F) → Exec R (ExecutionResult F)
  pub home : Exec R (Unit {0})
  pub get_state : Exec R (RobotState F)
  pub stop : Exec R (Unit {0})
  pub release_lease : Exec R (Unit {0})
  pub disconnect : Exec R (Unit {0})

pub record FlexivRealEnv (F R : Type 0) : Type 0 where
  pub robot : R
  pub step_duration : F
  pub max_episode_steps : ℕ
  pub pos_scale : F
  pub rot_scale : F
  pub gripper_open_width : F
  pub gripper_force : F
  pub home_pose : Option (Pose F)
  pub owner : String
  pub connected : Bool
  pub elapsed : ℕ

-- [q, dq, tcp_pose, wrench, gripper_width]
pub record Observation (F : Type 0) : Type 0 where
  pub q : List F
  pub dq : List F
  pub tcp_pose : Pose F
  pub wrench : Vec6 F
  pub gripper_width : F

-- What `step` returns; `result` holds the entries of `info` that are taken from it.
pub record Outcome (F : Type 0) : Type 0 where
  pub observation : Observation F
  pub reward : F
  pub terminated : Bool
  pub truncated : Bool
  pub result : ExecutionResult F

abbrev pub RewardFn : Type 0 → Type 0
RewardFn F = Observation F → Action F → Result (F × Bool)

abbrev pub is_not_found : Error → Bool
is_not_found Error.file_not_found = true
is_not_found _ = false

module _ {F R : Type 0} where
  unfoldable pub on_robot : {A : Type 0} → Exec R A → Exec (FlexivRealEnv F R) A
  on_robot m e = let (a, r) = m e.robot in (a, record e { robot = r })

module _ {F : Type 0} ⦃n : Number F⦄ where
  abbrev clipped : F → F
  clipped x = clip x (n.neg one_num) one_num

  abbrev scaled_by : F → Vec3 F → Vec3 F
  scaled_by scale v = record {
    x = clipped v.x ⊗ scale;
    y = clipped v.y ⊗ scale;
    z = clipped v.z ⊗ scale;
  }

  module _ {R : Type 0} where
    unfoldable pub scale_action : FlexivRealEnv F R → Action F → Vec6 F × GripperCommand F
    scale_action e a = (
      record {
        linear = scaled_by e.pos_scale a.motion.linear;
        angular = scaled_by e.rot_scale a.motion.angular;
      },
      from_signed_action (clipped a.gripper) e.gripper_open_width zero_num e.gripper_force
          (n.lit 1 1),
    )

    module _ (robot : Controlled F R) where
      unfoldable pub ensure_connected : Exec (FlexivRealEnv F R) (Unit {0})
      ensure_connected = do
        e ← gets (λ e. e)
        if e.connected then return tt else (do
          on_robot robot.connect
          on_robot (catching is_type_error robot.acquire_unnamed (robot.acquire_lease e.owner))
          on_robot (catching is_not_found (return tt) robot.set_safety_profile)
          modify (λ e. record e { connected = true }))

      -- `_obs`
      unfoldable pub observe : Exec (FlexivRealEnv F R) (Observation F)
      observe = do
        s ← on_robot robot.get_state
        return (record {
          q = s.q;
          dq = s.dq;
          tcp_pose = s.tcp_pose;
          wrench = s.wrench;
          gripper_width = s.gripper_width;
        })

      -- The way to the start of an episode.
      unfoldable pub go_to_start : Option (Pose F) → Exec (FlexivRealEnv F R) (Unit {0})
      go_to_start none = do on_robot robot.home; on_robot robot.start_cartesian_impedance
      go_to_start (some pose) = do
        on_robot robot.start_cartesian_impedance
        on_robot (robot.servo_cartesian_pose pose (n.of_nat 2))
        return tt

      unfoldable pub begin : Option (Pose F) → Exec (FlexivRealEnv F R) (Observation F)
      begin home_pose = do go_to_start home_pose; modify (λ e. record e { elapsed = 0 }); observe

      unfoldable pub reset : Exec (FlexivRealEnv F R) (Observation F)
      reset = do ensure_connected; home_pose ← gets (λ e. e.home_pose); begin home_pose

      abbrev rewarded : Option (RewardFn F) → Observation F → Action F → Result (F × Bool)
      rewarded none obs a = ok (zero_num, false)
      rewarded (some f) obs a = f obs a

      -- The step of an environment that has been counted.
      unfoldable pub counted_step :
          Option (RewardFn F) → Action F → FlexivRealEnv F R → Exec (FlexivRealEnv F R) (Outcome F)
      counted_step reward_fn action e = do
        let (delta, grip) = scale_action e action
        result ← on_robot (robot.servo_cartesian_delta delta e.step_duration (some grip))
        obs ← observe
        judged ← attempt (rewarded reward_fn obs action)
        return (record {
          observation = obs;
          reward = judged.0;
          terminated = judged.1 || not result.success;
          truncated = leb e.max_episode_steps e.elapsed;
          result = result;
        })

      unfoldable pub step : Option (RewardFn F) → Action F → Exec (FlexivRealEnv F R) (Outcome F)
      step reward_fn action = do
        modify (λ e. record e { elapsed = e.elapsed + 1 })
        e ← gets (λ e. e)
        counted_step reward_fn action e

      -- The body of the `try`, and the `finally`.
      unfoldable pub let_go : Exec (FlexivRealEnv F R) (Unit {0})
      let_go = do
        on_robot robot.stop
        recover tt (on_robot robot.release_lease)
        on_robot robot.disconnect

      unfoldable pub close : Exec (FlexivRealEnv F R) (Unit {0})
      close e =
          if e.connected
          then (let (a, e') = let_go e in (a, record e' { connected = false }))
          else (ok tt, e)
