-- ===== src/Adapter.antt =====
-- src/flexiv_control/adapters/lerobot_robot.py: `LeRobotFlexivAdapter`, over the same interface of the
-- robot as the environment. An observation and an action are records of the entries that the
-- adapter's dictionaries have.
pub mod Replay
use flexiv_control.Common.{
  ℕ, zero, suc, String, Bool, true, false, some, List, [], ◌∷◌, if◌then◌else◌,
}
use flexiv_control.Common.Result.{Result, ok, err, index_error}
use flexiv_control.Common.Exec.{Exec, return, attempt, gets, modify, recover, catching, ◌>>=◌, ◌>>◌}
use flexiv_control.Number.{Number, ◌⊗◌, zero_num, one_num, clip}
use flexiv_control.Types.{Vec3, Vec6, GripperCommand, from_signed_action}
use flexiv_control.Teleop.{Action, is_type_error}
use flexiv_control.Env.{Controlled, Observation, is_not_found}

pub record LeRobotFlexivAdapter (F R : Type 0) : Type 0 where
  pub robot : R
  pub step_duration : F
  pub pos_scale : F
  pub rot_scale : F
  pub gripper_open_width : F
  pub owner : String
  pub connected : Bool

-- The entries at the indices below `k`.
unfoldable pub entries : {A : Type 0} → ℕ → List A → Result (List A)
entries zero xs = ok []
entries (suc k) [] = err index_error
entries (suc k) (x ∷ xs) =
    let rest = entries k xs in elim rest [ ok ys ↦ ok (x ∷ ys) | err e ↦ err e ]

module _ {F R : Type 0} where
  unfoldable pub on_robot : {A : Type 0} → Exec R A → Exec (LeRobotFlexivAdapter F R) A
  on_robot m e = let (a, r) = m e.robot in (a, record e { robot = r })

module _ {F : Type 0} ⦃n : Number F⦄ where
  abbrev each_axis : (F → F) → Vec3 F → Vec3 F
  each_axis f v = record { x = f v.x; y = f v.y; z = f v.z }

  abbrev pub clipped : F → F
  clipped x = clip x (n.neg one_num) one_num

  -- np.clip(a, -1.0, 1.0)
  unfoldable pub clip_action : Action F → Action F
  clip_action a = record {
    motion = record {
      linear = each_axis clipped a.motion.linear;
      angular = each_axis clipped a.motion.angular;
    };
    gripper = clipped a.gripper;
  }

  module _ {R : Type 0} where
    -- The motion and the gripper command of a clipped action.
    unfoldable pub commanded : LeRobotFlexivAdapter F R → Action F → Vec6 F × GripperCommand F
    commanded e a = (
      record {
        linear = each_axis (λ x. x ⊗ e.pos_scale) a.motion.linear;
        angular = each_axis (λ x. x ⊗ e.rot_scale) a.motion.angular;
      },
      from_signed_action a.gripper e.gripper_open_width zero_num (n.of_nat 20) (n.lit 1 1),
    )

    module _ (robot : Controlled F R) where
      unfoldable pub connect : Exec (LeRobotFlexivAdapter F R) (Unit {0})
      connect = do
        e ← gets (λ e. e)
        if e.connected then return tt else (do
          on_robot robot.connect
          on_robot (catching is_type_error robot.acquire_unnamed (robot.acquire_lease e.owner))
          on_robot (catching is_not_found (return tt) robot.set_safety_profile)
          on_robot robot.start_cartesian_impedance
          modify (λ e. record e { connected = true }))

      -- The body of the `try` of `disconnect`.
      unfoldable pub let_go : Exec (LeRobotFlexivAdapter F R) (Unit {0})
      let_go = do
        on_robot robot.stop
        recover tt (on_robot robot.release_lease)
        on_robot robot.disconnect

      unfoldable pub disconnect : Exec (LeRobotFlexivAdapter F R) (Unit {0})
      disconnect e =
          if e.connected
          then (let (a, e') = let_go e in (a, record e' { connected = false }))
          else (ok tt, e)

      unfoldable pub get_observation : Exec (LeRobotFlexivAdapter F R) (Observation F)
      get_observation = do
        s ← on_robot robot.get_state
        q ← attempt (entries 7 s.q)
        dq ← attempt (entries 7 s.dq)
        return (record {
          q = q;
          dq = dq;
          tcp_pose = s.tcp_pose;
          wrench = s.wrench;
          gripper_width = s.gripper_width;
        })

      unfoldable pub tell :
          LeRobotFlexivAdapter F R → Action F → Exec (LeRobotFlexivAdapter F R) (Action F)
      tell e a =
          let (delta, grip) = commanded e a in
          on_robot (robot.servo_cartesian_delta delta e.step_duration (some grip)) >>= λ r. return a

      unfoldable pub send_action : Action F → Exec (LeRobotFlexivAdapter F R) (Action F)
      send_action a = do e ← gets (λ e. e); tell e (clip_action a)
