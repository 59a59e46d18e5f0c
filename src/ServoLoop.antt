-- ===== src/ServoLoop.antt =====
-- src/flexiv_control/server/control_loop.py: `ReactiveServoLoop`, which streams the latest target:
-- its command buffer, with start and stop. ServoLoop.Turn is a turn of its loop. The object holds
-- the robot, with which it shares the backend and the filter. Readings of the clock are arguments.
pub mod Turn
pub mod Decisions
pub mod Manual
pub mod Interrupted
use flexiv_control.Common.{
  ℕ, Bool, true, false, not, ◌&&◌, ◌||◌, Option, none, some, List, [], ◌∷◌, is_some, get_or_else,
  if◌then◌else◌,
}
use flexiv_control.Common.Result.{Result, Error, ok, err, runtime_error}
use flexiv_control.Common.Exec.{Exec, return, raise, attempt, gets, modify, ◌>>=◌, ◌>>◌}
use flexiv_control.Number.{Number, ◌⊖◌, ◌⊗◌, ◌⊘◌}
use flexiv_control.Types.{
  is_idle, SafetyStatus, StopReason, Pose, RobotState, GripperCommand, is_cartesian,
}
use flexiv_control.Safety.Profile.{SafetyProfile, SafetyResult, primary_clip_reason, reset}
use flexiv_control.Safety.Cartesian.{filter_cartesian}
use flexiv_control.Safety.Joint.{filter_joint}
use flexiv_control.Safety.Watchdog.{check_state_age}
use flexiv_control.ActionChunk.{CartesianChunk, for_execution}
use flexiv_control.Interpolation.{Tick, setpoints}
use flexiv_control.Backend.{Backend}
use flexiv_control.Robot.{Robot, on_backend, start_cartesian_impedance, start_joint_impedance}

-- The object, without the diagnostics of the loop's period.
pub record ServoLoop (F B : Type 0) : Type 0 where
  pub robot : Robot F B
  pub hz : F
  pub cartesian : Bool
  pub target_pose : Option (Pose F)
  pub target_q : Option (List F)
  pub target_gripper : Option (GripperCommand F)
  pub cmd_stamp : F
  -- what the iterator of the active chunk has left
  pub chunk_iter : Option (List (Tick F))
  pub running : Bool
  pub latest_state : Option (RobotState F)
  pub command_age_ms : F
  pub last_clipped : Bool
  pub last_status : SafetyStatus
  pub last_stop_reason : StopReason

-- What the loop finds: no chunk, one that is at its end, or the next setpoint.
pub data Pulled (F : Type 0) : Type 0 where
  inactive exhausted : Pulled F
  next : Tick F → Pulled F

abbrev newer {ℓ} : {A : Type ℓ} → Option A → Option A → Option A
newer none old = old
newer (some a) old = some a

module _ {F B : Type 0} where
  unfoldable pub on_robot : {A : Type 0} → Exec (Robot F B) A → Exec (ServoLoop F B) A
  on_robot m l = let (a, r) = m l.robot in (a, record l { robot = r })

  unfoldable pub report : SafetyStatus → StopReason → Exec (ServoLoop F B) (Unit {0})
  report status reason = modify λ l. record l { last_status = status; last_stop_reason = reason }

  unfoldable pub set_cartesian_target :
      Pose F → Option (GripperCommand F) → F → Exec (ServoLoop F B) (Unit {0})
  set_cartesian_target pose gripper now = modify λ l. record l {
    cartesian = true;
    chunk_iter = none;
    target_pose = some pose;
    target_gripper = newer gripper l.target_gripper;
    cmd_stamp = now;
  }

  unfoldable pub set_joint_target : List F → F → Exec (ServoLoop F B) (Unit {0})
  set_joint_target q now =
      modify
        λ l. record l { cartesian = false; chunk_iter = none; target_q = some q; cmd_stamp = now }

  -- The loop reads the iterator under the lock and takes its next setpoint without it. No other
  -- thread advances an iterator, so that the two are one step.
  abbrev pulled : Option (List (Tick F)) → ServoLoop F B → Result (Pulled F) × ServoLoop F B
  pulled none l = (ok inactive, l)
  pulled (some []) l = (ok exhausted, l)
  pulled (some (t ∷ ts)) l = (ok (next t), record l { chunk_iter = some ts })

  unfoldable pub pull : Exec (ServoLoop F B) (Pulled F)
  pull l = pulled l.chunk_iter l

  -- What it then writes, under the lock again.
  unfoldable pub put : F → Pulled F → Exec (ServoLoop F B) (Unit {0})
  put now inactive = return tt
  put now exhausted = modify λ l. record l { chunk_iter = none }
  put now (next t) = modify λ l. record l {
    cartesian = true;
    target_pose = some t.pose;
    target_gripper = newer t.grip l.target_gripper;
    cmd_stamp = now;
  }

  -- The step of an active chunk's iterator, with nothing in between.
  unfoldable pub advance_chunk : F → Exec (ServoLoop F B) (Unit {0})
  advance_chunk now = pull >>= put now

module _ {F B : Type 0} ⦃n : Number F⦄ (ops : Backend F B) where
  unfoldable pub enqueue_chunk : CartesianChunk F → F → Exec (ServoLoop F B) (Unit {0})
  enqueue_chunk chunk now = do
    s ← on_robot (on_backend ops.read_state)
    c ← attempt (for_execution chunk s.tcp_pose)
    modify λ l. record l {
      cartesian = true;
      chunk_iter = some (
          setpoints
            (record {
              hz = l.hz;
              max_linear_speed = some l.robot.filter.p.max_linear_speed;
              max_angular_speed = some l.robot.filter.p.max_angular_speed;
            })
            c s.tcp_pose);
      cmd_stamp = now;
    }

  unfoldable pub ensure_stream_mode : RobotState F → Bool → Exec (ServoLoop F B) (Unit {0})
  unfolding on_robot start_cartesian_impedance start_joint_impedance
  ensure_stream_mode state cartesian =
      if cartesian
      then if is_cartesian state.control_mode
        then return tt
        else on_robot (start_cartesian_impedance ops none false none none)
      else if is_cartesian state.control_mode || is_idle state.control_mode
      then on_robot (start_joint_impedance ops none false)
      else return tt

  -- `start`, up to the start of the thread.
  unfoldable pub start : F → Exec (ServoLoop F B) (Unit {0})
  unfolding on_robot on_backend ◌>>=◌ start_cartesian_impedance
  start now l =
      if l.running
      then (ok tt, l)
      else (do
        s0 ← on_robot (on_backend ops.read_state)
        s ←
            (if is_cartesian s0.control_mode then return s0 else (do
              on_robot (start_cartesian_impedance ops none false none none)
              on_robot (on_backend ops.read_state)))
        modify λ l. record l {
          robot = record l.robot { filter = reset (some s) none none l.robot.filter };
          target_pose = some s.tcp_pose;
          target_q = some s.q;
          cmd_stamp = now;
          running = true;
        })
          l

  unfoldable pub stop : Exec (ServoLoop F B) (Unit {0})
  unfolding on_robot on_backend ◌>>=◌
  stop = do modify (λ l. record l { running = false }); on_robot (on_backend ops.stop)

  -- The state of the last turn with the diagnostics, those of the loop's period given.
  unfoldable pub get_state :
      (period jitter : F) → (missed : ℕ) → Exec (ServoLoop F B) (RobotState F)
  unfolding on_robot on_backend ◌>>=◌
  get_state period jitter missed l =
      ((elim l.latest_state [ none ↦ on_robot (on_backend ops.read_state) | some s ↦ return s ])
          >>= λ s. return (record s {
            loop_period_ms = period;
            loop_jitter_us = jitter;
            missed_cycles = missed;
            command_latency_ms = l.command_age_ms;
            safety_status = l.last_status;
            stop_reason = l.last_stop_reason;
          }))
        l
