-- ===== src/Server/Dispatch.antt =====
-- `_dispatch` and its table of handlers. `none` is a request of an unknown method.
use package.flexiv_control.Server.{Server}
use package.flexiv_control.Server.Motion.{Reply, Motion, handle_motion}
use package.flexiv_control.Server.Handlers.{
  Surroundings, handle_acquire_lease, handle_release_lease, handle_heartbeat, handle_get_lease,
  handle_set_safety_profile, handle_get_state, handle_stop, handle_start_servo_loop,
  handle_servo_stream, handle_servo_stream_joint, handle_stop_servo_loop,
}
use flexiv_control.Common.{String, Bool, Option, none, some, List}
use flexiv_control.Common.Result.{Result, Error, ok, err}
use flexiv_control.Common.Exec.{Exec, return, gets}
use flexiv_control.Number.{Number}
use flexiv_control.Types.{Pose, GripperCommand}
use flexiv_control.Safety.Profile.{SafetyProfile}
use flexiv_control.Backend.{Backend}

pub data Request (F : Type 0) : Type 0 where
  ping get_lease get_safety_profile get_state stop : Request F
  acquire_lease : String → Bool → Request F
  release_lease heartbeat stop_servo_loop : String → Request F
  set_safety_profile : String → Result (SafetyProfile F) → Request F
  motion : String → Motion F → Request F
  start_servo_loop : String → Option F → Request F
  servo_stream : String → Pose F → Option (GripperCommand F) → Request F
  servo_stream_joint : String → List F → Request F

-- `{"ok": True, ...}`, `{"ok": False, ...}` with the exception, and the unknown method.
pub data Response (F : Type 0) : Type 0 where
  replied : Reply F → Response F
  failed : Error → Response F
  unknown_method : Response F

abbrev pub answer : {F B : Type 0} → Result (Reply F) × Server F B → Response F × Server F B
answer (ok r, s) = (replied r, s)
answer (err e, s) = (failed e, s)

module _ {F : Type 0} ⦃n : Number F⦄ {B : Type 0} (ops : Backend F B) where
  -- The table of handlers.
  unfoldable pub handle : Surroundings F → Request F → Exec (Server F B) (Reply F)
  handle w Request.ping = return Reply.pong
  handle w Request.get_lease = handle_get_lease w.scene.times
  handle w Request.get_safety_profile = gets (λ s. Reply.profile s.robot.profile)
  handle w Request.get_state = handle_get_state ops w
  handle w Request.stop = handle_stop ops w.first_lock w.second_lock
  handle w (Request.acquire_lease o force) = handle_acquire_lease o force w.scene.times
  handle w (Request.release_lease o) = handle_release_lease ops o
  handle w (Request.heartbeat o) = handle_heartbeat o w.scene.times
  handle w (Request.stop_servo_loop o) = handle_stop_servo_loop ops o w.scene.times
  handle w (Request.set_safety_profile o loaded) = handle_set_safety_profile o loaded w.scene.times
  handle w (Request.motion o m) = handle_motion ops o w.scene m
  handle w (Request.start_servo_loop o hz) = handle_start_servo_loop ops o hz w.scene.times w.now
  handle w (Request.servo_stream o pose grip) = handle_servo_stream o pose grip w.scene.times w.now
  handle w (Request.servo_stream_joint o q) = handle_servo_stream_joint o q w.scene.times w.now

  -- `_dispatch`, which lets no exception out.
  unfoldable pub dispatch :
      Surroundings F → Option (Request F) → Server F B → Response F × Server F B
  unfolding handle
  dispatch w none s = (unknown_method, s)
  dispatch w (some r) s = answer (handle w r s)
