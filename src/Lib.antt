-- ===== src/Lib.antt =====
-- A model of the core of flexiv_control, a control stack for a robot arm, with theorems about it.
-- A planner or a policy hands the stack a chunk of waypoints, or a stream of setpoints. Everything
-- that moves the robot goes through one safety filter, one lease, and one writer to a backend.
--
-- The parts, their files here, and the code that they model. Paths are from the repository's root.
--   Types         src/flexiv_control/types.py: modes, stop reasons, states, parameters.
--   Transforms    src/flexiv_control/transforms.py: quaternions and poses.
--   Safety        src/flexiv_control/safety.py. Safety.Profile has `SafetyProfile`, `SafetyResult` and
--                 the state of `SafetyFilter`; Safety.Cartesian is `filter_cartesian`, with one
--                 function for each numbered stage of its body in Safety.Cartesian.Stages;
--                 Safety.Joint is `filter_joint`; Safety.Watchdog has the two age checks.
--   ActionChunk   src/flexiv_control/action_chunk.py: waypoints, chunks, what their constructors
--                 refuse, the receding horizon; ActionChunk.Arrays has the constructors from arrays.
--   Interpolation src/flexiv_control/interpolation.py: a chunk as the list of its setpoints, one for
--                 each tick; Interpolation.Joints for joint chunks.
--   Backend       src/flexiv_control/backends/base.py, a record of methods that may raise, and
--                 Backend.Fake, src/flexiv_control/backends/fake.py, which keeps a log of what it is told.
--                 Backend.Rdk is src/flexiv_control/backends/flexiv_rdk.py over the vendor's package:
--                 Backend.Rdk.Connect is `connect`, Backend.Rdk.Methods the other methods, and
--                 Backend.Rdk.Records says that a package keeps a log of what it is told.
--   Robot         src/flexiv_control/robot.py, a facade over any backend. Robot.Gate is the gate on
--                 closing gripper commands of `execute_cartesian_chunk`, Robot.Cartesian the body of
--                 its loop, and Robot.Cartesian.Method what stands around the loop; Robot.Joint is
--                 `execute_joint_chunk`, Robot.Gripper `command_gripper` with its wait, Robot.Moves
--                 the servo steps, `move_joint` and `home`, and Robot.GoHome `go_home_safe`.
--   Lease         src/flexiv_control/server/lease.py. A section that a lock guards is one step.
--   HostLock      src/flexiv_control/server/host_lock.py.
--   ServoLoop     src/flexiv_control/server/control_loop.py: `ReactiveServoLoop`, its command
--                 buffer, start and stop; ServoLoop.Turn is a turn of its loop, `observe` and
--                 then `decide`, and the loop.
--   Server        src/flexiv_control/server/server.py: the object, the lease at the entry of a request
--                 and the motion lock; Server.Motion has the requests that move the robot, as one
--                 data type with one handler, Server.Handlers the other `_h_` methods, and
--                 Server.Dispatch `_dispatch` with its table.
--   Protocol      src/flexiv_control/server/protocol.py: the encoders, with the decoders in
--                 Protocol.Decode, over the JSON values of Protocol.Wire; Protocol.Outcome has
--                 those of a result.
--   Client        src/flexiv_control/client/remote_robot.py: `RemoteRobot` and the connection to the
--                 server; Client.Methods mirrors the robot's methods, and Client.Heartbeat is the
--                 thread that renews the lease.
--   Teleop        src/flexiv_control/teleop/spacemouse.py: `SpaceMouseTeleop`.
--   Env           src/flexiv_control/envs/gym_env.py: `FlexivRealEnv`.
--   Preview       src/flexiv_control/viz/preview.py, and `validate_chunk` of safety.py.
--   Recede        src/flexiv_control/recede.py: `RecedingHorizonRunner`.
--   Adapter       src/flexiv_control/adapters/lerobot_robot.py: `LeRobotFlexivAdapter`.
--   Common, Number and Tests model no code: shared helpers, the numbers, and runs at concrete inputs.
--
-- How they interact: the servo loop and the executor pass every setpoint through the filter, whose
-- state is the last command; the executor resolves, slices and interpolates a chunk, and tells the
-- backend what the filter let through; the lease decides who may call. The server checks the lease,
-- takes the lock, refuses a motion while a servo loop is installed, and calls the robot; the loop
-- shares the server's robot. The client sends requests to the server and reads its replies in turn;
-- the teleoperation, the environment and the adapter drive a robot or a client. The preview and the
-- runner call the same interpolator and executor.
--
-- A method is a function from its object, and from the readings of the clock that it makes, to a
-- result and the object after it (Common.Exec). An exception is a result (Common.Result) and keeps
-- what was written before it. `ChunkStoppedError` stands without the result that it carries. What
-- another thread does is an argument (a stop request before a tick) or a step between two steps
-- (the sections of the lease, the two parts of a turn of the servo loop).
--
-- Floats, `math` and `numpy` are a parameter (Number.Number): any type with these operations, without
-- NaN. Theorems that compare numbers assume that `<` is a strict weak order (Number.IsOrdered);
-- some assume arithmetic without rounding (Number.IsExact, Interpolation.Reach.IsEased), which floats
-- obey up to their last digit. Number.Fixed is an instance with nine decimals, with linear stand-ins
-- for the trigonometric functions; the tests run on it. Counts are natural numbers; a count or a
-- process number that is not positive is 0. Loops over a chunk are recursions on the list of its
-- setpoints, so they need no fuel. The wait of `command_gripper` and the loops of the runner run on
-- fuel, a turn each: fuel for one turn more than the clock, or `max_steps`, allows is enough, and
-- less is told apart in the result. What Python's `float` and `int` make of a text is a parameter of
-- the decoders, and so is the JSON value of a log, which the client is left with. Text and lists are
-- the library's.
--
-- The package of the vendor (Backend.Rdk.Sdk) is a parameter whose calls may return or raise anything.
-- What the network does to a call (Client.Fate) is an argument: the request is lost, or it is served
-- and its reply is read, stays unread, or the stream ends. What other clients do to the server
-- between two calls is any function of it. A loop that polls takes the readings of its clock as a list.
--
-- Not modelled: the policy client, the simulator backend, the rest of the visualisation, the
-- command line, the configuration, the ROS 2 nodes and the realtime daemon, which are glue, input
-- and output, or stand in another language; of the server and the client, their sockets, the host
-- lock at the server's start, and interleavings inside a handler but for those of the lease; of the
-- protocol, `json`; of the robot, its construction from a configuration; of the servo loop, its
-- period's diagnostics; of the filter, reading and writing profiles, and with it the client's
-- `get_safety_profile`; of the hardware backend, its warnings and the names that versions of the
-- package give to one attribute; of the teleoperation, the device; of the environment and the
-- adapter, the spaces, the schema and the wrapper; `mat_to_quat`; the sleep of a loop that keeps
-- its rate.
pub mod ActionChunk
pub mod Adapter
pub mod Backend
pub mod Client
pub mod Common
pub mod Env
pub mod HostLock
pub mod Interpolation
pub mod Lease
pub mod Number
pub mod Preview
pub mod Protocol
pub mod Recede
pub mod Robot
pub mod Safety
pub mod Server
pub mod ServoLoop
pub mod Teleop
pub mod Tests
pub mod Transforms
pub mod Types
