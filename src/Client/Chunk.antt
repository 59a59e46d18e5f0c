-- ===== src/Client/Chunk.antt =====
-- A chunk that is executed over the network.
use package.flexiv_control.Client.{Remote, Passage, opened, arrives, outcome, call}
use package.flexiv_control.Client.Answers.{call-in_step}
use package.flexiv_control.Client.Methods.{
  Codec, result_in, ask, asked, raised_if, execute_cartesian_chunk,
}
use flexiv_control.Common.{
  ℕ, ◌+◌, ◌≤◌, Bool, false, not, ◌&&◌, none, some, [], ◌≡◌, ◌≢◌, refl, ap, ◌∙◌, Bool-cases, inl,
  inr, if◌then◌else◌,
}
use flexiv_control.Common.Result.{Result, ok, err, remote_error, chunk_stopped}
use flexiv_control.Common.Exec.{proceed, return, ◌>>=◌}
use flexiv_control.Number.{Number}
use flexiv_control.ActionChunk.{CartesianChunk}
use flexiv_control.Backend.{Backend}
use flexiv_control.Lease.Holder.{holder}
use flexiv_control.Lease.Sections.{HeldThroughout, run}
use flexiv_control.Protocol.RoundTrip.{rebuilt, chunk_from_dict-chunk_to_dict}
use flexiv_control.Protocol.Outcome.{ReceivedResult, received, result_from_dict-result_to_dict}
use flexiv_control.Protocol.Wire.{Json}
use flexiv_control.Robot.{Robot}
use flexiv_control.Robot.Cartesian.Method
use flexiv_control.Robot.Report.{ExecutionLog, ExecutionResult}
use flexiv_control.Server.{Server}
use flexiv_control.Server.Motion.{Reply, Motion, motion_body, handle_motion}
use flexiv_control.Server.Dispatch.{Request, answer, handle, dispatch}
use flexiv_control.Server.Session.{in_flight, under_way, handle_motion-holder}

-- What the client makes of what the robot's method returned or raised.
abbrev pub seen_remotely :
    {F : Type 0} ⦃n : Number F⦄
    → (ExecutionLog F → Json F)
    → Bool
    → Result (ExecutionResult F)
    → Result (ReceivedResult F)
seen_remotely logs raise_on_stop (ok r) =
    if raise_on_stop && not r.success then err chunk_stopped else ok (received logs r)
seen_remotely logs raise_on_stop (err e) = err remote_error

-- What is reported to the client.
abbrev reported : {F : Type 0} → Result (Reply F) → Result (Reply F)
reported (ok r) = ok r
reported (err e) = err remote_error

abbrev as_reply : {F : Type 0} → Result (ExecutionResult F) → Result (Reply F)
as_reply (ok r) = ok (Reply.result r)
as_reply (err e) = err e

module _ {F B : Type 0} where
  answer-reported :
      (x : Result (Reply F) × Server F B)
      → (outcome (answer x).0 ≡ reported x.0) × ((answer x).1 ≡ x.1)
  answer-reported (ok r, s) = (refl, refl)
  answer-reported (err e, s) = (refl, refl)

  returned :
      (x : Result (ExecutionResult F) × Robot F B)
      → proceed x.0 (λ r. return (Reply.result r)) x.1 ≡ (as_reply x.0, x.1)
  returned (ok r, s) = refl
  returned (err e, s) = refl

module _ {F : Type 0} ⦃n : Number F⦄ {B : Type 0} (codec : Codec F) (ops : Backend F B) where
  -- What the client does with the reply.
  finished :
      (raise_on_stop : Bool) (a : Result (ExecutionResult F)) (c : Remote F B)
      → proceed
          (proceed (reported (as_reply a)) (λ r c. (result_in codec r, c)) c).0
          (raised_if codec ops raise_on_stop)
          (proceed (reported (as_reply a)) (λ r c. (result_in codec r, c)) c).1
        ≡ (seen_remotely codec.logs raise_on_stop a, c)
  unfolding result_in raised_if
  finished raise_on_stop (err e) c = refl
  finished raise_on_stop (ok r) c =
      rw (result_from_dict-result_to_dict codec.py codec.logs r)
        (elim (Bool-cases (raise_on_stop && not r.success)) [
          | inl e ↦ rw e refl
          | inr e ↦ rw e refl
        ])

  module _ (chunk chunk' : CartesianChunk F) (raise_on_stop : Bool) (p : Passage F) (c : Remote F B)
      (t : ℕ) where
    open p.around use {scene}
    open p.around.scene use {times, others, world}

    -- The robot's own method, called in the owner's name on the robot of the server.
    abbrev pub locally : Result (ExecutionResult F) × Robot F B
    locally =
        Method.execute_cartesian_chunk ops chunk' false false world.moving
          (record c.server.robot { owner = some c.owner })

    abbrev request : Motion F
    request = Motion.cartesian_chunk (ok chunk')

    -- The client after the call, when the server's answer is the one it gave.
    abbrev served_by : Result (Reply F) × Server F B → Remote F B
    served_by h = record c { link = opened; next_id = c.next_id + 1; server = h.1; queue = [] }

    method_ran : under_way ops c.owner scene request c.server ≡ (as_reply locally.0, locally.1)
    unfolding motion_body ◌>>=◌
    method_ran = returned locally

    call-locally :
        c.queue ≡ []
        → c.link ≡ opened
        → p.fate ≡ arrives
        → (handle_motion ops c.owner scene request c.server).0 ≡ as_reply locally.0
        → call ops p (Request.motion c.owner request) c ≡ (
          reported (as_reply locally.0),
          served_by (handle_motion ops c.owner scene request c.server),
        )
    unfolding dispatch handle
    call-locally clean up lands said =
        let (told, left) = answer-reported (handle_motion ops c.owner scene request c.server) in
        rw (call-in_step ops p (Request.motion c.owner request) c clean up lands, told, left, said)
          refl

    -- A chunk over the network is the chunk on the robot. For the holder of the lease with a name, a
    -- connection on which nothing waits, a call that gets through, no servo loop, and a chunk of
    -- values that the constructors take, which make `chunk'` of them: the server's robot ends
    -- exactly as after its own method for `chunk'`; the client returns what that method returned,
    -- entry by entry, with the log as it is written and no joint speed (or raises that the chunk
    -- was stopped, if it was asked to), and raises if the method raised; and however long the motion
    -- lasted, as long as no other thread steals the lease by force or releases it in the
    -- owner's name, the owner holds it for a full term from the end of the motion.
    pub execute_cartesian_chunk-locally :
        c.queue ≡ []
        → c.link ≡ opened
        → p.fate ≡ arrives
        → rebuilt chunk ≡ ok chunk'
        → c.owner ≢ ""
        → holder times.checked c.server.lease ≡ some c.owner
        → times.entered ≤ times.beaten + c.server.lease.ttl
        → c.server.servo ≡ none
        → HeldThroughout c.owner (in_flight ops c.owner scene c.server.lease) others
        → t ≤ times.left + (run (in_flight ops c.owner scene c.server.lease) others).ttl
        → let (a, c') = execute_cartesian_chunk codec ops chunk raise_on_stop p c in
          (a ≡ seen_remotely codec.logs raise_on_stop locally.0)
          × (c'.server.robot ≡ locally.1)
          × (holder t c'.server.lease ≡ some c.owner)
    unfolding execute_cartesian_chunk asked ask ◌>>=◌
    execute_cartesian_chunk-locally clean up lands built named holds soon free spared early =
        let (said, done, kept) =
          handle_motion-holder ops c.owner scene request c.server t named holds soon free refl
            spared early in
        let spoken = said ∙ ap (λ (x : Result (Reply F) × Robot F B). x.0) method_ran in
        let moved = done ∙ ap (λ (x : Result (Reply F) × Robot F B). x.1) method_ran in
        rw
          (
            chunk_from_dict-chunk_to_dict codec.py codec.default_impedance chunk,
            built,
            call-locally clean up lands spoken,
            finished raise_on_stop locally.0
                (served_by (handle_motion ops c.owner scene request c.server)),
          )
          (refl, moved, kept)
