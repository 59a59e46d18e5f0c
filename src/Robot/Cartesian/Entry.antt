-- ===== src/Robot/Cartesian/Entry.antt =====
-- The entry of `execute_cartesian_chunk`, on the fake backend: a pending stop, and a chunk that was
-- planned for another safety profile.
use package.flexiv_control.Robot.{
  Robot, on_backend, check_lease, take_cancel, verify_chunk_profile, get_state,
}
use package.flexiv_control.Robot.Cartesian.Method.{
  aborted_at_entry, executed, execute_cartesian_chunk, raised_if,
}
use flexiv_control.Common.{ℕ, Bool, true, false, ◌≡◌, ◌≢◌, arith, str_eq_iff}
use flexiv_control.Common.Result.{Result, ok, err, value_error, chunk_stopped}
use flexiv_control.Common.Exec.{◌>>=◌}
use flexiv_control.Number.{Number}
use flexiv_control.Types.{StopReason}
use flexiv_control.ActionChunk.{CartesianChunk}
use flexiv_control.Backend.Fake.{FakeBackend, fake_backend, read_state}
use flexiv_control.Robot.Report.{ExecutionResult}

module _ {F : Type 0} ⦃n : Number F⦄ (now : F) (chunk : CartesianChunk F)
    (raise_on_stop recorded : Bool) (requests : ℕ → Bool) (r : Robot F (FakeBackend F)) where
  abbrev outcome : Result (ExecutionResult F) × Robot F (FakeBackend F)
  outcome = execute_cartesian_chunk (fake_backend now) chunk raise_on_stop recorded requests r

  -- A result that is no success, with the reason `user`.
  abbrev pub SaysUser : Result (ExecutionResult F) → Type 0
  SaysUser (ok res) = (res.success ≡ false) × (res.stop_reason ≡ StopReason.user)
  SaysUser (err e) = (e ≡ chunk_stopped)

  -- A stop that is pending when a chunk arrives is consumed by that chunk: the backend is not told
  -- anything, the event is cleared, and the caller learns of it, by a result or, on request, by
  -- an exception.
  pub execute_cartesian_chunk-cancelled :
      r.cancel ≡ true
      → (outcome.1.backend ≡ r.backend) × (outcome.1.cancel ≡ false) × SaysUser outcome.0
  unfolding execute_cartesian_chunk check_lease take_cancel aborted_at_entry raised_if get_state
      read_state ◌>>=◌ on_backend
  execute_cartesian_chunk-cancelled h = ground (arith, h)

  -- With no stop pending, a chunk that names another safety profile than the active one is refused
  -- before the backend is told anything.
  pub execute_cartesian_chunk-profile :
      r.cancel ≡ false
      → chunk.safety_profile ≢ ""
      → chunk.safety_profile ≢ r.profile.name
      → (outcome.0 ≡ err value_error) × (outcome.1.backend ≡ r.backend)
  unfolding execute_cartesian_chunk check_lease take_cancel executed verify_chunk_profile ◌>>=◌
  execute_cartesian_chunk-profile h named other =
      ground (
        arith,
        h,
        str_eq_iff chunk.safety_profile "",
        str_eq_iff chunk.safety_profile r.profile.name,
      )
