-- ===== src/Robot/Joint/Entry.antt =====
-- The entry of `execute_joint_chunk`, on the fake backend.
use package.flexiv_control.Robot.{
  Robot, on_backend, check_lease, take_cancel, verify_chunk_profile, get_state,
}
use package.flexiv_control.Robot.Cartesian.Method.{aborted_at_entry, raised_if}
use package.flexiv_control.Robot.Joint.{executed, execute_joint_chunk}
use flexiv_control.Common.{ℕ, Bool, true, false, ◌≡◌, ◌≢◌, ◌⊎◌, inl, inr, arith, str_eq_iff}
use flexiv_control.Common.Result.{Result, ok, err, value_error, chunk_stopped}
use flexiv_control.Common.Exec.{◌>>=◌}
use flexiv_control.Number.{Number}
use flexiv_control.Types.{StopReason}
use flexiv_control.ActionChunk.{JointChunk}
use flexiv_control.Backend.Fake.{FakeBackend, fake_backend, read_state}
use flexiv_control.Robot.Report.{ExecutionResult}

module _ {F : Type 0} ⦃n : Number F⦄ (now : F) (chunk : JointChunk F) (raise_on_stop : Bool)
    (requests : ℕ → Bool) (r : Robot F (FakeBackend F)) where
  abbrev outcome : Result (ExecutionResult F) × Robot F (FakeBackend F)
  outcome = execute_joint_chunk (fake_backend now) chunk raise_on_stop requests r

  -- A result that is no success, with the reason `user`, or the exception for it.
  abbrev pub Stopped : Result (ExecutionResult F) → Type 0
  Stopped (ok res) = (res.success ≡ false) × (res.stop_reason ≡ StopReason.user)
  Stopped (err e) = (e ≡ chunk_stopped)

  -- The backend is told nothing by a joint chunk that finds a stop pending, which it consumes and
  -- reports, nor, with no stop pending, by one that names another safety profile than the active
  -- one, which is refused.
  pub execute_joint_chunk-entry :
      (r.cancel ≡ true)
        ⊎ ((r.cancel ≡ false)
            × (chunk.safety_profile ≢ "")
            × (chunk.safety_profile ≢ r.profile.name))
      → (outcome.1.backend ≡ r.backend)
        × (outcome.1.cancel ≡ false)
        × (((r.cancel ≡ true) × Stopped outcome.0)
            ⊎ ((r.cancel ≡ false) × (outcome.0 ≡ err value_error)))
  unfolding execute_joint_chunk check_lease take_cancel aborted_at_entry raised_if get_state
      read_state ◌>>=◌ on_backend executed verify_chunk_profile
  execute_joint_chunk-entry (inl h) = ground (arith, h)
  execute_joint_chunk-entry (inr (h, named, other)) =
      ground (
        arith,
        h,
        str_eq_iff chunk.safety_profile "",
        str_eq_iff chunk.safety_profile r.profile.name,
      )
