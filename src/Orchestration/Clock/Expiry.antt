-- ===== src/Orchestration/Clock/Expiry.antt =====
-- orchestration/deadline.ts: the instants that boundaries expire at.
use secure_home_agent_platfo.Prelude.{◌≡◌, ℕ, ◌+◌, ◌≤◌, some, ◌↔◌, arith}
use secure_home_agent_platfo.Orchestration.Clock.{
  RunDeadline, set_wall_clock, narrow_profile, raise, expiry, recovery_expiry, recovery_bound,
  Bound, abandon_grace_ms, min,
}

-- Narrowing never moves the armed instant later.
narrow_profile-le :
    (now ms : ℕ) (d : RunDeadline) (at : ℕ)
    → d.armed_until ≡ some at
    → (at' : ℕ) × ((narrow_profile now ms d).armed_until ≡ some at') × (at' ≤ at)
unfolding narrow_profile set_wall_clock raise
narrow_profile-le now ms d at h = (min at (d.started_at + ms), ground arith, ground arith)

-- During recovery the run's own clock binds exactly where it is armed for no later than the ceiling of
-- the recovery; the instant that wins is never later than either.
recovery_expiry-le :
    (created : ℕ) (d : RunDeadline) (at : ℕ)
    → d.armed_until ≡ some at
    → ((recovery_expiry created d).at ≤ at)
      × ((recovery_expiry created d).at ≤ created + abandon_grace_ms)
      × ((recovery_bound created d ≡ Bound.governed) ↔ (at ≤ created + abandon_grace_ms))
unfolding recovery_bound recovery_expiry expiry
recovery_expiry-le created d at h =
    (ground arith, ground arith, ((λ e. ground arith), (λ e. ground arith)))
