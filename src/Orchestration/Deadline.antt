-- ===== src/Orchestration/Deadline.antt =====
-- orchestration/controls.ts, `boundedDeadlineMs`: the wall clock is never more than what was granted.
use Prim.Native.Nat.{◌*◌}
use secure_home_agent_platfo.Prelude.{ℕ, ◌≤◌, Option, none, some, arith, ◌≡◌}
use secure_home_agent_platfo.Orchestration.Controls.{min, bounded_deadline_ms}

min_left : (m n : ℕ) → min m n ≤ m
min_left m n = ground arith

min_right : (m n : ℕ) → min m n ≤ n
min_right m n = ground arith

-- Neither the session nor an override lengthens the time that the profile grants; what the session
-- offers is kept too, and an override shortens the time to at most itself.
bounded_deadline_ms-le :
    (profile session : ℕ) (override : Option ℕ)
    → (bounded_deadline_ms profile session override ≤ profile * 1000)
      × ((bounded_deadline_ms profile session override ≤ session * 1000)
          × ((n : ℕ) → override ≡ some n → bounded_deadline_ms profile session override ≤ n))
unfolding bounded_deadline_ms
bounded_deadline_ms-le p s none = (
  min_left (p * 1000) (s * 1000),
  (min_right (p * 1000) (s * 1000), λ n h. absurd (ground arith)),
)
bounded_deadline_ms-le p s (some o) =
    let a = min_left (p * 1000) (s * 1000) in
    let b = min_right (p * 1000) (s * 1000) in
    let c = min_left (min (p * 1000) (s * 1000)) o in
    (omega arith, (omega arith, λ n h. ground (arith, min_right (min (p * 1000) (s * 1000)) o)))
