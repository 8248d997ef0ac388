-- ===== src/Scheduling/Backoff.antt =====
-- The failure backoff and the readiness budget of src/controllers/replica/scheduling.rs.
use postgres_restore_operato.Prelude.{
  ℕ, zero, suc, ◌*◌, ◌^◌, ◌/◌, ◌≤◌, ◌≡◌, refl, min, true, Option, none, some, arith, leb,
  if◌then◌else◌, eqb, counterexample, counterexample-eq_none, Bool, none, ◌∙◌,
}
use postgres_restore_operato.Types.{Quantity}
use postgres_restore_operato.Scheduling.{
  secs, backoff_secs, failure_backoff_delay, deployment_ready_timeout, clamp, saturating_mul,
}

-- The documented schedule: 2, 4, 8, 16 and 32 minutes, then an hour.
abbrev pub ladder : ℕ → ℕ
ladder n =
    if leb n 1
    then 120
    else if leb n 2
    then 240
    else if leb n 3
    then 480
    else if leb n 4
    then 960
    else if leb n 5
    then 1920
    else 3600

agrees : ℕ → Bool
agrees m = eqb (clamp (saturating_mul 60 (2 ^ m)) 120 3600) (ladder m)

ladder_table : counterexample agrees 21 ≡ none
unfolding counterexample agrees
ladder_table = refl

ladder-min : (n : ℕ) → ladder (min n 20) ≡ ladder n
ladder-min n = ground arith

eqb→eq : (a b : ℕ) → eqb a b ≡ true → a ≡ b
eqb→eq a b h = ground arith

backoff_secs-ladder : (n : ℕ) → backoff_secs n ≡ ladder n
unfolding backoff_secs agrees
backoff_secs-ladder n =
    let m = min n 20 in
    eqb→eq _ _ (counterexample-eq_none agrees 21 m ladder_table (omega arith)) ∙ ladder-min n

-- After n failures the delay is the n-th step of the ladder, and there is none after no failure.
pub failure_backoff_delay_lem :
    (n : ℕ) → failure_backoff_delay n ≡ (if leb n 0 then none else some (secs (ladder n)))
unfolding failure_backoff_delay
failure_backoff_delay_lem zero = refl
failure_backoff_delay_lem (suc n) = ground (arith, backoff_secs-ladder (suc n))

-- A further failure never shortens the delay.
pub ladder_mono : (m n : ℕ) → m ≤ n → ladder m ≤ ladder n
ladder_mono m n h = ground arith

div_mono : (a b : ℕ) → a ≤ b → a / (100 * 2 ^ 30) ≤ b / (100 * 2 ^ 30)
div_mono a b h = omega arith

-- Without an explicit timeout, and of two snapshots whose sizes can be parsed, the smaller one's budget
-- is at least the operator's default and at most the larger one's.
pub deployment_ready_timeout_floor :
    (to_bytes : Quantity → Option ℕ) (small large : Quantity) (default_secs b c : ℕ)
    → to_bytes small ≡ some b
    → to_bytes large ≡ some c
    → b ≤ c
    → (secs default_secs ≤ deployment_ready_timeout to_bytes none small default_secs)
      × (deployment_ready_timeout to_bytes none small default_secs
          ≤ deployment_ready_timeout to_bytes none large default_secs)
unfolding deployment_ready_timeout
deployment_ready_timeout_floor to_bytes small large default_secs b c p q h =
    (ground arith, ground (arith, div_mono (b * 900) (c * 900)))
