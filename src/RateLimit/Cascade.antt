-- ===== src/RateLimit/Cascade.antt =====
-- The three limits in a row.
use caspaste.Prelude.{ℕ, ◌<◌, ◌≡◌, ◌⊎◌, none, some, Text, arith}
use caspaste.RateLimit.Window.{check_and_use_refused}
use caspaste.RateLimit.{RateLimit, RateLimitSystem, check_and_use, check_and_use_all}

passes_or_refuses :
    (r : RateLimit) (ip : Text) (now : ℕ)
    → ((check_and_use r ip now).1 ≡ 0)
      ⊎ ((0 < (check_and_use r ip now).1) × ((check_and_use r ip now).0 ≡ r))
passes_or_refuses r ip now = ground (arith, check_and_use_refused r ip now now)

-- The four ways in which a request is answered, with the state that each leaves.
abbrev pub Answered : RateLimitSystem → Text → ℕ → ℕ → ℕ → Type 0
Answered s ip now5 now15 now60 =
    let a = check_and_use s.per_5_min ip now5 in
    let b = check_and_use s.per_15_min ip now15 in
    let c = check_and_use s.per_1_hour ip now60 in
    let after = check_and_use_all s ip now5 now15 now60 in
    ((a.1 ≡ 0)
      × (b.1 ≡ 0)
      × (c.1 ≡ 0)
      × (after.1 ≡ none)
      × (after.0 ≡ record { per_5_min = a.0; per_15_min = b.0; per_1_hour = c.0 }))
    ⊎ ((0 < a.1) × (after.1 ≡ some a.1) × (after.0 ≡ s))
    ⊎ ((a.1 ≡ 0) × (0 < b.1) × (after.1 ≡ some b.1) × (after.0 ≡ record s { per_5_min = a.0 }))
    ⊎ ((a.1 ≡ 0)
        × (b.1 ≡ 0)
        × (0 < c.1)
        × (after.1 ≡ some c.1)
        × (after.0 ≡ record s { per_5_min = a.0; per_15_min = b.0 }))

-- A request passes exactly when all three limiters pass it, and then each has counted it. A refusal
-- carries the wait of the first limiter that refuses; the limiters before that one have counted the
-- request all the same, that one and those after it are as they were.
pub check_and_use_all-Answered :
    (s : RateLimitSystem) (ip : Text) (now5 now15 now60 : ℕ) → Answered s ip now5 now15 now60
unfolding check_and_use_all
check_and_use_all-Answered s ip now5 now15 now60 = ground (
  arith,
  passes_or_refuses s.per_5_min ip now5,
  passes_or_refuses s.per_15_min ip now15,
  passes_or_refuses s.per_1_hour ip now60,
)
