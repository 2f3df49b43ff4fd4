-- ===== src/RateLimit/Window.antt =====
-- One limiter: what a client gets within a window and within any stretch of one period.
use caspaste.Prelude.{
  ℕ, ◌+◌, ◌-◌, ◌*◌, ◌%◌, ◌^◌, ◌≤◌, ◌<◌, ◌≡◌, ◌&&◌, Option, none, some, List, [], ◌∷◌, ltb, leb,
  ◌==◌, if◌then◌else◌, Text, text_eq, text_eq_iff, All, arith, Bool-cases, inl, inr, ◌⊎◌,
}
use caspaste.RateLimit.{RateLimit, RateLimitIp, entry, check_and_use, run_worker}

-- A refused client is told a positive wait; it is refused until then, and let through at that time,
-- and the refusal itself changed nothing.
pub check_and_use_refused :
    (r : RateLimit) (ip : Text) (now later : ℕ)
    → 0 < (check_and_use r ip now).1
    → ((check_and_use r ip now).0 ≡ r)
      × ((check_and_use r ip later).1 ≡ now + (check_and_use r ip now).1 - later)
unfolding check_and_use
check_and_use_refused r ip now later h = ground arith

-- What reaches a limiter: a request of a client, or the worker's round, at a time.
pub data Event : Type 0 where
  request : Text → ℕ → Event
  wake : ℕ → Event

abbrev pub time_of : Event → ℕ
time_of (request ip now) = now
time_of (wake now) = now

unfoldable pub step : RateLimit → Event → RateLimit
unfolding check_and_use run_worker
step r (request ip now) = (check_and_use r ip now).0
step r (wake now) = run_worker r now

unfoldable pub admits : Text → RateLimit → Event → ℕ
unfolding check_and_use
admits ip r (request j now) = if text_eq ip j && (check_and_use r j now).1 == 0 then 1 else 0
admits ip r (wake now) = 0

-- The requests of `ip` that are let through.
unfoldable pub admitted : Text → RateLimit → List Event → ℕ
admitted ip r [] = 0
admitted ip r (e ∷ es) = admits ip r e + admitted ip (step r e) es

-- A limiter with this period and a limit that is not 0 and fits a `uint`.
pub record Limits (r : RateLimit) (period limit : ℕ) : Type 0 where
  pub has_period : r.limit_period ≡ period
  pub has_limit : r.limit_count ≡ limit
  pub positive : 0 < limit
  pub word : limit < 2 ^ 64

step-Limits : (r : RateLimit) (e : Event) {p l : ℕ} → Limits r p l → Limits (step r e) p l
unfolding step
step-Limits r (request j now) h = ground arith
step-Limits r (wake now) h = ground arith

abbrev pub Within : ℕ → ℕ → Event → Type 0
Within a b e = (a ≤ time_of e) × (time_of e < b)

abbrev after_request : Text → Text → ℕ → RateLimitIp → RateLimitIp
after_request ip j limit u =
    if text_eq ip j
    then (if ltb u.use_count limit then record u { use_count = (u.use_count + 1) % 2 ^ 64 } else u)
    else u

-- One step inside a window that opened at `a` or later.
step-open :
    (ip : Text) (r : RateLimit) (ev : Event) (a period limit : ℕ) (u : RateLimitIp)
    → Limits r period limit
    → r.list ip ≡ some u
    → a ≤ u.use_time
    → time_of ev < a + period
    → (v : RateLimitIp) × ((step r ev).list ip ≡ some v)
      × (a ≤ v.use_time)
      × (admits ip r ev + (limit - v.use_count) ≤ limit - u.use_count)
unfolding step admits
step-open ip r (request j now) a period limit u l e h t = (
  after_request ip j limit u,
  ground (arith, text_eq_iff ip j, text_eq_iff j ip),
  ground arith,
  ground (arith, text_eq_iff ip j),
)
step-open ip r (wake now) a period limit u l e h t = (u, ground arith, h, ground arith)

-- In an open window no more is let through than the window has left.
pub admitted-le_open :
    (ip : Text) (r : RateLimit) (es : List Event) (a period limit : ℕ) (u : RateLimitIp)
    → Limits r period limit
    → r.list ip ≡ some u
    → a ≤ u.use_time
    → All (Within a (a + period)) es
    → admitted ip r es ≤ limit - u.use_count
unfolding admitted
admitted-le_open ip r [] a period limit u l e h ts = omega arith
admitted-le_open ip r (ev ∷ es) a period limit u l e h ts =
    let (v, e', h', spent) = step-open ip r ev a period limit u l e h ts.0.1 in
    omega
      (arith, admitted-le_open ip (step r ev) es a period limit v (step-Limits r ev l) e' h' ts.1)

-- What a client can still get before a stretch of one period ends, its open window included.
abbrev budget : ℕ → Option RateLimitIp → ℕ
budget limit none = limit
budget limit (some u) = (limit - u.use_count) + limit

-- Either the client's window was opened in this step, or the step is paid from the budget.
step-budget :
    (ip : Text) (r : RateLimit) (ev : Event) (a period limit : ℕ)
    → Limits r period limit
    → period ≤ a
    → a ≤ time_of ev
    → ((u : RateLimitIp) × ((step r ev).list ip ≡ some u)
        × (a ≤ u.use_time)
        × (admits ip r ev + (limit - u.use_count) ≤ limit))
      ⊎ (admits ip r ev + budget limit ((step r ev).list ip) ≤ budget limit (r.list ip))
unfolding step admits
step-budget ip r (request j now) a period limit l p t =
    elim (Bool-cases (text_eq ip j && leb ((entry r j).use_time + r.limit_period) now)) [
      | inl fresh ↦ inl (
        record { use_time = now; use_count = 1 },
        ground (arith, text_eq_iff ip j),
        ground arith,
        ground (arith, text_eq_iff ip j),
      )
      | inr old ↦ inr (ground (arith, text_eq_iff ip j))
    ]
step-budget ip r (wake now) a period limit l p t = inr (ground arith)

admitted-le_budget :
    (ip : Text) (r : RateLimit) (es : List Event) (a period limit : ℕ)
    → Limits r period limit
    → period ≤ a
    → All (Within a (a + period)) es
    → admitted ip r es ≤ budget limit (r.list ip)
unfolding admitted
admitted-le_budget ip r [] a period limit l p ts = omega arith
admitted-le_budget ip r (ev ∷ es) a period limit l p ts =
    elim (step-budget ip r ev a period limit l p ts.0.0) [
      | inl (u, e, h, spent) ↦
          ground (
            arith,
            admitted-le_open ip (step r ev) es a period limit u (step-Limits r ev l) e h ts.1,
          )
      | inr spent ↦
          omega
            (arith, admitted-le_budget ip (step r ev) es a period limit (step-Limits r ev l) p ts.1)
    ]

-- In any stretch of time as long as the period, whatever the other clients send and whenever the
-- worker runs, one client gets at most twice the limit through. The stretch starts at `a`, which is
-- at least one period after the epoch.
pub admitted-le :
    (ip : Text) (r : RateLimit) (es : List Event) (a period limit : ℕ)
    → Limits r period limit
    → period ≤ a
    → All (Within a (a + period)) es
    → admitted ip r es ≤ 2 * limit
admitted-le ip r es a period limit l p ts =
    ground (arith, admitted-le_budget ip r es a period limit l p ts)
