-- ===== src/RateLimit.antt =====
-- src/netshare/ratelimit.go: fixed windows per client address, and the three limits in a row.
-- Times are Unix seconds, read by the caller and passed in; a state is what the mutex guards.
pub mod Window
pub mod Sweep
pub mod Cascade
mod Tests
use caspaste.Prelude.{
  ℕ, ◌+◌, ◌-◌, ◌*◌, ◌%◌, ◌^◌, Option, none, some, ltb, leb, ◌==◌, if◌then◌else◌, Text, Map, put,
  purge, read_or,
}

-- The second value is the number of requests, a `uint`.
pub record RateLimitIp : Type 0 where
  pub use_time : ℕ
  pub use_count : ℕ

pub record RateLimit : Type 0 where
  pub limit_period : ℕ
  pub limit_count : ℕ
  pub list : Map RateLimitIp

unfoldable pub new_rate_limit : ℕ → ℕ → RateLimit
new_rate_limit period count = record {
  limit_period = period;
  limit_count = count;
  list = λ _. none;
}

abbrev no_use : RateLimitIp
no_use = record { use_time = 0; use_count = 0 }

-- `rateLimit.list[ipStr]`.
abbrev pub entry : RateLimit → Text → RateLimitIp
entry r ip = read_or no_use (r.list ip)

-- One round of the worker, at the time when it wakes.
unfoldable pub run_worker : RateLimit → ℕ → RateLimit
run_worker r now = record r { list = purge (λ e. leb (e.use_time + r.limit_period) now) r.list }

-- The new state and the seconds to wait; 0 lets the request through.
unfoldable pub check_and_use : RateLimit → Text → ℕ → RateLimit × ℕ
check_and_use r ip now =
    if r.limit_count == 0
    then (r, 0)
    else if leb ((entry r ip).use_time + r.limit_period) now
    then (record r { list = put ip (record { use_time = now; use_count = 1 }) r.list }, 0)
    else if ltb (entry r ip).use_count r.limit_count
    then (
      record r {
        list =
            put ip (record (entry r ip) { use_count = ((entry r ip).use_count + 1) % 2 ^ 64 })
              r.list;
      },
      0,
    )
    else (r, (entry r ip).use_time + r.limit_period - now)

pub record RateLimitSystem : Type 0 where
  pub per_5_min : RateLimit
  pub per_15_min : RateLimit
  pub per_1_hour : RateLimit

unfoldable pub new_rate_limit_system : ℕ → ℕ → ℕ → RateLimitSystem
new_rate_limit_system per5 per15 per60 = record {
  per_5_min = new_rate_limit (5 * 60) per5;
  per_15_min = new_rate_limit (15 * 60) per15;
  per_1_hour = new_rate_limit (60 * 60) per60;
}

-- `RateLimitSystem.CheckAndUse`: `some wait` is the error with its `RetryAfter`. Each limiter reads
-- the clock of its own.
unfoldable pub check_and_use_all : RateLimitSystem → Text → ℕ → ℕ → ℕ → RateLimitSystem × Option ℕ
check_and_use_all s ip now5 now15 now60 =
    let (a, wait5) = check_and_use s.per_5_min ip now5 in
    let s5 = record s { per_5_min = a } in
    if wait5 == 0
    then (let (b, wait15) = check_and_use s5.per_15_min ip now15 in
        let s15 = record s5 { per_15_min = b } in
        if wait15 == 0
        then (let (c, wait60) = check_and_use s15.per_1_hour ip now60 in
            let s60 = record s15 { per_1_hour = c } in
            if wait60 == 0 then (s60, none) else (s60, some wait60))
        else (s15, some wait15))
    else (s5, some wait5)
