-- ===== src/Cron/Next.antt =====
-- `CronExpr.Next`, `matches` and `contains` of src/scheduler/cron.go. Instants are nanoseconds
-- since the zero `time.Time`; what a location makes of an instant is the parameter `moment`.
use caspaste.Prelude.{
  ℕ, zero, suc, ◌+◌, ◌*◌, ◌/◌, ◌^◌, ◌≤◌, ◌<◌, ◌==◌, ◌&&◌, ◌≡◌, Bool, true, false, if◌then◌else◌,
  List, [], ◌∷◌, ◌⊎◌,
}
use caspaste.Prelude.Int.{ℤ, pos, negsuc, sub_ℕ}
use caspaste.Cron.Parse.{Schedule, CronExpr, every, at}

pub record Moment : Type 0 where
  pub minute : ℕ
  pub hour : ℕ
  pub day : ℕ
  pub month : ℕ
  pub weekday : ℕ

abbrev pub contains : List ℕ → ℕ → Bool
contains [] val = false
contains (v ∷ vs) val = if v == val then true else contains vs val

abbrev pub minutes : ℕ
minutes = 60 * 10 ^ 9

-- `after.Truncate(time.Minute)`, and the minute after it.
abbrev pub first_minute : ℕ → ℕ
first_minute after = after / minutes * minutes + minutes

-- `Add`.
abbrev add_duration : ℕ → ℤ → ℤ
add_duration t (pos d) = pos (t + d)
add_duration t (negsuc n) = sub_ℕ t (n + 1)

unfoldable pub max_iterations : ℕ
max_iterations = 366 * 4 * 24 * 60

module _ (moment : ℕ → Moment) where
  unfoldable pub matches : Schedule → ℕ → Bool
  matches c t =
      contains c.minute (moment t).minute
      && contains c.hour (moment t).hour
      && contains c.day (moment t).day
      && contains c.month (moment t).month
      && contains c.weekday (moment t).weekday

  -- The loop of `Next` with `n` rounds left; the zero time if none matches.
  unfoldable pub search : ℕ → Schedule → ℕ → ℕ
  search zero c t = 0
  search (suc n) c t = let rest = search n c (t + minutes) in if matches c t then t else rest

  unfoldable pub next : CronExpr → ℕ → ℤ
  next (every d) after = add_duration after d
  next (at c) after = pos (search max_iterations c (first_minute after))

  -- What the loop finds from `t` on: the first match, or that there is none.
  abbrev Found : ℕ → Schedule → ℕ → ℕ → Type 0
  Found n c t r =
      ((k : ℕ) × (k < n)
        × (r ≡ t + k * minutes)
        × (matches c r ≡ true)
        × ((j : ℕ) → j < k → matches c (t + j * minutes) ≡ false))
      ⊎ ((r ≡ 0) × ((j : ℕ) → j < n → matches c (t + j * minutes) ≡ false))

  -- A whole minute after `after` that matches, with no such minute between them.
  pub IsNext : Schedule → ℕ → ℕ → Type 0
  IsNext c after t =
      (after < t)
      × ((q : ℕ) × (t ≡ q * minutes))
      × (matches c t ≡ true)
      × ((q : ℕ) → after < q * minutes → q * minutes < t → matches c (q * minutes) ≡ false)

  -- No whole minute among the next `n` after `after` matches.
  pub HasNone : Schedule → ℕ → ℕ → Type 0
  HasNone c after n =
      (q : ℕ)
      → after < q * minutes
      → q * minutes ≤ after + n * minutes
      → matches c (q * minutes) ≡ false
