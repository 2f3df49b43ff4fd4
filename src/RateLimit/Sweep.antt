-- ===== src/RateLimit/Sweep.antt =====
-- The worker's rounds, which only save memory.
use caspaste.Prelude.{
  ℕ, ◌≤◌, ◌<◌, ◌≡◌, refl, ap, ◌∙◌, fun_ext, List, [], ◌∷◌, Text, text_eq_iff, arith,
}
use caspaste.RateLimit.{RateLimit, check_and_use, run_worker}
use caspaste.RateLimit.Window.{Event, request, wake, time_of, step}

-- The waits that the requests are answered with, in order.
unfoldable pub answers : RateLimit → List Event → List ℕ
unfolding check_and_use
answers r [] = []
answers r (request ip now ∷ es) = (check_and_use r ip now).1 ∷ answers (step r (request ip now)) es
answers r (wake now ∷ es) = answers (step r (wake now)) es

abbrev pub without_wakes : List Event → List Event
without_wakes [] = []
without_wakes (request ip now ∷ es) = request ip now ∷ without_wakes es
without_wakes (wake now ∷ es) = without_wakes es

-- The clock does not go back, and has passed `t`.
abbrev pub Ordered : ℕ → List Event → Type 0
Ordered t [] = Unit
Ordered t (e ∷ es) = (t ≤ time_of e) × Ordered (time_of e) es

Ordered-mono : (s t : ℕ) (es : List Event) → s ≤ t → Ordered t es → Ordered s es
Ordered-mono s t [] h o = tt
Ordered-mono s t (e ∷ es) h o = (omega (arith, o.0), o.1)

RateLimit-path :
    (r s : RateLimit)
    → r.limit_period ≡ s.limit_period
    → r.limit_count ≡ s.limit_count
    → ((j : Text) → r.list j ≡ s.list j)
    → r ≡ s
RateLimit-path r s p c h = λ i. record { limit_period = p i; limit_count = c i; list = fun_ext h i }

run_worker_twice :
    (r : RateLimit) (s t : ℕ) → s ≤ t → run_worker (run_worker r s) t ≡ run_worker r t
unfolding run_worker
run_worker_twice r s t h = RateLimit-path _ _ refl refl (λ j. ground arith)

check_and_use-run_worker :
    (r : RateLimit) (ip : Text) (t now : ℕ)
    → t ≤ now
    → 0 < r.limit_period
    → r.limit_period ≤ now
    → ((check_and_use (run_worker r t) ip now).1 ≡ (check_and_use r ip now).1)
      × ((check_and_use (run_worker r t) ip now).0 ≡ run_worker (check_and_use r ip now).0 t)
unfolding check_and_use run_worker
check_and_use-run_worker r ip t now h p q = (
  ground arith,
  RateLimit-path _ _ (ground arith) (ground arith) (λ j. ground (arith, text_eq_iff j ip)),
)

step-period : (r : RateLimit) (e : Event) → (step r e).limit_period ≡ r.limit_period
unfolding step
step-period r (request ip now) = ground arith
step-period r (wake now) = refl

-- A round changes no later answer.
answers-run_worker :
    (es : List Event) (r : RateLimit) (t : ℕ)
    → 0 < r.limit_period
    → r.limit_period ≤ t
    → Ordered t es
    → answers (run_worker r t) es ≡ answers r es
unfolding answers step
answers-run_worker [] r t p q o = refl
answers-run_worker (request ip now ∷ es) r t p q o =
    let (same, commutes) = check_and_use-run_worker r ip t now o.0 p (omega (arith, o.0)) in
    rw (same, commutes)
      (ap (◌∷◌ (check_and_use r ip now).1) (
        answers-run_worker es (check_and_use r ip now).0 t
          (ground (arith, step-period r (request ip now)))
          (ground (arith, step-period r (request ip now))) (Ordered-mono t now es o.0 o.1)))
answers-run_worker (wake now ∷ es) r t p q o = rw (run_worker_twice r t now o.0)

-- The worker is invisible: with a clock that does not go back, every request is answered as if the
-- worker had never run, whenever it ran.
pub answers-without_wakes :
    (es : List Event) (r : RateLimit) (t : ℕ)
    → 0 < r.limit_period
    → r.limit_period ≤ t
    → Ordered t es
    → answers r es ≡ answers r (without_wakes es)
unfolding answers step
answers-without_wakes [] r t p q o = refl
answers-without_wakes (request ip now ∷ es) r t p q o = ap (◌∷◌ (check_and_use r ip now).1) (
    answers-without_wakes es (check_and_use r ip now).0 now
      (ground (arith, step-period r (request ip now)))
      (ground (arith, o.0, step-period r (request ip now))) o.1)
answers-without_wakes (wake now ∷ es) r t p q o =
    answers-run_worker es r now p (omega (arith, o.0)) o.1
    ∙ answers-without_wakes es r now p (omega (arith, o.0)) o.1
