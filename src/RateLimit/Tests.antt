-- ===== src/RateLimit/Tests.antt =====
-- Runs of ratelimit.go, and its theorems at concrete inputs.
use caspaste.Prelude.{◌≤◌, ◌≡◌, refl, List, [], ◌∷◌, Text, codes, text_eq, arith}
use caspaste.RateLimit.{RateLimit, RateLimitSystem, new_rate_limit, new_rate_limit_system}
use caspaste.RateLimit.Window.{Event, request, wake, admitted, step, admitted-le}
use caspaste.RateLimit.Sweep.{answers, without_wakes, answers-without_wakes}
use caspaste.RateLimit.Cascade.{Answered, check_and_use_all-Answered}

abbrev client : Text
client = codes "10.0.0.1"

abbrev events : List Event
events =
    request client 1000
    ∷ request client 1001
    ∷ request client 1002
    ∷ wake 1299
    ∷ request client 1299
    ∷ wake 1300
    ∷ request client 1301
    ∷ []

abbrev two_per_period : RateLimit
unfolding new_rate_limit
two_per_period = new_rate_limit 300 2

answers-events : answers two_per_period events ≡ 0 ∷ 0 ∷ 298 ∷ 1 ∷ 0 ∷ []
unfolding answers step new_rate_limit text_eq
answers-events = refl

answers-without_wakes_example :
    answers two_per_period events ≡ answers two_per_period (without_wakes events)
unfolding new_rate_limit
answers-without_wakes_example =
    answers-without_wakes events two_per_period 300 (omega arith) (omega arith) (omega arith)

admitted-le_example :
    admitted client two_per_period
      (request client 1000 ∷ request client 1001 ∷ request client 1002 ∷ wake 1299 ∷ [])
    ≤ 4
unfolding new_rate_limit
admitted-le_example =
    admitted-le client two_per_period
      (request client 1000 ∷ request client 1001 ∷ request client 1002 ∷ wake 1299 ∷ []) 1000 300 2
      (omega arith) (omega arith) (omega arith)

abbrev limits : RateLimitSystem
unfolding new_rate_limit_system
limits = new_rate_limit_system 1 5 9

check_and_use_all-Answered_run : Answered limits client 1000 1000 1000
check_and_use_all-Answered_run = check_and_use_all-Answered limits client 1000 1000 1000
