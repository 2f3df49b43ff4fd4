-- ===== src/Settings/Tests.antt =====
-- Ports, durations and modes that are read.
use caspaste.Prelude.{◌≡◌, refl, some, [], ◌∷◌, codes, arith, split_on, ◌*◌, ◌^◌}
use caspaste.Prelude.Int.{pos}
use caspaste.Prelude.Numbers.{atoi, trim_space}
use caspaste.Settings.Ports.{parse_ports, format_ports, parse_ports-format_ports}
use caspaste.Settings.Durations.{parse_duration}
use caspaste.Settings.Spans.{minutes, hours, days, render, parse_duration-render}

parse_ports-format_ports_run : parse_ports (format_ports 8080 64453) ≡ some (8080, 64453)
parse_ports-format_ports_run =
    parse_ports-format_ports 8080 64453 (omega arith) (omega arith) (omega arith)

-- A third part is passed over, and so is the second.
parse_ports-three : parse_ports (codes "80,443,8443") ≡ some (80, 0)
unfolding parse_ports split_on atoi trim_space
parse_ports-three = refl

parse_duration-render_example :
    parse_duration (render ((1, days) ∷ (12, hours) ∷ (5, minutes) ∷ []))
    ≡ some (pos (129900 * 10 ^ 9))
parse_duration-render_example =
    parse_duration-render ((1, days) ∷ (12, hours) ∷ (5, minutes) ∷ [])
      (omega arith, (omega arith, (omega arith, tt))) (omega arith)

-- A number without a unit counts for nothing.
parse_duration-number : parse_duration (codes "90") ≡ some (pos 0)
unfolding parse_duration atoi
parse_duration-number = refl
