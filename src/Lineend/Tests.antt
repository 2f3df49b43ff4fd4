-- ===== src/Lineend/Tests.antt =====
-- Runs of lineend.go, and its theorems at concrete texts.
use caspaste.Prelude.{◌≡◌, refl, [], ◌∷◌, arith, codes, count_from, replace_from}
use caspaste.Lineend.Detect.{dos, unix}
use caspaste.Lineend.Convert.{unknown_to, unknown_to-join, unknown_to_unix_idempotent}
use caspaste.Lineend.Detect.{get_line_end_iff}
use caspaste.Lineend.{dos_end, get_line_end, unknown_to_dos, unknown_to_unix}

get_line_end_mixed : get_line_end (codes "a\r\nb\nc") ≡ codes "\n"
unfolding get_line_end count_from
get_line_end_mixed = refl

-- On a mixture of styles `UnknownToDos` is not idempotent.
unknown_to_dos_twice :
    (unknown_to_dos (codes "\r\n\r\r") ≡ codes "\r\n\n\r\n\r\n")
    × (unknown_to_dos (codes "\r\n\n\r\n\r\n") ≡ codes "\r\r\n\r\n\r\r\n\r\r\n")
unfolding unknown_to_dos get_line_end count_from replace_from
unknown_to_dos_twice = (refl, refl)

unknown_to-join_example : unknown_to unix (codes "one\r\n\r\ntwo") ≡ codes "one\n\ntwo"
unknown_to-join_example =
    unknown_to-join dos unix (codes "one") ([] ∷ codes "two" ∷ []) (refl, refl)
      ((refl, refl), ((refl, refl), tt))

get_line_end_iff_run : get_line_end (codes "one\r\ntwo\r\n") ≡ dos_end
unfolding count_from
get_line_end_iff_run = (get_line_end_iff (codes "one\r\ntwo\r\n")).1.1 (omega arith, refl, refl)

unknown_to_unix_idempotent_run :
    unknown_to_unix (unknown_to_unix (codes "a\r\rb\n")) ≡ unknown_to_unix (codes "a\r\rb\n")
unknown_to_unix_idempotent_run = unknown_to_unix_idempotent (codes "a\r\rb\n")
