-- ===== src/Settings/Ports.antt =====
-- src/portutil/portutil.go.
use caspaste.Prelude.{
  ℕ, zero, suc, ◌+◌, ◌^◌, ◌≤◌, ◌<◌, ◌≡◌, refl, ap, ◌∙◌, ltb, leb, ◌==◌, ◌&&◌, ◌||◌, Bool, true,
  false, if◌then◌else◌, Option, none, some, List, [], ◌∷◌, ◌++◌, Text, split_on, split_on-lacks,
  split_on-append, lacks, All, arith,
}
use caspaste.Prelude.Int.{ℤ, pos, negsuc}
use caspaste.Prelude.Numbers.{atoi, is_digit, is_space, trim_space, trim_space-lacks}
use caspaste.Form.Request.{format_int}
use caspaste.Settings.Decimals.{format_int-All, atoi-format_int}

-- A port from 1 to 65535.
abbrev port_of : Option ℤ → Option ℕ
port_of none = none
port_of (some (negsuc n)) = none
port_of (some (pos n)) = if ltb 0 n && leb n 65535 then some n else none

unfoldable pub parse_port : Text → Option ℕ
unfolding atoi trim_space
parse_port t = port_of (atoi (trim_space t))

abbrev both : Option ℕ → Option ℕ → Option (ℕ × ℕ)
both none s = none
both (some h) none = none
both (some h) (some s) = some (h, s)

abbrev https_of : List Text → Option ℕ
https_of (t ∷ []) = parse_port t
https_of _ = some 0

abbrev of_parts : List Text → Option (ℕ × ℕ)
of_parts [] = none
of_parts (t ∷ ts) = both (parse_port t) (https_of ts)

-- The two ports, 0 for no second one; `none` is an error, and a third part is passed over, with the
-- second.
unfoldable pub parse_ports : Text → Option (ℕ × ℕ)
unfolding parse_port
parse_ports [] = none
parse_ports (c ∷ t) = of_parts (split_on b',' (c ∷ t))

unfoldable pub format_ports : ℕ → ℕ → Text
unfolding format_int
format_ports http https =
    if ltb 0 https then format_int http ++ b',' ∷ format_int https else format_int http

-- One attempt for each number that `rand.Intn` draws below the size of the range.
attempt : (ℕ → Bool) → ℕ → List ℕ → ℕ → Option ℕ
attempt is_free zero draws least = none
attempt is_free (suc n) [] least = none
attempt is_free (suc n) (d ∷ draws) least =
    let rest = attempt is_free n draws least in
    if is_free (d + least) then some (d + least) else rest

-- `is_port_available` is what `net.Listen` answers, for a port from 1 to 65535.
abbrev pub is_port_available : (ℕ → Bool) → ℕ → Bool
is_port_available listens port = ltb 0 port && leb port 65535 && listens port

unfoldable pub find_unused_port : (ℕ → Bool) → List ℕ → ℕ → ℕ → Option ℕ
unfolding attempt
find_unused_port listens draws least most =
    if ltb least 1 || ltb 65535 most || ltb most least
    then none
    else attempt (is_port_available listens) 100 draws least

-- What the formats are.
format_ports-single : (http : ℕ) → format_ports http 0 ≡ format_int http
unfolding format_ports
format_ports-single http = refl

format_ports-pair :
    (http n : ℕ) → format_ports http (suc n) ≡ format_int http ++ b',' ∷ format_int (suc n)
unfolding format_ports
format_ports-pair http n = ground arith

digit-neither : (c : ℕ) → is_digit c ≡ true → (is_space c ≡ false) × ((c == b',') ≡ false)
unfolding is_digit is_space
digit-neither c h = (ground (arith, h), ground (arith, h))

digits-plain :
    (t : Text)
    → All (λ c. is_digit c ≡ true) t
    → All (λ c. is_space c ≡ false) t × (lacks b',' t ≡ true)
digits-plain [] h = (tt, refl)
digits-plain (c ∷ t) h =
    let rest = digits-plain t h.1 in
    let plain = digit-neither c h.0 in ((plain.0, rest.0), rw plain.1 rest.1)

parse_port-format_int : (n : ℕ) → 0 < n → n ≤ 65535 → parse_port (format_int n) ≡ some n
unfolding parse_port
parse_port-format_int n p h =
    let small : n < 2 ^ 63 = omega (arith, h) in
    let plain = digits-plain (format_int n) (format_int-All n small) in
    let fits : (ltb 0 n && leb n 65535) ≡ true = ground (arith, p, h) in
    rw (trim_space-lacks (format_int n) plain.0) (rw (atoi-format_int n small) (rw fits refl))

no_comma : (n : ℕ) → n < 2 ^ 63 → lacks b',' (format_int n) ≡ true
no_comma n h = (digits-plain (format_int n) (format_int-All n h)).1

-- The empty text has no port either.
parse_ports-split : (t : Text) → parse_ports t ≡ of_parts (split_on b',' t)
unfolding parse_ports split_on atoi trim_space
parse_ports-split [] = refl
parse_ports-split (c ∷ t) = refl

-- Ports that are written are read back, one or two of them.
pub parse_ports-format_ports :
    (http https : ℕ)
    → 0 < http
    → http ≤ 65535
    → https ≤ 65535
    → parse_ports (format_ports http https) ≡ some (http, https)
parse_ports-format_ports http zero p h k =
    ap parse_ports (format_ports-single http)
    ∙ parse_ports-split (format_int http)
    ∙ ap of_parts (split_on-lacks b',' (format_int http) (no_comma http (omega (arith, h))))
    ∙ rw (parse_port-format_int http p h) refl
parse_ports-format_ports http (suc n) p h k =
    let t = format_int http in
    let u = format_int (suc n) in
    ap parse_ports (format_ports-pair http n)
    ∙ parse_ports-split (t ++ b',' ∷ u)
    ∙ ap of_parts (
        split_on-append b',' t u (no_comma http (omega (arith, h)))
        ∙ ap (◌∷◌ t) (split_on-lacks b',' u (no_comma (suc n) (omega (arith, k)))))
    ∙ rw (parse_port-format_int http p h) (rw (parse_port-format_int (suc n) (omega arith) k) refl)
