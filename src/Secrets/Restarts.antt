-- ===== src/Secrets/Restarts.antt =====
-- A secret outlives a restart.
use caspaste.Prelude.{
  ℕ, ◌/◌, ◌%◌, ◌<◌, ◌≡◌, refl, ap, ◌∙◌, Bool, false, Bool-cases, ◌==◌, inl, inr, Option, none, some,
  List, [], ◌∷◌, ◌++◌, Text, text_eq, text_eq_refl, arith,
}
use caspaste.Prelude.Base64.{AreBytes}
use caspaste.Prelude.Table.{Outcome, select_row, affected}
use caspaste.Prelude.Table.Laws.{select_row-append_hit, select_row-none, select_row-append_miss}
use caspaste.Totp.Recovery.{hex, hex_digit}
use caspaste.Web.Paths.{unhex}
use caspaste.Secrets.Stored.{
  Secret, has_name, ok, decode_hex, decoded, generate, found, load_or_generate_secret,
}

unhex-hex_digit : (n : ℕ) → n < 16 → unhex (hex_digit n) ≡ n
unhex-hex_digit n h = ground arith

-- Bytes that are written in hexadecimal are read back.
pub decode_hex-hex : (t : Text) → AreBytes t → decode_hex (hex t) ≡ some t
unfolding decode_hex hex
decode_hex-hex [] h = refl
decode_hex-hex (c ∷ t) h =
    let high = unhex-hex_digit (c / 16) (omega (arith, h.0)) in
    let low = unhex-hex_digit (c % 16) (omega arith) in
    rw high (rw low (rw (decode_hex-hex t h.1) (ground (arith, h.0))))

-- What the second value of a call is where the name is there.
load-present :
    (random : Option Text) (rows : List Secret) (name : Text) (s : Secret)
    → select_row (has_name name) rows ≡ some s
    → load_or_generate_secret none none random rows name ≡ (rows, decoded (decode_hex s.value))
unfolding load_or_generate_secret
load-present random rows name s h = rw h refl

load-absent :
    (raw : Text) (rows : List Secret) (name : Text)
    → select_row (has_name name) rows ≡ none
    → load_or_generate_secret none none (some raw) rows name
      ≡ (rows ++ record { name = name; value = hex raw } ∷ [], ok raw)
unfolding load_or_generate_secret
load-absent raw rows name h =
    let free : affected (has_name name) rows ≡ 0 = select_row-none (has_name name) rows h in
    rw h (rw free refl)

select_row-append_some :
    (test : Secret → Bool) (rows more : List Secret) (s : Secret)
    → select_row test rows ≡ some s
    → select_row test (rows ++ more) ≡ some s
unfolding select_row
select_row-append_some test [] more s h = cc
select_row-append_some test (r ∷ rows) more s h =
    ground (arith, h, select_row-append_some test rows more s)

-- No call loses a secret.
load-keeps :
    (o₁ o₂ : Outcome) (random : Option Text) (rows : List Secret) (name other : Text) (s : Secret)
    → select_row (has_name name) rows ≡ some s
    → select_row (has_name name) (load_or_generate_secret o₁ o₂ random rows other).0 ≡ some s
unfolding load_or_generate_secret
load-keeps (some e) o₂ random rows name other s h = h
load-keeps none o₂ random rows name other s h = of_row (select_row (has_name other) rows)
  where
    inserted :
        (o : Outcome) (raw : Text)
        → select_row (has_name name) (generate o (some raw) rows other).0 ≡ some s
    inserted (some e) raw = h
    inserted none raw = elim (Bool-cases (affected (has_name other) rows == 0)) [
      | inl e ↦ rw e (select_row-append_some (has_name name) rows _ s h)
      | inr e ↦ rw e h
    ]

    of_row :
        (o : Option Secret) → select_row (has_name name) (found o₂ random rows other o).0 ≡ some s
    of_row (some t) = h
    of_row none = drawn random
      where
        drawn : (r : Option Text) → select_row (has_name name) (generate o₂ r rows other).0 ≡ some s
        drawn none = h
        drawn (some raw) = inserted o₂ raw

-- The first call for a name that is not there gives the bytes that it draws, every later call gives
-- the same bytes, whatever it would draw and also after a call for another name, whatever that comes
-- to, and no secret of another name changes. The statements of the calls for the name run.
pub load_or_generate_secret-again :
    (raw : Text) (o₁ o₂ : Outcome) (random drawn : Option Text) (rows : List Secret)
    (name other : Text)
    → AreBytes raw
    → select_row (has_name name) rows ≡ none
    → text_eq name other ≡ false
    → let (made, r) = load_or_generate_secret none none (some raw) rows name in
      let (both, r') = load_or_generate_secret o₁ o₂ drawn made other in
      (r ≡ ok raw)
      × ((load_or_generate_secret none none random made name).1 ≡ ok raw)
      × ((load_or_generate_secret none none random both name).1 ≡ ok raw)
      × (select_row (has_name other) made ≡ select_row (has_name other) rows)
load_or_generate_secret-again raw o₁ o₂ random drawn rows name other bytes absent ne =
    let s : Secret = record { name = name; value = hex raw } in
    let made = rows ++ s ∷ [] in
    let first = load-absent raw rows name absent in
    let here : select_row (has_name name) made ≡ some s =
      select_row-append_hit (has_name name) rows s (select_row-none (has_name name) rows absent)
        (text_eq_refl name) in
    let kept =
      ap (λ p. select_row (has_name name) (load_or_generate_secret o₁ o₂ drawn p.0 other).0) first
      ∙ load-keeps o₁ o₂ drawn made name other s here in
    let elsewhere = select_row-append_miss (has_name other) rows s ne in
    let read : decoded (decode_hex (hex raw)) ≡ ok raw = ap decoded (decode_hex-hex raw bytes) in
    (
      ap (λ p. p.1) first,
      ap (λ p. (load_or_generate_secret none none random p.0 name).1) first
          ∙ ap (λ p. p.1) (load-present random made name s here)
          ∙ read,
      ap (λ p. p.1) (load-present random _ name s kept) ∙ read,
      ap (λ p. select_row (has_name other) p.0) first ∙ elsewhere,
    )
