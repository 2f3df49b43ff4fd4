-- ===== src/Lineend/Detect.antt =====
-- `GetLineEnd` from the counts of the bytes.
use caspaste.Prelude.{
  ℕ, ◌*◌, ◌<◌, ◌≡◌, ◌↔◌, List, [], ◌∷◌, arith, Text, length, All, ◌&&◌, leb, ◌==◌, if◌then◌else◌,
}
use caspaste.Lineend.Scan.{count_byte, count_from-byte, count_dos, count_dos-le}
use caspaste.Lineend.Lines.{join, IsLine, count_byte-join, count_dos-join}
use caspaste.Lineend.{dos_end, old_mac_end, unix_end, get_line_end}

abbrev choose : ℕ → ℕ → ℕ → Text
choose dos old_mac unix =
    if dos == 0 && old_mac == 0 && unix == 0
    then []
    else if leb old_mac dos && leb unix dos
    then dos_end
    else if leb dos old_mac && leb unix old_mac
    then old_mac_end
    else if leb dos unix && leb old_mac unix
    then unix_end
    else []

get_line_end-choose :
    (t : Text) → get_line_end t ≡ choose (count_dos 0 t) (count_byte b'\r' t) (count_byte b'\n' t)
unfolding get_line_end
get_line_end-choose t = rw (count_from-byte b'\r' t, count_from-byte b'\n' t)

-- The detector answers the empty string exactly on the texts with neither CR nor LF, so its last
-- branch is never taken; and it answers CR LF exactly where some CR LF stands in the text, and no
-- CR and no LF stands outside one.
pub get_line_end_iff :
    (t : Text)
    → ((get_line_end t ≡ []) ↔ ((count_byte b'\r' t ≡ 0) × (count_byte b'\n' t ≡ 0)))
      × ((get_line_end t ≡ dos_end) ↔ (
          (0 < count_dos 0 t)
          × (count_byte b'\r' t ≡ count_dos 0 t)
          × (count_byte b'\n' t ≡ count_dos 0 t)))
get_line_end_iff t = rw get_line_end-choose (ground (arith, count_dos-le t))

pub data Style : Type 0 where
  dos old_mac unix : Style

abbrev pub end_of : Style → Text
end_of dos = dos_end
end_of old_mac = old_mac_end
end_of unix = unix_end

pub without_cr : (ls : List Text) → All IsLine ls → All (λ m. count_byte b'\r' m ≡ 0) ls
without_cr [] h = tt
without_cr (l ∷ ls) h = (h.0.0, without_cr ls h.1)

pub without_lf : (ls : List Text) → All IsLine ls → All (λ m. count_byte b'\n' m ≡ 0) ls
without_lf [] h = tt
without_lf (l ∷ ls) h = (h.0.1, without_lf ls h.1)

module _ (l : Text) (ls : List Text) (h : IsLine l) (hs : All IsLine ls) where
  count_cr-join : (e : Text) → count_byte b'\r' (join e l ls) ≡ length ls * count_byte b'\r' e
  count_cr-join e = count_byte-join b'\r' e l ls h.0 (without_cr ls hs)

  count_lf-join : (e : Text) → count_byte b'\n' (join e l ls) ≡ length ls * count_byte b'\n' e
  count_lf-join e = count_byte-join b'\n' e l ls h.1 (without_lf ls hs)

  -- A text whose lines all end alike is recognised, if it has a line end at all.
  pub get_line_end-join :
      (s : Style) → get_line_end (join (end_of s) l ls) ≡ (if length ls == 0 then [] else end_of s)
  get_line_end-join dos =
      rw get_line_end-choose
        (ground (arith, count_cr-join dos_end, count_lf-join dos_end, count_dos-join l ls h hs))
  get_line_end-join old_mac = rw get_line_end-choose (
      ground (
        arith,
        count_cr-join old_mac_end,
        count_lf-join old_mac_end,
        count_dos-le (join old_mac_end l ls),
      ))
  get_line_end-join unix = rw get_line_end-choose (
      ground
        (arith, count_cr-join unix_end, count_lf-join unix_end, count_dos-le (join unix_end l ls)))
