-- ===== src/Lineend/Convert.antt =====
-- The three conversions on texts whose lines all end alike, and on any text.
use caspaste.Prelude.{
  ◌≡◌, ◌⊎◌, inl, inr, refl, List, [], ◌∷◌, arith, Text, All, ◌∙◌, ap, replace_all,
}
use caspaste.Lineend.Scan.{
  count_byte, replace_byte, replace_from-byte, replace_byte_none, count_byte-replace_byte,
}
use caspaste.Lineend.Lines.{join, IsLine, replace_byte-join}
use caspaste.Lineend.Detect.{
  Style, dos, old_mac, unix, end_of, without_cr, without_lf, get_line_end-join, get_line_end_iff,
}
use caspaste.Lineend.{
  dos_end, old_mac_end, unix_end, get_line_end, unknown_to_dos, unknown_to_old_mac, unknown_to_unix,
}

unfoldable pub unknown_to : Style → Text → Text
unfolding unknown_to_dos unknown_to_old_mac unknown_to_unix
unknown_to dos t = unknown_to_dos t
unknown_to old_mac t = unknown_to_old_mac t
unknown_to unix t = unknown_to_unix t

module _ (l : Text) (ls : List Text) (h : IsLine l) (hs : All IsLine ls) where
  replace_cr :
      (e new : Text)
      → replace_all (join e l ls) (b'\r' ∷ []) new ≡ join (replace_byte b'\r' new e) l ls
  replace_cr e new =
      replace_from-byte b'\r' new _ ∙ replace_byte-join b'\r' new e l ls h.0 (without_cr ls hs)

  replace_lf :
      (e new : Text)
      → replace_all (join e l ls) (b'\n' ∷ []) new ≡ join (replace_byte b'\n' new e) l ls
  replace_lf e new =
      replace_from-byte b'\n' new _ ∙ replace_byte-join b'\n' new e l ls h.1 (without_lf ls hs)

unknown_to_alone : (to : Style) (l : Text) → IsLine l → unknown_to to l ≡ l
unfolding unknown_to
unknown_to_alone dos l h = rw ((get_line_end_iff l).0.1 h)
unknown_to_alone old_mac l h = rw ((get_line_end_iff l).0.1 h)
unknown_to_alone unix l h = rw ((get_line_end_iff l).0.1 h)

module _ (l m : Text) (ls : List Text) (h : IsLine l) (hs : All IsLine (m ∷ ls)) where
  detected : (s : Style) → get_line_end (join (end_of s) l (m ∷ ls)) ≡ end_of s
  detected s = get_line_end-join l (m ∷ ls) h hs s ∙ ground arith

  unknown_to_lines :
      (from to : Style)
      → unknown_to to (join (end_of from) l (m ∷ ls)) ≡ join (end_of to) l (m ∷ ls)
  unfolding unknown_to
  unknown_to_lines dos dos = rw (detected dos)
  unknown_to_lines dos old_mac = rw (detected dos) (replace_lf l (m ∷ ls) h hs dos_end [])
  unknown_to_lines dos unix = rw (detected dos) (replace_cr l (m ∷ ls) h hs dos_end [])
  unknown_to_lines old_mac dos =
      rw (detected old_mac) (replace_cr l (m ∷ ls) h hs old_mac_end dos_end)
  unknown_to_lines old_mac old_mac = rw (detected old_mac)
  unknown_to_lines old_mac unix =
      rw (detected old_mac) (replace_cr l (m ∷ ls) h hs old_mac_end unix_end)
  unknown_to_lines unix dos = rw (detected unix) (replace_lf l (m ∷ ls) h hs unix_end dos_end)
  unknown_to_lines unix old_mac =
      rw (detected unix) (replace_lf l (m ∷ ls) h hs unix_end old_mac_end)
  unknown_to_lines unix unix = rw (detected unix)

-- Whatever style the lines of a text have, each conversion gives the same lines in its own style.
pub unknown_to-join :
    (from to : Style) (l : Text) (ls : List Text)
    → IsLine l
    → All IsLine ls
    → unknown_to to (join (end_of from) l ls) ≡ join (end_of to) l ls
unfolding unknown_to
unknown_to-join from to l [] h hs = unknown_to_alone to l h
unknown_to-join from to l (m ∷ ls) h hs = unknown_to_lines l m ls h hs from to

drop_cr : (new t : Text) → count_byte b'\r' t ≡ 0 → replace_all t (b'\r' ∷ []) new ≡ t
drop_cr new t h = replace_from-byte b'\r' new t ∙ replace_byte_none b'\r' new t h

no_cr :
    (new t : Text)
    → count_byte b'\r' new ≡ 0
    → count_byte b'\r' (replace_all t (b'\r' ∷ []) new) ≡ 0
no_cr new t h = rw replace_from-byte (count_byte-replace_byte b'\r' new t h)

-- Without a CR every branch leaves the text alone.
unknown_to_unix_free : (t : Text) → count_byte b'\r' t ≡ 0 → unknown_to_unix t ≡ t
unfolding unknown_to_unix
unknown_to_unix_free t h = ground (arith, drop_cr [] t h, drop_cr unix_end t h)

unknown_to_unix_cases :
    (t : Text) → (unknown_to_unix t ≡ t) ⊎ (count_byte b'\r' (unknown_to_unix t) ≡ 0)
unfolding unknown_to_unix
unknown_to_unix_cases t = ground (arith, no_cr [] t refl, no_cr unix_end t refl)

-- A second pass of `UnknownToUnix` changes nothing, whatever mixture of line ends the text has.
pub unknown_to_unix_idempotent :
    (t : Text) → unknown_to_unix (unknown_to_unix t) ≡ unknown_to_unix t
unknown_to_unix_idempotent t = elim (unknown_to_unix_cases t) [
  | inl same ↦ ap unknown_to_unix same
  | inr free ↦ unknown_to_unix_free (unknown_to_unix t) free
]
