-- ===== src/Lineend/Lines.antt =====
-- A text as its lines: `join e l ls` is the line `l` and the lines `ls`, each after the line end `e`.
use caspaste.Prelude.{
  ℕ, ◌*◌, ◌≡◌, List, [], ◌∷◌, ◌++◌, arith, Text, length, All, count_from, append-nil,
}
use caspaste.Lineend.Scan.{
  count_byte, count_byte-append, replace_byte, replace_byte-append, replace_byte_none, count_dos,
  count_dos-append, count_dos_hit,
}

abbrev pub join : Text → Text → List Text → Text
join e l [] = l
join e l (m ∷ ls) = l ++ (e ++ join e m ls)

-- A line holds no byte of a line end.
abbrev pub IsLine : Text → Type 0
IsLine l = (count_byte b'\r' l ≡ 0) × (count_byte b'\n' l ≡ 0)

pub count_byte-join :
    (b : ℕ) (e l : Text) (ls : List Text)
    → count_byte b l ≡ 0
    → All (λ m. count_byte b m ≡ 0) ls
    → count_byte b (join e l ls) ≡ length ls * count_byte b e
count_byte-join b e l [] h hs = omega (arith, h)
count_byte-join b e l (m ∷ ls) h hs = omega (
  arith,
  count_byte-append b l (e ++ join e m ls),
  count_byte-append b e (join e m ls),
  count_byte-join b e m ls hs.0 hs.1,
)

pub replace_byte-join :
    (b : ℕ) (new e l : Text) (ls : List Text)
    → count_byte b l ≡ 0
    → All (λ m. count_byte b m ≡ 0) ls
    → replace_byte b new (join e l ls) ≡ join (replace_byte b new e) l ls
replace_byte-join b new e l [] h hs = replace_byte_none b new l h
replace_byte-join b new e l (m ∷ ls) h hs = simp (
  replace_byte-append b new,
  replace_byte_none b new l h,
  replace_byte-join b new e m ls hs.0 hs.1,
)

pub count_dos-join :
    (l : Text) (ls : List Text)
    → IsLine l
    → All IsLine ls
    → count_dos 0 (join (b'\r' ∷ b'\n' ∷ []) l ls) ≡ length ls
unfolding count_from
count_dos-join l [] h hs = rw (← append-nil l) (count_dos-append l [] h.0)
count_dos-join l (m ∷ ls) h hs = omega (
  arith,
  count_dos-append l _ h.0,
  count_dos_hit (join (b'\r' ∷ b'\n' ∷ []) m ls),
  count_dos-join m ls hs.0 hs.1,
)
