-- ===== src/Storage/Listing.antt =====
-- `PasteList`: which pastes a page shows, and in which order.
use mathlib.Core.List.{Perm}
use caspaste.Prelude.{
  ℕ, zero, suc, ◌≤◌, ◌≡◌, refl, ap, Bool, true, Bool-cases, inl, inr, leb, none, some, List, [],
  ◌∷◌, map, length, take, drop, All, arith,
}
use caspaste.Prelude.Int.{ℤ, pos, negsuc}
use caspaste.Prelude.Table.{select}
use caspaste.Prelude.Table.Newest.{
  insert_newest, newest_first, Descending, newest_first-perm, newest_first-Descending,
  newest_first-All, select-All,
}
use caspaste.Storage.Rows.{Paste, is_listed}
use caspaste.Prelude.Table.{Outcome}
use caspaste.Storage.{
  ok, Db, PasteListItem, item_of, items, created, page_limit, page_offset, paste_list,
}

abbrev pub AllListed : ℕ → List Paste → Type 0
AllListed now = All (λ p. is_listed now p ≡ true)

-- A page of the listing of a table.
pub record IsPage (now : ℕ) (pool : List Paste) (limit offset : ℤ) (page : List PasteListItem)
    : Type 0 where
  pub all : List Paste
  pub complete : Perm (select (is_listed now) pool) all
  pub listed : AllListed now all
  pub descending : Descending created all
  pub cut : page ≡ items (take (page_limit limit) (drop (page_offset offset) all))
  pub bounded : length page ≤ 100

length-items-take : (n : ℕ) (ps : List Paste) → length (items (take n ps)) ≤ n
length-items-take zero ps = omega arith
length-items-take (suc n) [] = omega arith
length-items-take (suc n) (p ∷ ps) = omega (arith, length-items-take n ps)

page_limit-le : (limit : ℤ) → page_limit limit ≤ 100
page_limit-le (pos n) = ground arith
page_limit-le (negsuc n) = omega arith

-- A page is cut from all the listed pastes in order: private and expired pastes are never among
-- them, every other paste is, the newest come first, and a page holds at most 100.
pub paste_list-IsPage :
    (now : ℕ) (o : Outcome) (db : Db) (limit offset : ℤ) (page : List PasteListItem)
    → paste_list now o db limit offset ≡ ok page
    → IsPage now db.pool limit offset page
unfolding paste_list
paste_list-IsPage now (some e) db limit offset page h = cc
paste_list-IsPage now none db limit offset page h =
    let all = newest_first created (select (is_listed now) db.pool) in
    let cut : page ≡ items (take (page_limit limit) (drop (page_offset offset) all)) = cc in
    record {
      all = all;
      complete = newest_first-perm created _;
      listed = newest_first-All created _ _ (select-All (is_listed now) db.pool);
      descending = newest_first-Descending created _;
      cut = cut;
      bounded = rw cut (
          omega (
            arith,
            page_limit-le limit,
            length-items-take (page_limit limit) (drop (page_offset offset) all),
          ));
    }

-- Burn after reading, switched on or off for every row.
abbrev pub with_one_use : Bool → Paste → Paste
with_one_use b p = record p { one_use = b }

module _ (b : Bool) where
  select-with_one_use :
      (now : ℕ) (ps : List Paste)
      → select (is_listed now) (map (with_one_use b) ps)
        ≡ map (with_one_use b) (select (is_listed now) ps)
  unfolding select
  select-with_one_use now [] = refl
  select-with_one_use now (p ∷ ps) = elim (Bool-cases (is_listed now p)) [
    | inl h ↦ rw h (ap (◌∷◌ (with_one_use b p)) (select-with_one_use now ps))
    | inr h ↦ rw h (select-with_one_use now ps)
  ]

  insert-with_one_use :
      (p : Paste) (ps : List Paste)
      → insert_newest created (with_one_use b p) (map (with_one_use b) ps)
        ≡ map (with_one_use b) (insert_newest created p ps)
  unfolding insert_newest
  insert-with_one_use p [] = refl
  insert-with_one_use p (q ∷ qs) = elim (Bool-cases (leb q.create_time p.create_time)) [
    | inl h ↦ rw h refl
    | inr h ↦ rw h (ap (◌∷◌ (with_one_use b q)) (insert-with_one_use p qs))
  ]

  newest-with_one_use :
      (ps : List Paste)
      → newest_first created (map (with_one_use b) ps)
        ≡ map (with_one_use b) (newest_first created ps)
  unfolding newest_first
  newest-with_one_use [] = refl
  newest-with_one_use (p ∷ ps) =
      rw (newest-with_one_use ps) (insert-with_one_use p (newest_first created ps))

  drop-with_one_use :
      (n : ℕ) (ps : List Paste)
      → drop n (map (with_one_use b) ps) ≡ map (with_one_use b) (drop n ps)
  drop-with_one_use zero ps = refl
  drop-with_one_use (suc n) [] = refl
  drop-with_one_use (suc n) (p ∷ ps) = drop-with_one_use n ps

  items-with_one_use :
      (n : ℕ) (ps : List Paste) → items (take n (map (with_one_use b) ps)) ≡ items (take n ps)
  items-with_one_use zero ps = refl
  items-with_one_use (suc n) [] = refl
  items-with_one_use (suc n) (p ∷ ps) = ap (◌∷◌ (item_of p)) (items-with_one_use n ps)

  -- Whether pastes are one-use has no influence on the listing: the query does not read the column,
  -- so a one-use paste that is neither private nor expired is listed like any other.
  pub paste_list-with_one_use :
      (now : ℕ) (o : Outcome) (db : Db) (limit offset : ℤ)
      → paste_list now o (record db { pool = map (with_one_use b) db.pool }) limit offset
        ≡ paste_list now o db limit offset
  unfolding paste_list
  paste_list-with_one_use now (some e) db limit offset = refl
  paste_list-with_one_use now none db limit offset = rw (select-with_one_use now db.pool) (
      rw (newest-with_one_use (select (is_listed now) db.pool)) (
        rw
          (drop-with_one_use (page_offset offset)
            (newest_first created (select (is_listed now) db.pool)))
          (ap ok (items-with_one_use (page_limit limit) _))))
