-- ===== src/Api/Lists.antt =====
-- What a listing answers.
use mathlib.Core.List.{Perm}
use mathlib.Core.List.Perm
use caspaste.Prelude.{ℕ, ◌≤◌, ◌<◌, ◌≡◌, ◌⊎◌, ◌++◌, take, drop, All, false, some, List, [], Text}
use caspaste.Prelude.Int.{pos}
use caspaste.Prelude.Numbers.{atoi}
use caspaste.Prelude.Table.Newest.{Descending}
use caspaste.Storage.Rows.{Paste}
use caspaste.Storage
use caspaste.Storage.{PasteListItem, items}
use caspaste.Form.Handler.{World}
use caspaste.Api.{Api}

-- A paste that the listing shows, burnt after reading or not.
pub record IsPublic (now : ℕ) (p : Paste) : Type 0 where
  pub not_private : p.is_private ≡ false
  pub lives : (p.delete_time ≡ pos 0) ⊎ ((t : ℕ) × (p.delete_time ≡ pos t) × (now < t))

-- A value of the query: the default, if it is empty, or the number that it holds.
abbrev pub Given : Text → ℕ → ℕ → Type 0
Given t default n = ((t ≡ []) × (n ≡ default)) ⊎ (atoi t ≡ some (pos n))

-- A page was asked for by a limit and an offset within the bounds, and is cut by them from the pastes
-- of the table that are public, the newest first.
pub record IsAnswer (w : World) (s : Api) (limit offset : Text) (page : List PasteListItem)
    : Type 0 where
  pub size : ℕ
  pub start : ℕ
  pub limited : Given limit 50 size
  pub begun : Given offset 0 start
  pub fits : (0 < size) × (size ≤ 100)
  pub shown : List Paste
  pub hidden : List Paste
  pub complete : Perm s.forms.db.pool (shown ++ hidden)
  pub all_public : All (IsPublic w.now) shown
  pub none_public : All (λ p. ¬ IsPublic w.now p) hidden
  pub newest : Descending (λ p. p.create_time) shown
  pub cut : page ≡ items (take size (drop start shown))
