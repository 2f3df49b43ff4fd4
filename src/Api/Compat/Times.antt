-- ===== src/Api/Compat/Times.antt =====
-- The syntax and the time of deletion that the interfaces of other services give a paste.
use caspaste.Prelude.{
  ℕ, ◌+◌, ◌≡◌, ◌⊎◌, inl, inr, refl, Bool, true, false, ◌||◌, if◌then◌else◌, ltb, Option, none, some,
  List, [], ◌∷◌, Text, text_eq, codes,
}
use caspaste.Prelude.Int.{ℤ, pos, negsuc}
use caspaste.Prelude.Numbers.{atoi}
use caspaste.Prelude.Strings.{one_of, to_lower}
use caspaste.Form.Request.{Values}
use caspaste.Form.Checks.{find_lexer, int64}
use caspaste.Form.Limits.{one_of-find_lexer}
use caspaste.Api.Compat.{
  parse_pastebin_expire, normalize_syntax, delete_after, after_seconds, expire_in, or_plain,
  aliased, lexer_or_alias, alias_of, aliases,
}
use caspaste.Api.Compat.Pastes.{lenpaste_delete_time, pastebin_delete_time, lifetime}

abbrev pub Known : List Text → Text → Type 0
Known lexers syntax = (syntax ≡ codes "plaintext") ⊎ (one_of lexers syntax ≡ true)

abbrev pub Lives : ℕ → ℤ → Type 0
Lives now time = (time ≡ pos 0) ⊎ ((n : ℕ) × (time ≡ int64 (now + n)))

or_plain-Known :
    (lexers : List Text) (syntax : Text) → Known lexers (or_plain (find_lexer syntax lexers))
or_plain-Known lexers syntax = split (find_lexer syntax lexers) refl
  where
    split : (o : Option Text) → find_lexer syntax lexers ≡ o → Known lexers (or_plain o)
    split none e = inl refl
    split (some name) e = inr (one_of-find_lexer syntax lexers name e)

aliased-Known : (lexers : List Text) (o : Option Text) → Known lexers (aliased lexers o)
aliased-Known lexers none = inl refl
aliased-Known lexers (some alias) = or_plain-Known lexers alias

-- The syntax is a lexer's, or plain text.
pub normalize_syntax-Known :
    (lexers : List Text) (syntax : Text) → Known lexers (normalize_syntax lexers syntax)
unfolding normalize_syntax
normalize_syntax-Known lexers [] = inl refl
normalize_syntax-Known lexers (c ∷ t) = split (find_lexer (c ∷ t) lexers) refl
  where
    split :
        (o : Option Text)
        → find_lexer (c ∷ t) lexers ≡ o
        → Known lexers (lexer_or_alias lexers (c ∷ t) o)
    split none e = aliased-Known lexers (alias_of (to_lower (c ∷ t)) aliases)
    split (some name) e = inr (one_of-find_lexer (c ∷ t) lexers name e)

pub delete_after-Lives : (now : ℕ) (n : ℤ) → Lives now (delete_after now n)
unfolding delete_after
delete_after-Lives now (negsuc n) = inl refl
delete_after-Lives now (pos n) = split (ltb 0 n)
  where
    split : (b : Bool) → Lives now (if b then int64 (now + n) else pos 0)
    split true = inr (n, refl)
    split false = inl refl

after_seconds-Lives : (now : ℕ) (o : Option ℤ) → Lives now (after_seconds now o)
unfolding after_seconds
after_seconds-Lives now none = inl refl
after_seconds-Lives now (some n) = delete_after-Lives now n

pub expire_in-Lives : (now : ℕ) (t : Text) → Lives now (expire_in now t)
unfolding expire_in
expire_in-Lives now [] = inl refl
expire_in-Lives now (c ∷ t) = after_seconds-Lives now (atoi (c ∷ t))

-- A choice between two times that are well.
pub if-Lives :
    (now : ℕ) (b : Bool) (s t : ℤ) → Lives now s → Lives now t → Lives now (if b then s else t)
if-Lives now true s t l m = l
if-Lives now false s t l m = m

pub pastebin_delete_time-Lives :
    (now : ℕ) (expire : Text) → Lives now (pastebin_delete_time now expire)
unfolding pastebin_delete_time
pastebin_delete_time-Lives now expire =
    if-Lives now (text_eq expire [] || text_eq expire (codes "N")) (pos 0) _ (inl refl)
      (delete_after-Lives now (pos (parse_pastebin_expire expire)))

module _ (parse_duration : Text → Option ℤ) (seconds : ℕ → ℕ) (now : ℕ) where
  lifetime-Lives : (o : Option ℤ) → Lives now (lifetime parse_duration seconds now o)
  lifetime-Lives none = inl refl
  lifetime-Lives (some (negsuc n)) = inl refl
  lifetime-Lives (some (pos d)) = if-Lives now (ltb 0 d) _ _ (inr (seconds d, refl)) (inl refl)

  pub lenpaste_delete_time-Lives :
      (v : Values) → Lives now (lenpaste_delete_time parse_duration seconds now v)
  unfolding lenpaste_delete_time
  lenpaste_delete_time-Lives v =
      let life = v (codes "lifetime") in
      if-Lives now (text_eq life [] || text_eq life (codes "0")) _ _
        (expire_in-Lives now (v (codes "expiration"))) (lifetime-Lives (parse_duration life))
