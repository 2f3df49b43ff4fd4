-- ===== src/Api/Compat/Kept.antt =====
-- What the interfaces of other services store.
use caspaste.Prelude.{
  ◌⊎◌, inr, ◌≢◌, ℕ, ◌≡◌, inl, refl, Bool, true, false, if◌then◌else◌, Option, none, some, List, [],
  ◌∷◌, Text, codes,
}
use mathlib.Core.Path.{subst}
use caspaste.Prelude.Int.{ℤ}
use caspaste.Lineend.{unknown_to_unix}
use caspaste.Storage.Rows.{Paste}
use caspaste.Form.Request.{Values, Upload, ok, err, parse_failed}
use caspaste.Form.Accept.{ok_inj}
use caspaste.Api.Compat.{
  Service, sprunge, ix, pastebin, stikked, microbin, lenpaste, termbin, hastebin, generic,
  CompatRequest, or_next, first_value,
}
use caspaste.Api.Compat.Pastes.{
  with_syntax, with_body, syntax_names, plain_body, raw_body, syntax_of, pastebin_paste,
  stikked_paste, microbin_paste, generic_paste, lenpaste_file, lenpaste_paste, lenpaste_content,
  lenpaste_head, paste_of,
}
use caspaste.Api.Compat.Times.{
  Known, Lives, normalize_syntax-Known, expire_in-Lives, pastebin_delete_time-Lives,
  lenpaste_delete_time-Lives,
}

-- What every interface makes sure of.
pub record IsKept (lexers : List Text) (now : ℕ) (p : Paste) : Type 0 where
  pub known : Known lexers p.syntax
  pub lives : Lives now p.delete_time
  pub fixed : (p.is_editable ≡ false) × (p.is_url ≡ false)
  pub content : (p.is_file ≡ true) ⊎ ((sent : Text) × (sent ≢ []) × (p.body ≡ unknown_to_unix sent))

-- A paste that is not a file yet, in which only the body is missing.
record IsHead (lexers : List Text) (now : ℕ) (p : Paste) : Type 0 where
  known : Known lexers p.syntax
  lives : Lives now p.delete_time
  fixed : (p.is_editable ≡ false) × (p.is_url ≡ false)

with_body-IsKept :
    (lexers : List Text) (now : ℕ) (body : Text) (p q : Paste)
    → IsHead lexers now p
    → with_body body p ≡ ok q
    → IsKept lexers now q
unfolding with_body
with_body-IsKept lexers now [] p q h e = cc
with_body-IsKept lexers now (c ∷ t) p q h e = subst (IsKept lexers now) (ok_inj e) (record {
  known = h.known;
  lives = h.lives;
  fixed = h.fixed;
  content = inr (c ∷ t, (λ k. cc), refl);
})

lenpaste_content-IsKept :
    (lexers : List Text) (now : ℕ) (v : Values) (file : Option Upload) (p q : Paste)
    → IsHead lexers now p
    → lenpaste_content v file p ≡ ok q
    → IsKept lexers now q
unfolding lenpaste_file
lenpaste_content-IsKept lexers now v none p q h e = with_body-IsKept lexers now _ p q h e
lenpaste_content-IsKept lexers now v (some u) p q h e = uploaded u.content e
  where
    uploaded : (content : Option Text) → lenpaste_file content u p ≡ ok q → IsKept lexers now q
    uploaded none k = cc
    uploaded (some content) k =
        subst (IsKept lexers now) (ok_inj k)
          (record { known = h.known; lives = h.lives; fixed = h.fixed; content = inl refl })

module _ (lexers : List Text) (now : ℕ) where
  plain_body-IsKept : (body : Text) (q : Paste) → plain_body body ≡ ok q → IsKept lexers now q
  plain_body-IsKept body q =
      with_body-IsKept lexers now body _ q
        (record { known = inl refl; lives = inl refl; fixed = (refl, refl) })

  raw_body-IsKept : (raw : Option Text) (q : Paste) → raw_body raw ≡ ok q → IsKept lexers now q
  raw_body-IsKept none q e = cc
  raw_body-IsKept (some body) q e = plain_body-IsKept body q e

  -- A paste of a form: its syntax is looked up, and its time of deletion is well.
  form-IsKept :
      (v : Values) (names : List Text) (body title : Text) (one_use is_private : Bool) (time : ℤ)
      (q : Paste)
      → Lives now time
      → with_body body (record (with_syntax (syntax_of lexers v names)) {
        title = title;
        one_use = one_use;
        is_private = is_private;
        delete_time = time;
      })
        ≡ ok q
      → IsKept lexers now q
  form-IsKept v names body title one_use is_private time q lives =
      with_body-IsKept lexers now body _ q (record {
        known = normalize_syntax-Known lexers (or_next (first_value v names) (codes "plaintext"));
        lives = lives;
        fixed = (refl, refl);
      })

  pastebin_paste-IsKept :
      (v : Values) (q : Paste) → pastebin_paste lexers now v ≡ ok q → IsKept lexers now q
  unfolding pastebin_paste
  pastebin_paste-IsKept v q =
      form-IsKept v (codes "api_paste_format" ∷ []) _ _ _ _ _ q
        (pastebin_delete_time-Lives now (v (codes "api_paste_expire_date")))

  stikked_paste-IsKept :
      (v : Values) (q : Paste) → stikked_paste lexers now v ≡ ok q → IsKept lexers now q
  unfolding stikked_paste
  stikked_paste-IsKept v q =
      form-IsKept v (codes "lang" ∷ codes "language" ∷ []) _ _ _ _ _ q (expire_in-Lives now _)

  microbin_paste-IsKept :
      (v : Values) (q : Paste) → microbin_paste lexers now v ≡ ok q → IsKept lexers now q
  unfolding microbin_paste
  microbin_paste-IsKept v q =
      form-IsKept v (codes "syntax" ∷ []) _ _ _ _ _ q (expire_in-Lives now _)

  generic_paste-IsKept :
      (v : Values) (q : Paste) → generic_paste lexers now v ≡ ok q → IsKept lexers now q
  unfolding generic_paste
  generic_paste-IsKept v q = form-IsKept v syntax_names _ _ _ _ _ q (expire_in-Lives now _)

module _ (parse_duration : Text → Option ℤ) (seconds : ℕ → ℕ) (lexers : List Text) (now : ℕ) where
  lenpaste_head-IsHead :
      (v : Values) → IsHead lexers now (lenpaste_head parse_duration seconds lexers now v)
  unfolding lenpaste_head
  lenpaste_head-IsHead v = record {
    known =
        normalize_syntax-Known lexers
          (or_next (first_value v (codes "syntax" ∷ [])) (codes "plaintext"));
    lives = lenpaste_delete_time-Lives parse_duration seconds now v;
    fixed = (refl, refl);
  }

  lenpaste_paste-IsKept :
      (v : Values) (file : Option Upload) (q : Paste)
      → lenpaste_paste parse_duration seconds lexers now v file ≡ ok q
      → IsKept lexers now q
  unfolding lenpaste_paste
  lenpaste_paste-IsKept v file q =
      lenpaste_content-IsKept lexers now v file (lenpaste_head parse_duration seconds lexers now v)
        q (lenpaste_head-IsHead v)

  pub paste_of-IsKept :
      (service : Service) (q : CompatRequest) (p : Paste)
      → paste_of parse_duration seconds lexers now service q ≡ ok p
      → IsKept lexers now p
  unfolding paste_of
  paste_of-IsKept sprunge q p e = plain_body-IsKept lexers now _ p e
  paste_of-IsKept ix q p e = plain_body-IsKept lexers now _ p e
  paste_of-IsKept pastebin q p e = pastebin_paste-IsKept lexers now q.values p e
  paste_of-IsKept stikked q p e = stikked_paste-IsKept lexers now q.values p e
  paste_of-IsKept microbin q p e = parsed q.form_parses e
    where
      parsed :
          (b : Bool)
          → (if b then microbin_paste lexers now q.values else err parse_failed) ≡ ok p
          → IsKept lexers now p
      parsed true k = microbin_paste-IsKept lexers now q.values p k
      parsed false k = cc
  paste_of-IsKept lenpaste q p e = lenpaste_paste-IsKept q.values q.file p e
  paste_of-IsKept termbin q p e = raw_body-IsKept lexers now q.raw p e
  paste_of-IsKept hastebin q p e = raw_body-IsKept lexers now q.raw p e
  paste_of-IsKept generic q p e = generic_paste-IsKept lexers now q.values p e
