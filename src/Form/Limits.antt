-- ===== src/Form/Limits.antt =====
-- What holds of every paste that passes the checks.
use caspaste.Prelude.{
  ℕ, zero, suc, ◌+◌, ◌≤◌, ◌<◌, ◌≡◌, ◌≢◌, ◌⊎◌, inl, inr, refl, sym, ap, ◌∙◌, not, true, false,
  Option, none, some, List, [], ◌∷◌, Text, codes, length, lacks, All, arith, text_eq_refl,
  has_prefix,
}
use caspaste.Prelude.Int.{ℤ, pos, negsuc}
use caspaste.Prelude.Numbers.{atoi, trim_space}
use caspaste.Prelude.Strings.{rune_count, to_lower, occurs, one_of}
use caspaste.Storage.Rows.{Paste}
use caspaste.Form.Request.{Values, Upload, Settings, ok, bad_request}
use caspaste.Form.Upload.{with_file, put_file, sanitize_filename}
use caspaste.Form.Checks.{
  read_paste, clean_title, check_sizes, check_syntax, find_lexer, or_plaintext, expiration,
  expire_at, expire_in, check_author, check_url, check_original, int64, is_web,
}
use caspaste.Form.Handler.{paste_from}
use caspaste.Form.Titles.{IsSafe, clean_title-lacks, sanitize_filename-IsSafe}
use caspaste.Form.Accept.{>>=-eq-ok, refuse_if-eq-ok, ok_inj, Passed, check_paste-Passed}

-- An address that names a web scheme, and none of the schemes that run or embed code.
pub record IsWeb (u : Text) : Type 0 where
  pub scheme : (has_prefix (codes "http://") u ≡ true) ⊎ (has_prefix (codes "https://") u ≡ true)
  pub no_script : occurs (codes "javascript:") u ≡ false
  pub no_data : occurs (codes "data:") u ≡ false
  pub no_vbscript : occurs (codes "vbscript:") u ≡ false
  pub no_file : occurs (codes "file:") u ≡ false

-- The limits on what is stored.
pub record IsAcceptable (c : Settings) (now : ℕ) (p : Paste) : Type 0 where
  pub one_line :
      (lacks b'\n' p.title ≡ true) × (lacks b'\r' p.title ≡ true) × (lacks b'\t' p.title ≡ true)
  pub title_fits : (m : ℕ) → c.title_max_len ≡ pos m → rune_count p.title ≤ m
  pub syntax_known : (p.syntax ≡ codes "autodetect") ⊎ (one_of c.lexer_names p.syntax ≡ true)
  pub life :
      (p.delete_time ≡ pos 0)
      ⊎ ((n : ℕ) × (0 < n)
          × (p.delete_time ≡ int64 (now + n))
          × ((m : ℕ) → c.max_life_time ≡ pos m → 0 < m → n ≤ m))
  pub author_fits :
      (rune_count p.author ≤ 100)
      × (rune_count p.author_email ≤ 100)
      × (rune_count p.author_url ≤ 100)
  pub author_web : (p.author_url ≡ []) ⊎ IsWeb (to_lower (trim_space p.author_url))
  pub original_web :
      p.is_url ≡ true → (p.original_url ≢ []) × IsWeb (to_lower (trim_space p.original_url))
  pub file_name_safe : All IsSafe p.file_name × (length p.file_name ≤ 255)

is_web-IsWeb : (u : Text) → is_web u ≡ true → IsWeb u
unfolding is_web
is_web-IsWeb u h = ground arith

check_url-IsWeb :
    (u : Text) {x : Unit {0}} → check_url u ≡ ok x → (u ≡ []) ⊎ IsWeb (to_lower (trim_space u))
unfolding check_url
check_url-IsWeb [] h = inl refl
check_url-IsWeb (c ∷ u) h =
    let web = refuse_if-eq-ok (not (is_web (to_lower (trim_space (c ∷ u))))) bad_request h in
    inr (is_web-IsWeb (to_lower (trim_space (c ∷ u))) (ground arith))

pub one_of-find_lexer :
    (syntax : Text) (names : List Text) (name : Text)
    → find_lexer syntax names ≡ some name
    → one_of names name ≡ true
unfolding find_lexer one_of
one_of-find_lexer syntax [] name h = cc
one_of-find_lexer syntax (n ∷ names) name h =
    ground (arith, one_of-find_lexer syntax names name, text_eq_refl name)

check_syntax-eq-ok :
    (names : List Text) (syntax name : Text)
    → check_syntax names syntax ≡ ok name
    → (name ≡ codes "autodetect") ⊎ (one_of names name ≡ true)
unfolding check_syntax
check_syntax-eq-ok names syntax name h =
    ground (arith, one_of-find_lexer (or_plaintext syntax) names name)

abbrev Life : ℤ → ℕ → ℤ → Type 0
Life most now del =
    (del ≡ pos 0)
    ⊎ ((n : ℕ) × (0 < n) × (del ≡ int64 (now + n)) × ((m : ℕ) → most ≡ pos m → 0 < m → n ≤ m))

expire_at-Life :
    (most : ℤ) (now : ℕ) (expir del : ℤ) → expire_at most now expir ≡ ok del → Life most now del
expire_at-Life most now (negsuc n) del h = inl (ground arith)
expire_at-Life most now (pos zero) del h = inl (ground arith)
expire_at-Life most now (pos (suc n)) del h =
    inr (suc n, omega arith, ground arith, λ m e p. ground arith)

expiration-Life :
    (most : ℤ) (now : ℕ) (t : Text) (del : ℤ) → expiration most now t ≡ ok del → Life most now del
unfolding expiration
expiration-Life most now [] del h = inl (ground arith)
expiration-Life most now (c ∷ t) del h = from_number (atoi (c ∷ t)) h
  where
    from_number : (n : Option ℤ) → expire_in most now n ≡ ok del → Life most now del
    from_number none e = cc
    from_number (some n) e = expire_at-Life most now n del e

check_author-fits :
    (p : Paste) {x : Unit {0}}
    → check_author p ≡ ok x
    → (rune_count p.author ≤ 100)
      × (rune_count p.author_email ≤ 100)
      × (rune_count p.author_url ≤ 100)
unfolding check_author
check_author-fits p h = ground arith

check_sizes-fits :
    (c : Settings) (p : Paste) {x : Unit {0}}
    → check_sizes c p ≡ ok x
    → ((m : ℕ) → c.title_max_len ≡ pos m → rune_count p.title ≤ m)
      × (p.is_url ≡ true → p.original_url ≢ [])
unfolding check_sizes
check_sizes-fits c p h = (λ m e. ground arith, λ u e. ground arith)

with_file-IsSafe :
    (file : Option Upload) (p q : Paste)
    → p.file_name ≡ []
    → with_file file p ≡ ok q
    → All IsSafe q.file_name × (length q.file_name ≤ 255)
unfolding with_file
with_file-IsSafe none p q e h =
    let same : p.file_name ≡ q.file_name = ap (λ (r : Paste). r.file_name) (ok_inj h) in
    rw (sym same) (rw e (tt, omega arith))
with_file-IsSafe (some u) p q e h = put u.content h
  where
    put :
        (content : Option Text)
        → put_file content u p ≡ ok q
        → All IsSafe q.file_name × (length q.file_name ≤ 255)
    put none k = cc
    put (some content) k =
        let same : sanitize_filename u.filename ≡ q.file_name =
          ap (λ (r : Paste). r.file_name) (ok_inj k) in
        rw (sym same) (sanitize_filename-IsSafe u.filename)

check_original-url :
    (p : Paste) → p.is_url ≡ true → check_original p ≡ ok tt → check_url p.original_url ≡ ok tt
unfolding check_original
check_original-url p e h = rw e at h

Passed-IsAcceptable :
    (c : Settings) (now : ℕ) (v : Values) (p₀ p : Paste)
    → All IsSafe p₀.file_name × (length p₀.file_name ≤ 255)
    → Passed c now v p₀ p
    → IsAcceptable c now p
Passed-IsAcceptable c now v p₀ p safe q =
    let sizes = check_sizes-fits c (record p₀ { title = clean_title p₀.title }) q.sizes in
    let title : p.title ≡ clean_title p₀.title = ap (λ (r : Paste). r.title) q.same in
    let is_url : p.is_url ≡ p₀.is_url = ap (λ (r : Paste). r.is_url) q.same in
    let address : p.original_url ≡ p₀.original_url = ap (λ (r : Paste). r.original_url) q.same in
    let file_name : p.file_name ≡ p₀.file_name = ap (λ (r : Paste). r.file_name) q.same in
    record {
      one_line = rw title (clean_title-lacks p₀.title);
      title_fits = λ m e. rw title (sizes.0 m e);
      syntax_known = check_syntax-eq-ok c.lexer_names p₀.syntax p.syntax q.syntax;
      life = expiration-Life c.max_life_time now (v (codes "expiration")) p.delete_time q.deleted;
      author_fits = check_author-fits p q.author;
      author_web = check_url-IsWeb p.author_url q.author_url;
      original_web = λ e.
          let filled : p.original_url ≢ [] = rw address (sizes.1 (sym is_url ∙ e)) in
          (filled, web filled (check_url-IsWeb p.original_url (checked e)));
      file_name_safe = rw file_name safe;
    }
  where
    checked : p.is_url ≡ true → check_url p.original_url ≡ ok tt
    checked e = check_original-url p e q.original

    web :
        p.original_url ≢ []
        → (p.original_url ≡ []) ⊎ IsWeb (to_lower (trim_space p.original_url))
        → IsWeb (to_lower (trim_space p.original_url))
    web filled (inl e) = absurd (filled e)
    web filled (inr w) = w

-- Whatever the request, a paste that passes the checks of `PasteAddFromForm` has a title of one line
-- within its limit and without tabs, a known syntax, no time of deletion or one within the longest
-- life, an author within the limits, an address of the author that is empty or of the web, an original
-- address of the web if it is stored as an address, and a file name of at most 255 bytes without
-- control characters and path separators.
pub paste_from-IsAcceptable :
    (c : Settings) (now : ℕ) (v : Values) (file : Option Upload) (p : Paste)
    → paste_from c now v file ≡ ok p
    → IsAcceptable c now p
unfolding paste_from read_paste
paste_from-IsAcceptable c now v file p h =
    let (p₀, uploaded, checked) = >>=-eq-ok (with_file file (read_paste v)) _ h in
    Passed-IsAcceptable c now v p₀ p
      (with_file-IsSafe file (read_paste v) p₀ (read_name v) uploaded)
      (check_paste-Passed c now v p₀ p checked)
  where
    read_name : (v : Values) → (read_paste v).file_name ≡ []
    read_name v = refl
