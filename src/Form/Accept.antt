-- ===== src/Form/Accept.antt =====
-- What `PasteAddFromForm` has established of a paste when it stores it.
use caspaste.Prelude.{ℕ, ◌≡◌, refl, sym, ap, ◌∙◌, Bool, true, false, if◌then◌else◌, Text, codes}
use caspaste.Prelude.Int.{ℤ}
use caspaste.Storage.Rows.{Paste}
use caspaste.Form.Request.{Values, Settings, Error, Result, ok, err, ◌>>=◌, refuse_if}
use caspaste.Form.Checks.{
  clean_title, check_sizes, line_ends, check_syntax, expiration, one_use_value, check_author,
  check_url, check_original, convert,
}
use caspaste.Form.Handler.{final_checks, finish, check_paste}

-- A chain that passed: its first check passed, with a value from which the others passed.
pub >>=-eq-ok {ℓ κ} :
    {Checked : Type ℓ} {Final : Type κ} (first : Result Checked) (later : Checked → Result Final)
    {final : Final} (passed : (first >>= later) ≡ ok final)
    → (value : Checked) × (first ≡ ok value) × (later value ≡ ok final)
>>=-eq-ok (err e) later passed = cc
>>=-eq-ok (ok value) later passed = (value, refl, passed)

pub refuse_if-eq-ok : (b : Bool) (e : Error) {u : Unit {0}} → refuse_if b e ≡ ok u → b ≡ false
refuse_if-eq-ok true e h = cc
refuse_if-eq-ok false e h = refl

-- How a paste that passed the checks comes from the one before them.
pub record Passed (c : Settings) (now : ℕ) (v : Values) (p₀ p : Paste) : Type 0 where
  pub same : p ≡ record p₀ {
    title = clean_title p₀.title;
    body = p.body;
    syntax = p.syntax;
    delete_time = p.delete_time;
    one_use = one_use_value (v (codes "oneUse"));
  }
  pub sizes : check_sizes c (record p₀ { title = clean_title p₀.title }) ≡ ok tt
  pub file_body : p₀.is_file ≡ true → p.body ≡ p₀.body
  pub text_body : p₀.is_file ≡ false → convert (v (codes "lineEnd")) p₀.body ≡ ok p.body
  pub syntax : check_syntax c.lexer_names p₀.syntax ≡ ok p.syntax
  pub deleted : expiration c.max_life_time now (v (codes "expiration")) ≡ ok p.delete_time
  pub author : check_author p ≡ ok tt
  pub author_url : check_url p.author_url ≡ ok tt
  pub original : check_original p ≡ ok tt

pub ok_inj {ℓ} : {A : Type ℓ} {a b : A} → Result.ok a ≡ ok b → a ≡ b
ok_inj e = cc

abbrev with_body : Paste → Text → Paste
with_body p b = record p { body = b }

line_ends-eq-ok :
    (style : Text) (p q : Paste)
    → line_ends style p ≡ ok q
    → (b : Text) × (q ≡ with_body p b)
      × (p.is_file ≡ true → b ≡ p.body)
      × (p.is_file ≡ false → convert style p.body ≡ ok b)
unfolding line_ends
line_ends-eq-ok style p q h = split p.is_file h
  where
    split :
        (f : Bool)
        → (if f then ok p else convert style p.body >>= λ b. ok (with_body p b)) ≡ ok q
        → (b : Text) × (q ≡ with_body p b)
          × (f ≡ true → b ≡ p.body)
          × (f ≡ false → convert style p.body ≡ ok b)
    split true e = (p.body, sym (ok_inj e), (λ t. refl), λ t. cc)
    split false e =
        let (b, conv, eq) = >>=-eq-ok (convert style p.body) (λ b. ok (with_body p b)) e in
        (b, sym (ok_inj eq), (λ t. cc), λ t. conv)

final_checks-eq-ok :
    (r p : Paste)
    → final_checks r ≡ ok p
    → (p ≡ r)
      × (check_author p ≡ ok tt)
      × (check_url p.author_url ≡ ok tt)
      × (check_original p ≡ ok tt)
unfolding final_checks
final_checks-eq-ok r p h =
    let (u, author, h₁) = >>=-eq-ok (check_author r) _ h in
    let (u', author_url, h₂) = >>=-eq-ok (check_url r.author_url) _ h₁ in
    let (u'', original, h₃) = >>=-eq-ok (check_original r) _ h₂ in
    let same : p ≡ r = sym (ok_inj h₃) in
    (same, rw same author, rw same author_url, rw same original)

abbrev finished : Values → Paste → Text → ℤ → Paste
finished v q syn del = record q {
  syntax = syn;
  delete_time = del;
  one_use = one_use_value (v (codes "oneUse"));
}

record Finished (c : Settings) (now : ℕ) (v : Values) (q p : Paste) : Type 0 where
  same : p ≡ finished v q p.syntax p.delete_time
  syntax : check_syntax c.lexer_names q.syntax ≡ ok p.syntax
  deleted : expiration c.max_life_time now (v (codes "expiration")) ≡ ok p.delete_time
  author : check_author p ≡ ok tt
  author_url : check_url p.author_url ≡ ok tt
  original : check_original p ≡ ok tt

finish-Finished :
    (c : Settings) (now : ℕ) (v : Values) (q p : Paste)
    → finish c now v q ≡ ok p
    → Finished c now v q p
unfolding finish
finish-Finished c now v q p h =
    let (syn, syntax, h₁) = >>=-eq-ok (check_syntax c.lexer_names q.syntax) _ h in
    let (del, deleted, h₂) =
      >>=-eq-ok (expiration c.max_life_time now (v (codes "expiration"))) _ h₁ in
    let (same, author, author_url, original) = final_checks-eq-ok (finished v q syn del) p h₂ in
    let syn_is : p.syntax ≡ syn = ap (λ (r : Paste). r.syntax) same in
    let del_is : p.delete_time ≡ del = ap (λ (r : Paste). r.delete_time) same in
    record {
      same =
          same
          ∙ ap (λ s. finished v q s del) (sym syn_is)
          ∙ ap (λ d. finished v q p.syntax d) (sym del_is);
      syntax = syntax ∙ ap ok (sym syn_is);
      deleted = deleted ∙ ap ok (sym del_is);
      author = author;
      author_url = author_url;
      original = original;
    }

pub check_paste-Passed :
    (c : Settings) (now : ℕ) (v : Values) (p₀ p : Paste)
    → check_paste c now v p₀ ≡ ok p
    → Passed c now v p₀ p
unfolding check_paste
check_paste-Passed c now v p₀ p h =
    let p₁ = record p₀ { title = clean_title p₀.title } in
    let (u, sizes, h₁) = >>=-eq-ok (check_sizes c p₁) _ h in
    let (q, lines, h₂) = >>=-eq-ok (line_ends (v (codes "lineEnd")) p₁) _ h₁ in
    let (b, is_q, file_body, text_body) = line_ends-eq-ok (v (codes "lineEnd")) p₁ q lines in
    let f = finish-Finished c now v (with_body p₁ b) p (ap (finish c now v) (sym is_q) ∙ h₂) in
    let body_is : p.body ≡ b = ap (λ (r : Paste). r.body) f.same in
    record {
      same = f.same ∙ ap (λ t. finished v (with_body p₁ t) p.syntax p.delete_time) (sym body_is);
      sizes = sizes;
      file_body = λ e. body_is ∙ file_body e;
      text_body = λ e. text_body e ∙ ap ok (sym body_is);
      syntax = f.syntax;
      deleted = f.deleted;
      author = f.author;
      author_url = f.author_url;
      original = f.original;
    }
