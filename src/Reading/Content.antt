-- ===== src/Reading/Content.antt =====
-- What the raw text and the download send: the body, or the bytes of a file.
use caspaste.Prelude.{
  ℕ, ◌≡◌, refl, sym, ap, ◌∙◌, true, if◌then◌else◌, Option, none, some, [], ◌∷◌, ◌++◌, Text, codes,
  drop,
}
use caspaste.Prelude.Strings.{has_suffix}
use caspaste.Prelude.Base64.{base64, AreBytes}
use caspaste.Prelude.Padded.{decode, decode-base64}
use caspaste.Storage.Rows.{Paste}
use caspaste.Form.Request.{Values, Upload, Settings, ok}
use caspaste.Form.Upload.{with_file, put_file}
use caspaste.Form.Checks.{read_paste}
use caspaste.Form.Handler.{paste_from}
use caspaste.Form.Accept.{>>=-eq-ok, ok_inj, check_paste-Passed}

abbrev or_else : Text → Text → Text
or_else [] t = t
or_else (c ∷ s) t = c ∷ s

-- A body that does not decode is sent as it is.
abbrev decoded : Text → Option Text → Text
decoded body none = body
decoded body (some bytes) = bytes

unfoldable pub content_of : Paste → Text
unfolding decode
content_of p = if p.is_file then decoded p.body (decode p.body) else p.body

abbrev octets : Text
octets = codes "application/octet-stream"

-- The body and the type of its content.
unfoldable pub raw_response : Paste → Text × Text
unfolding content_of
raw_response p = (
  content_of p,
  if p.is_file then or_else p.mime_type octets else codes "text/plain; charset=utf-8",
)

-- The extension that the highlighter's first pattern for the syntax has, `*.txt` without one.
abbrev extension : Option Text → Text
extension none = codes ".txt"
extension (some pattern) = drop 1 pattern

abbrev with_extension : Text → Text → Text
with_extension ext name = if has_suffix ext name then name else name ++ ext

-- The name under which the download is saved. `pattern` is what the highlighter knows of a syntax.
unfoldable pub download_name : (Text → Option Text) → Paste → Text
unfolding has_suffix
download_name pattern p =
    if p.is_file
    then or_else p.file_name p.id
    else with_extension (extension (pattern p.syntax)) (or_else p.title p.id)

unfoldable pub download_response : (Text → Option Text) → Paste → Text × Text × Text
unfolding content_of download_name
download_response pattern p = (
  content_of p,
  download_name pattern p,
  if p.is_file then or_else p.mime_type octets else octets,
)

with_file-content :
    (u : Upload) (content : Text) (p q : Paste)
    → u.content ≡ some content
    → with_file (some u) p ≡ ok q
    → (q.is_file ≡ true) × (q.body ≡ base64 content)
unfolding with_file put_file
with_file-content u content p q e h =
    let same = ok_inj (rw e at h) in
    (sym (ap (λ (r : Paste). r.is_file) same), sym (ap (λ (r : Paste). r.body) same))

-- A file that is uploaded and passes the checks is sent back byte for byte, as raw text and as a
-- download, whatever line ends the form asks for.
pub raw_response-paste_from :
    (c : Settings) (now : ℕ) (v : Values) (u : Upload) (content : Text) (p : Paste)
    (pattern : Text → Option Text)
    → paste_from c now v (some u) ≡ ok p
    → u.content ≡ some content
    → AreBytes content
    → ((raw_response p).0 ≡ content) × ((download_response pattern p).0 ≡ content)
unfolding paste_from raw_response download_response
raw_response-paste_from c now v u content p pattern h e bytes =
    let (p₀, uploaded, checked) = >>=-eq-ok (with_file (some u) (read_paste v)) _ h in
    let file = with_file-content u content (read_paste v) p₀ e uploaded in
    let passed = check_paste-Passed c now v p₀ p checked in
    let is_file : p.is_file ≡ true = ap (λ (r : Paste). r.is_file) passed.same ∙ file.0 in
    let body : p.body ≡ base64 content = passed.file_body file.0 ∙ file.1 in
    let sent : content_of p ≡ content =
      rw is_file (rw body (rw (decode-base64 content bytes) refl)) in
    (sent, sent)
