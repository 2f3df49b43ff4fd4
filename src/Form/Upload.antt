-- ===== src/Form/Upload.antt =====
-- Uploaded files: `sanitizeFilename`, and the content as base64.
use caspaste.Prelude.{
  ℕ, zero, suc, ltb, ◌==◌, ◌||◌, Bool, true, if◌then◌else◌, Option, none, some, [], ◌∷◌, ◌++◌, Text,
  codes, take,
}
use caspaste.Prelude.Strings.{more_bytes, is_invalid}
use caspaste.Prelude.Base64.{base64}
use caspaste.Storage.Rows.{Paste}
use caspaste.Form.Request.{Upload, Result, ok, err, read_failed}

-- A control character or a path separator.
abbrev pub is_unsafe : ℕ → Bool
is_unsafe c = ltb c 0x20 || c == 0x7F || c == b'/' || c == b'\\'

-- What is written for the first byte of a rune; an invalid byte becomes U+FFFD.
abbrev pub written : ℕ → Text → Text
written c t = if is_unsafe c then [] else if is_invalid c t then 0xEF ∷ 0xBF ∷ 0xBD ∷ [] else c ∷ []

-- The loop over the runes; the first argument is the number of bytes left of a rune.
unfoldable pub safe_runes : ℕ → Text → Text
safe_runes k [] = []
safe_runes (suc k) (c ∷ t) = c ∷ safe_runes k t
safe_runes zero (c ∷ t) = written c t ++ safe_runes (more_bytes c t) t

unfoldable pub sanitize_filename : Text → Text
unfolding safe_runes
sanitize_filename name = take 255 (safe_runes 0 name)

abbrev or_default : Text → Text → Text
or_default [] d = d
or_default (c ∷ t) d = c ∷ t

unfoldable pub put_file : Option Text → Upload → Paste → Result Paste
unfolding sanitize_filename base64
put_file none u p = err read_failed
put_file (some content) u p = ok (record p {
  is_file = true;
  file_name = sanitize_filename u.filename;
  mime_type = or_default u.content_type (codes "application/octet-stream");
  body = base64 content;
  syntax = or_default p.syntax (codes "plaintext");
})

unfoldable pub with_file : Option Upload → Paste → Result Paste
unfolding put_file
with_file none p = ok p
with_file (some u) p = put_file u.content u p
