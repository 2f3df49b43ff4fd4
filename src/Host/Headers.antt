-- ===== src/Host/Headers.antt =====
-- A request, and the parts of its `Forwarded` header.
use caspaste.Prelude.{
  ℕ, ◌==◌, Bool, if◌then◌else◌, Option, none, some, List, [], ◌∷◌, Text, split_on, has_prefix,
}
use caspaste.Prelude.Numbers.{trim_space}
use caspaste.Validation.Driver.{trim_prefix}

-- A header that is not set is the empty text.
pub record Headers : Type 0 where
  pub forwarded : Text
  pub x_forwarded_host : Text
  pub x_forwarded_proto : Text
  pub x_forwarded_ssl : Text
  pub x_scheme : Text
  pub x_real_ip : Text
  pub x_forwarded_for : Text
  pub cf_connecting_ip : Text
  pub true_client_ip : Text

pub record Request : Type 0 where
  pub headers : Headers
  pub host : Text
  pub tls : Bool
  pub url_scheme : Text
  pub remote_addr : Text

trim_quotes_left : Text → Text
trim_quotes_left [] = []
trim_quotes_left (c ∷ t) = let rest = trim_quotes_left t in if c == b'"' then rest else c ∷ t

trim_quotes_right : Text → Text
trim_quotes_right [] = []
trim_quotes_right (c ∷ t) = keep c (trim_quotes_right t)
  where
    keep : ℕ → Text → Text
    keep c [] = if c == b'"' then [] else c ∷ []
    keep c (d ∷ ds) = c ∷ d ∷ ds

-- `strings.Trim(t, "\"")`.
unfoldable pub trim_quotes : Text → Text
unfolding trim_quotes_left trim_quotes_right
trim_quotes t = trim_quotes_right (trim_quotes_left t)

-- The value of a part of the header that starts with the key.
unfoldable pub part_value : Text → Text → Option Text
unfolding has_prefix trim_prefix trim_quotes trim_space
part_value key part =
    let trimmed = trim_space part in
    if has_prefix key trimmed then some (trim_quotes (trim_prefix key trimmed)) else none

abbrev unless_empty : Option Text → Option Text → Option Text
unless_empty (some (c ∷ t)) later = some (c ∷ t)
unless_empty _ later = later

-- The first part with the key whose value is not empty.
unfoldable pub first_value : Text → List Text → Option Text
unfolding part_value
first_value key [] = none
first_value key (part ∷ parts) = unless_empty (part_value key part) (first_value key parts)

unfoldable pub forwarded_value : Text → Text → Option Text
unfolding first_value split_on
forwarded_value key header = first_value key (split_on b';' header)

-- What stands before the first comma.
unfoldable pub first_listed : Text → Text
unfolding split_on
first_listed t = first (split_on b',' t)
  where
    first : List Text → Text
    first [] = []
    first (w ∷ ws) = w
