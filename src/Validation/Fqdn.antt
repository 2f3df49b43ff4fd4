-- ===== src/Validation/Fqdn.antt =====
-- `ValidateFQDN`, `DetermineFQDN` and `ValidateEmail` of src/validation/fqdn.go. The name of the host
-- and the address of the default route are arguments.
use caspaste.Prelude.{
  ℕ, leb, ◌==◌, ◌&&◌, ◌||◌, not, Bool, true, false, if◌then◌else◌, Option, none, some, List, [],
  ◌∷◌, Text, text_eq, codes, lacks, split_on, length, has_prefix,
}
use caspaste.Prelude.Strings.{to_lower, has_suffix}

pub data FqdnError : Type 0 where
  empty no_dot bad_format edge_dot localhost ip_address : FqdnError
  no_at many_at empty_local empty_domain : FqdnError

abbrev pub alnum : ℕ → Bool
alnum c = leb b'a' c && leb c b'z' || (leb b'A' c && leb c b'Z') || (leb b'0' c && leb c b'9')

-- `[a-zA-Z0-9\-]*[a-zA-Z0-9]`.
abbrev pub label_tail : Text → Bool
label_tail [] = false
label_tail (c ∷ []) = alnum c
label_tail (c ∷ d ∷ t) = (alnum c || c == b'-') && label_tail (d ∷ t)

-- `[a-zA-Z0-9]([a-zA-Z0-9\-]{0,61}[a-zA-Z0-9])?`.
unfoldable pub is_label : Text → Bool
is_label [] = false
is_label (c ∷ []) = alnum c
is_label (c ∷ d ∷ t) = alnum c && label_tail (d ∷ t) && leb (length t) 61

unfoldable pub all_labels : List Text → Bool
unfolding is_label
all_labels [] = true
all_labels (w ∷ ws) = is_label w && all_labels ws

-- `dnsPattern`.
unfoldable pub matches_dns : Text → Bool
unfolding all_labels split_on
matches_dns t = all_labels (split_on b'.' t)

abbrev pub forbidden_hosts : List Text
forbidden_hosts =
    codes "localhost"
    ∷ codes "localhost.localdomain"
    ∷ codes "localdomain"
    ∷ codes "local"
    ∷ codes "localhost.local"
    ∷ codes "localhost6"
    ∷ codes "localhost6.localdomain6"
    ∷ codes "localdomain6"
    ∷ []

unfoldable pub is_forbidden : List Text → Text → Bool
unfolding text_eq has_suffix
is_forbidden [] t = false
is_forbidden (h ∷ hs) t = text_eq t h || has_suffix (b'.' ∷ h) t || is_forbidden hs t

-- `^[0-9.:]+$`, on a text that is not empty.
abbrev pub numeric : Text → Bool
numeric [] = true
numeric (c ∷ t) = (leb b'0' c && leb c b'9' || c == b'.' || c == b':') && numeric t

abbrev first_part : List Text → Text
first_part [] = []
first_part (w ∷ ws) = w

-- `strings.Split(t, ":")[0]`, where the text has a colon.
abbrev pub without_port : Text → Text
without_port t = if lacks b':' t then t else first_part (split_on b':' t)

-- The checks after the port is gone; `none` is no error.
unfoldable pub check_host : Text → Option FqdnError
unfolding has_prefix has_suffix matches_dns
check_host t =
    if not (matches_dns t)
    then some bad_format
    else if has_prefix (codes ".") t || has_suffix (codes ".") t
    then some edge_dot
    else if is_forbidden forbidden_hosts (to_lower t)
    then some localhost
    else if numeric t
    then some ip_address
    else none

unfoldable pub validate_fqdn : Text → Option FqdnError
unfolding check_host
validate_fqdn [] = some empty
validate_fqdn (c ∷ t) =
    if lacks b'.' (c ∷ t) then some no_dot else check_host (without_port (c ∷ t))

abbrev pub is_valid : Option FqdnError → Bool
is_valid none = true
is_valid (some e) = false

-- A source of the name: it is taken if it has a dot and is valid.
unfoldable pub usable : Text → Bool
unfolding validate_fqdn
usable t = not (lacks b'.' t) && is_valid (validate_fqdn t)

unfoldable pub of_host : Option Text → Option Text → Option Text
unfolding usable
of_host none global_ip = global_ip
of_host (some h) global_ip = if usable h then some h else global_ip

-- `none` for a host name is the error of `os.Hostname`; the last argument is `GetGlobalIP`.
unfoldable pub determine_fqdn : Text → Text → Option Text → Option Text → Option Text
unfolding usable text_eq of_host
determine_fqdn from_proxy from_config hostname global_ip =
    if not (text_eq from_config []) && usable (without_port from_config)
    then some (without_port from_config)
    else if not (text_eq from_proxy []) && usable (without_port from_proxy)
    then some (without_port from_proxy)
    else of_host hostname global_ip

email_parts : List Text → Option FqdnError
unfolding validate_fqdn
email_parts (local_part ∷ domain ∷ []) =
    if length local_part == 0
    then some empty_local
    else if length domain == 0
    then some empty_domain
    else validate_fqdn domain
email_parts _ = some many_at

unfoldable pub validate_email : Text → Option FqdnError
unfolding email_parts
validate_email [] = some empty
validate_email (c ∷ t) =
    if lacks b'@' (c ∷ t) then some no_at else email_parts (split_on b'@' (c ∷ t))
