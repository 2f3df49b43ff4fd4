-- ===== src/Validation/Names.antt =====
-- A name that the server determines is none of the local host.
use caspaste.Prelude.{
  ◌≡◌, ◌⊎◌, inl, inr, refl, sym, ap, ◌∙◌, Bool, true, false, if◌then◌else◌, Option, none, some, [],
  ◌∷◌, Text, text_eq, lacks, not, ◌&&◌, arith,
}
use caspaste.Prelude.Strings.{to_lower}
use caspaste.Validation.Fqdn.{
  FqdnError, no_dot, of_host, validate_fqdn, check_host, is_valid, usable, determine_fqdn,
  is_forbidden, forbidden_hosts, matches_dns, numeric, without_port,
}

-- A name with a dot that is well formed, no name of the local host and no IPv4 address, apart from
-- its port.
pub record IsHostName (t : Text) : Type 0 where
  pub dotted : lacks b'.' t ≡ false
  pub formed : matches_dns (without_port t) ≡ true
  pub remote : is_forbidden forbidden_hosts (to_lower (without_port t)) ≡ false
  pub named : numeric (without_port t) ≡ false

check_host-passes :
    (t : Text)
    → check_host t ≡ none
    → (matches_dns t ≡ true)
      × (is_forbidden forbidden_hosts (to_lower t) ≡ false)
      × (numeric t ≡ false)
unfolding check_host
check_host-passes t h = ground (arith, h)

valid_none : (e : Option FqdnError) → is_valid e ≡ true → e ≡ none
valid_none none h = refl
valid_none (some e) h = cc

usable-both :
    (b : Bool) (e : Option FqdnError) → (not b && is_valid e) ≡ true → (b ≡ false) × (e ≡ none)
usable-both false e h = (refl, valid_none e h)
usable-both true e h = cc

from_checks : (t : Text) → lacks b'.' t ≡ false → check_host (without_port t) ≡ none → IsHostName t
from_checks t d h =
    let (f, r, n) = check_host-passes (without_port t) h in
    record { dotted = d; formed = f; remote = r; named = n }

usable-IsHostName : (t : Text) → usable t ≡ true → IsHostName t
unfolding usable validate_fqdn
usable-IsHostName [] h = cc
usable-IsHostName (c ∷ t) h =
    let (d, v) = usable-both (lacks b'.' (c ∷ t)) (validate_fqdn (c ∷ t)) h in
    from_checks (c ∷ t) d
      (sym (ap (λ b. if b then some no_dot else check_host (without_port (c ∷ t))) d) ∙ v)

same_name : (a b : Text) → some a ≡ some b → IsHostName a → IsHostName b
same_name a b e n = let same : a ≡ b = cc in rw (sym same) n

-- A source that is taken is the name, and otherwise the name is that of the next sources.
taken :
    (a b : Bool) (w name : Text) (rest : Option Text)
    → (b ≡ true → IsHostName w)
    → (if a && b then some w else rest) ≡ some name
    → IsHostName name ⊎ (rest ≡ some name)
taken true true w name rest n h = inl (same_name w name h (n refl))
taken true false w name rest n h = inr h
taken false true w name rest n h = inr h
taken false false w name rest n h = inr h

from_host :
    (hostname global_ip : Option Text) (name : Text)
    → of_host hostname global_ip ≡ some name
    → IsHostName name ⊎ (global_ip ≡ some name)
unfolding of_host
from_host none global_ip name h = inr h
from_host (some host) global_ip name h =
    taken true (usable host) host name global_ip (usable-IsHostName host) h

-- The name that is determined is a name with a dot that is no name of the local host and no IPv4
-- address, or it is the global address.
pub determine_fqdn-IsHostName :
    (from_proxy from_config name : Text) (hostname global_ip : Option Text)
    → determine_fqdn from_proxy from_config hostname global_ip ≡ some name
    → IsHostName name ⊎ (global_ip ≡ some name)
unfolding determine_fqdn
determine_fqdn-IsHostName from_proxy from_config name hostname global_ip h =
    let config = without_port from_config in
    let proxy = without_port from_proxy in
    elim (taken (not (text_eq from_config [])) (usable config) config name _
      (usable-IsHostName config) h) [
        | inl n ↦ inl n
        | inr k ↦
            elim (taken (not (text_eq from_proxy [])) (usable proxy) proxy name _
              (usable-IsHostName proxy) k) [
                | inl n ↦ inl n
                | inr g ↦ from_host hostname global_ip name g
              ]
      ]
