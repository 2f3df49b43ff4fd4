-- ===== src/Validation/Tests.antt =====
-- Names and URLs on examples.
use caspaste.Prelude.{◌≡◌, ◌⊎◌, refl, none, some, ◌++◌, text_eq, codes, has_prefix, split_on}
use caspaste.Prelude.Numbers.{trim_space}
use caspaste.Prelude.Strings.{to_lower, has_suffix}
use caspaste.Validation.Driver.{detect_driver, detect_in, normalize_connection_string}
use caspaste.Validation.Urls.{normalize_connection_string-dsn}
use caspaste.Validation.Fqdn.{
  validate_fqdn, check_host, is_label, all_labels, matches_dns, is_forbidden, usable,
  determine_fqdn,
}
use caspaste.Validation.Names.{IsHostName, determine_fqdn-IsHostName}

normalize_connection_string-dsn_run :
    (normalize_connection_string (codes "mysql") (codes "mariadb://" ++ codes "u:p@db:3306/paste")
      ≡ codes "u:p@tcp(db:3306)/paste")
    × (normalize_connection_string (codes "mysql") (codes "mysql://" ++ codes "u:p@db:3306/paste")
        ≡ codes "u:p@tcp(db:3306)/paste")
unfolding has_prefix
normalize_connection_string-dsn_run =
    normalize_connection_string-dsn (codes "u:p") (codes "db:3306") (codes "paste") refl refl refl

-- The driver is found whatever the case of the scheme, the URL is converted in lower case alone.
upper_scheme :
    (detect_driver (codes "MySQL://u:p@db:3306/paste") ≡ some (codes "mysql"))
    × (normalize_connection_string (codes "mysql") (codes "MySQL://u:p@db:3306/paste")
        ≡ codes "MySQL://u:p@db:3306/paste")
unfolding detect_driver detect_in normalize_connection_string to_lower trim_space
upper_scheme = (refl, refl)

-- A dot in the port is taken for one in the name.
dot_in_port : validate_fqdn (codes "intranet:8.8") ≡ none
unfolding validate_fqdn check_host matches_dns all_labels is_label is_forbidden to_lower split_on
    has_suffix text_eq has_prefix
dot_in_port = refl

of_config :
    determine_fqdn (codes "p.example.com") (codes "paste.example.com:8080") none none
    ≡ some (codes "paste.example.com")
unfolding determine_fqdn usable validate_fqdn check_host matches_dns all_labels is_label
    is_forbidden to_lower split_on has_suffix text_eq has_prefix
of_config = refl

determine_fqdn-IsHostName_run :
    IsHostName (codes "paste.example.com") ⊎ (none ≡ some (codes "paste.example.com"))
determine_fqdn-IsHostName_run =
    determine_fqdn-IsHostName (codes "p.example.com") (codes "paste.example.com:8080")
      (codes "paste.example.com") none none of_config
