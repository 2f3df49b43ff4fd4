-- ===== src/Validation/Driver.antt =====
-- `DetectDriver`, `NormalizeDriver` and `NormalizeConnectionString` of src/validation/driver.go.
use caspaste.Prelude.{
  ℕ, ◌||◌, if◌then◌else◌, Option, none, some, [], ◌∷◌, ◌++◌, Text, text_eq, codes, has_prefix,
  lacks, drop, length, not, ◌==◌,
}
use caspaste.Prelude.Numbers.{trim_space}
use caspaste.Prelude.Strings.{to_lower, has_suffix}

-- `none` is the error.
unfoldable pub detect_in : Text → Option Text
unfolding has_prefix has_suffix
detect_in s =
    if has_prefix (codes "sqlite://") s
    then some (codes "sqlite")
    else if has_prefix (codes "sqlite3://") s
    then some (codes "sqlite")
    else if has_prefix (codes "postgres://") s || has_prefix (codes "postgresql://") s
    then some (codes "postgres")
    else if has_prefix (codes "mysql://") s
    then some (codes "mysql")
    else if has_prefix (codes "mariadb://") s
    then some (codes "mysql")
    else if has_prefix (codes "libsql://") s || has_prefix (codes "file:") s
    then some (codes "libsql")
    else if not (lacks b'/' s) || has_suffix (codes ".db") s
    then some (codes "sqlite")
    else none

unfoldable pub detect_driver : Text → Option Text
unfolding detect_in
detect_driver source = detect_in (to_lower (trim_space source))

named : Text → Text
unfolding text_eq
named d =
    if text_eq d (codes "mariadb") || text_eq d (codes "maria")
    then codes "mysql"
    else if text_eq d (codes "sqlite3")
    then codes "sqlite"
    else if text_eq d (codes "postgresql")
    then codes "postgres"
    else if text_eq d (codes "turso")
    then codes "libsql"
    else d

unfoldable pub normalize_driver : Text → Text
unfolding named to_lower
normalize_driver driver = named (to_lower driver)

-- `strings.TrimPrefix`, its arguments swapped.
unfoldable pub trim_prefix : Text → Text → Text
unfolding has_prefix
trim_prefix p t = if has_prefix p t then drop (length p) t else t

-- `strings.SplitN(t, sep, 2)` for a byte that occurs: what stands before and after its first place.
unfoldable pub cut : ℕ → Text → Text × Text
cut sep [] = ([], [])
cut sep (c ∷ t) = let (a, b) = cut sep t in if c == sep then ([], t) else (c ∷ a, b)

abbrev pub tcp : Text → Text × Text → Text
tcp user_pass (host_port, dbname) =
    user_pass ++ (codes "@tcp(" ++ (host_port ++ (codes ")" ++ b'/' ∷ dbname)))

abbrev pub with_user : Text → Text × Text → Text
unfolding cut
with_user source (user_pass, rest) =
    if lacks b'/' rest then source else tcp user_pass (cut b'/' rest)

-- The part of a MySQL URL after the scheme.
unfoldable pub mysql_dsn : Text → Text
unfolding cut
mysql_dsn source = if lacks b'@' source then source else with_user source (cut b'@' source)

unfoldable pub normalize_connection_string : Text → Text → Text
unfolding has_prefix mysql_dsn trim_prefix text_eq
normalize_connection_string driver source =
    if text_eq driver (codes "libsql")
    then source
    else if text_eq driver (codes "sqlite")
    then (if has_prefix (codes "sqlite://") source
        then trim_prefix (codes "sqlite://") source
        else if has_prefix (codes "sqlite3://") source
        then trim_prefix (codes "sqlite3://") source
        else source)
    else if text_eq driver (codes "postgres")
    then source
    else if text_eq driver (codes "mysql")
    then (if has_prefix (codes "mysql://") source || has_prefix (codes "mariadb://") source
        then mysql_dsn (trim_prefix (codes "mariadb://") (trim_prefix (codes "mysql://") source))
        else source)
    else source
