-- ===== src/Validation/Bools.antt =====
-- `ParseBool`, `IsTruthy` and `IsFalsey` of src/validation/bool.go.
use caspaste.Prelude.{◌&&◌, not, Bool, true, false, if◌then◌else◌, List, [], ◌∷◌, Text, codes}
use caspaste.Prelude.Numbers.{trim_space}
use caspaste.Prelude.Strings.{to_lower, one_of}

abbrev pub truthy : List Text
truthy =
    codes "1"
    ∷ codes "yes"
    ∷ codes "true"
    ∷ codes "enable"
    ∷ codes "enabled"
    ∷ codes "on"
    ∷ codes "yep"
    ∷ codes "yup"
    ∷ codes "yeah"
    ∷ codes "affirmative"
    ∷ codes "aye"
    ∷ codes "si"
    ∷ codes "oui"
    ∷ codes "da"
    ∷ codes "hai"
    ∷ codes "totally"
    ∷ codes "sure"
    ∷ codes "ok"
    ∷ codes "okay"
    ∷ codes "accept"
    ∷ codes "allow"
    ∷ codes "grant"
    ∷ codes "y"
    ∷ codes "t"
    ∷ codes "active"
    ∷ []

abbrev pub falsey : List Text
falsey =
    codes "0"
    ∷ codes "no"
    ∷ codes "false"
    ∷ codes "disable"
    ∷ codes "disabled"
    ∷ codes "off"
    ∷ codes "nope"
    ∷ codes "nah"
    ∷ codes "nay"
    ∷ codes "negative"
    ∷ codes "nein"
    ∷ codes "non"
    ∷ codes "niet"
    ∷ codes "iie"
    ∷ codes "lie"
    ∷ codes "noway"
    ∷ codes "never"
    ∷ codes "deny"
    ∷ codes "reject"
    ∷ codes "block"
    ∷ codes "revoke"
    ∷ codes "n"
    ∷ codes "f"
    ∷ codes "inactive"
    ∷ []

classify : Text → Bool × Bool
unfolding one_of
classify w =
    if one_of truthy w
    then (true, true)
    else if one_of falsey w
    then (false, true)
    else (false, false)

-- The value, and whether the text sets one.
unfoldable pub parse_bool : Text → Bool × Bool
unfolding classify trim_space to_lower
parse_bool [] = (false, false)
parse_bool (c ∷ s) = classify (to_lower (trim_space (c ∷ s)))

unfoldable pub is_truthy : Text → Bool
unfolding parse_bool
is_truthy s = let (value, was_set) = parse_bool s in was_set && value

unfoldable pub is_falsey : Text → Bool
unfolding parse_bool
is_falsey s = let (value, was_set) = parse_bool s in was_set && not value
