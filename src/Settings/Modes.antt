-- ===== src/Settings/Modes.antt =====
-- src/mode/mode.go: the mode of the program and its debugging, package variables there.
use caspaste.Prelude.{
  ◌≡◌, refl, ◌||◌, Bool, true, if◌then◌else◌, [], ◌∷◌, Text, text_eq, codes, ◌++◌,
}
use caspaste.Prelude.Strings.{to_lower}
use caspaste.Validation.Bools.{parse_bool}

pub data AppMode : Type 0 where
  production development : AppMode

pub record State : Type 0 where
  pub current_mode : AppMode
  pub debug_enabled : Bool
  pub profiling : Bool

unfoldable pub set_debug_enabled : Bool → State → State
set_debug_enabled enabled s = record s { debug_enabled = enabled; profiling = enabled }

abbrev pub is_development : Text → Bool
is_development m =
    text_eq m (codes "dev") || text_eq m (codes "devel") || text_eq m (codes "development")

-- Profiling is set from the flag in each case.
unfoldable pub set_app_mode : Text → State → State
unfolding to_lower text_eq set_debug_enabled
set_app_mode m s =
    let name = to_lower m in
    if is_development name
    then record s { current_mode = development; profiling = s.debug_enabled }
    else if text_eq name (codes "debug")
    then set_debug_enabled true (record s { current_mode = development })
    else record s { current_mode = production; profiling = s.debug_enabled }

abbrev set_mode : Text → State → State
set_mode [] s = s
set_mode (c ∷ m) s = set_app_mode (c ∷ m) s

-- The environment variables `MODE` and `DEBUG`.
unfoldable pub from_env : Text → Text → State → State
unfolding set_app_mode set_debug_enabled parse_bool
from_env mode debug s =
    let (value, was_set) = parse_bool debug in
    if was_set then set_debug_enabled value (set_mode mode s) else set_mode mode s

unfoldable pub get_app_mode_string : State → Text
get_app_mode_string s =
    elim s.current_mode [ production ↦ codes "production" | development ↦ codes "development" ]
    ++ (if s.debug_enabled then codes " [debugging]" else [])

-- A `DEBUG` that sets a value decides the debugging and the profiling, whatever the mode; the mode is
-- what `MODE` alone makes of it.
pub from_env-debug :
    (mode debug : Text) (s : State)
    → (parse_bool debug).1 ≡ true
    → ((from_env mode debug s).debug_enabled ≡ (parse_bool debug).0)
      × ((from_env mode debug s).profiling ≡ (parse_bool debug).0)
      × ((from_env mode debug s).current_mode ≡ (from_env mode [] s).current_mode)
unfolding from_env set_debug_enabled parse_bool
from_env-debug mode debug s h = rw h (refl, refl, refl)
