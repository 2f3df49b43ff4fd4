-- ===== src/Lineend.antt =====
-- src/lineend/lineend.go: the line end in use, and the conversions between the three styles.
mod Scan
mod Lines
pub mod Convert
pub mod Detect
mod Tests
use caspaste.Prelude.{
  Bool, ◌&&◌, [], ◌∷◌, leb, ◌==◌, if◌then◌else◌, Text, text_eq, count, replace_all,
}

abbrev pub dos_end : Text
dos_end = b'\r' ∷ b'\n' ∷ []

abbrev pub old_mac_end : Text
old_mac_end = b'\r' ∷ []

abbrev pub unix_end : Text
unix_end = b'\n' ∷ []

unfoldable pub get_line_end : Text → Text
get_line_end text =
    let dos = count text dos_end in
    let old_mac = count text old_mac_end in
    let unix = count text unix_end in
    if dos == 0 && old_mac == 0 && unix == 0
    then []
    else if leb old_mac dos && leb unix dos
    then dos_end
    else if leb dos old_mac && leb unix old_mac
    then old_mac_end
    else if leb dos unix && leb old_mac unix
    then unix_end
    else []

pub dos_to_old_mac : Text → Text
dos_to_old_mac text = replace_all text unix_end []

pub dos_to_unix : Text → Text
dos_to_unix text = replace_all text old_mac_end []

pub old_mac_to_dos : Text → Text
old_mac_to_dos text = replace_all text old_mac_end dos_end

pub old_mac_to_unix : Text → Text
old_mac_to_unix text = replace_all text old_mac_end unix_end

pub unix_to_dos : Text → Text
unix_to_dos text = replace_all text unix_end dos_end

pub unix_to_old_mac : Text → Text
unix_to_old_mac text = replace_all text unix_end old_mac_end

unfoldable pub unknown_to_dos : Text → Text
unfolding old_mac_to_dos unix_to_dos text_eq
unknown_to_dos text =
    let e = get_line_end text in
    if text_eq e old_mac_end
    then old_mac_to_dos text
    else if text_eq e unix_end
    then unix_to_dos text
    else text

unfoldable pub unknown_to_old_mac : Text → Text
unfolding dos_to_old_mac unix_to_old_mac text_eq
unknown_to_old_mac text =
    let e = get_line_end text in
    if text_eq e dos_end
    then dos_to_old_mac text
    else if text_eq e unix_end
    then unix_to_old_mac text
    else text

unfoldable pub unknown_to_unix : Text → Text
unfolding dos_to_unix old_mac_to_unix text_eq
unknown_to_unix text =
    let e = get_line_end text in
    if text_eq e dos_end
    then dos_to_unix text
    else if text_eq e old_mac_end
    then old_mac_to_unix text
    else text
