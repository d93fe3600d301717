-- ===== src/Text/Octal.antt =====
-- `strconv.ParseUint` with base 8 and 32 bits.
use kube_combo.Prelude.{ℕ, ◌+◌, ◌-◌, ◌*◌, String, ◌&&◌, Option, none, some, if◌then◌else◌, ltb, leb}
use kube_combo.Prelude.{bool_eq, nat_eq, string_eq, option_eq, list_eq}
use Prim.Native.Char.{code}

unfoldable pub octal_digits : ℕ → String → Option ℕ
octal_digits acc String.[] = some acc
octal_digits acc (String.◌∷◌ c s) =
    if leb b'0' (code c) && leb (code c) b'7'
    then octal_digits (acc * 8 + (code c - b'0')) s
    else none

abbrev pub in_32_bits : Option ℕ → Option ℕ
in_32_bits none = none
in_32_bits (some n) = if ltb n 4294967296 then some n else none

-- A number of octal digits that fits in 32 bits; nothing is read from an empty text.
unfoldable pub parse_octal : String → Option ℕ
unfolding octal_digits
parse_octal String.[] = none
parse_octal (String.◌∷◌ c s) = in_32_bits (octal_digits 0 (String.◌∷◌ c s))
