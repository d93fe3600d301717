-- ===== src/Text/Decimal.antt =====
-- `strconv.Itoa` on the values that are not negative, and `strconv.ParseInt(s, 10, 32)`.
use kube_combo.Prelude.{ℕ, zero, suc, ◌+◌, ◌-◌, ◌*◌, ◌/◌, ◌%◌, String, Bool, true, false, ◌&&◌}
use kube_combo.Prelude.{Option, none, some, if◌then◌else◌, ◌==◌, ltb, leb, bool_eq, nat_eq}
use kube_combo.Prelude.{string_eq, option_eq, list_eq}
use Prim.Native.Char.{Char, code}

abbrev digit_char : ℕ → Char
digit_char zero = "0"
digit_char (suc zero) = "1"
digit_char (suc (suc zero)) = "2"
digit_char (suc (suc (suc zero))) = "3"
digit_char (suc (suc (suc (suc zero)))) = "4"
digit_char (suc (suc (suc (suc (suc zero))))) = "5"
digit_char (suc (suc (suc (suc (suc (suc zero)))))) = "6"
digit_char (suc (suc (suc (suc (suc (suc (suc zero))))))) = "7"
digit_char (suc (suc (suc (suc (suc (suc (suc (suc zero)))))))) = "8"
digit_char _ = "9"

-- The digits of `n` in front of a text, by fuel, of which `n + 1` is enough.
digits : ℕ → ℕ → String → String
digits zero n s = s
digits (suc fuel) n s =
    let t = String.◌∷◌ (digit_char (n % 10)) s in
    let rest = digits fuel (n / 10) t in if ltb n 10 then t else rest

unfoldable pub itoa : ℕ → String
unfolding digits
itoa n = digits (suc n) n ""

abbrev is_digit : ℕ → Bool
is_digit c = leb b'0' c && leb c b'9'

-- The number that the digits give, after the digits that gave `acc`.
unfoldable pub parse_digits : ℕ → String → Option ℕ
parse_digits acc String.[] = some acc
parse_digits acc (String.◌∷◌ c s) =
    if is_digit (code c) then parse_digits (acc * 10 + (code c - b'0')) s else none

-- A number with no sign, at least one digit long.
unfoldable pub parse_magnitude : String → Option ℕ
parse_magnitude String.[] = none
parse_magnitude (String.◌∷◌ c s) = parse_digits 0 (String.◌∷◌ c s)

-- A number by its sign, which is true for `-`, and its magnitude.
abbrev pub Signed : Type 0
Signed = Bool × ℕ

-- The range of an int32: from -2^31 to 2^31 - 1.
abbrev in_range : Bool → Option ℕ → Option Signed
in_range negative none = none
in_range negative (some n) =
    if leb n (if negative then 2147483648 else 2147483647) then some (negative, n) else none

unfoldable pub parse_int32 : String → Option Signed
parse_int32 String.[] = none
parse_int32 (String.◌∷◌ c s) =
    if code c == b'-'
    then in_range true (parse_magnitude s)
    else if code c == b'+'
    then in_range false (parse_magnitude s)
    else in_range false (parse_magnitude (String.◌∷◌ c s))
