-- ===== src/VpnGw/Port.antt =====
-- The ports of the flags: `getPortInt32`.
use kube_combo.Prelude.{ℕ, ◌≤◌, String, ◌≡◌, ◌↔◌, true, false, ◌||◌, Option, none, some, arith}
use kube_combo.Prelude.{if◌then◌else◌, Result, ok, err, ltb, bool_eq, nat_eq, string_eq, option_eq}
use kube_combo.Prelude.{list_eq}
use kube_combo.Text.Decimal.{Signed, parse_int32}

abbrev in_port_range : Option Signed → Result ℕ
in_port_range none = err "failed to convert port to int"
in_port_range (some (true, n)) = err "invalid port"
in_port_range (some (false, n)) = if ltb n 1 || ltb 65535 n then err "invalid port" else ok n

unfoldable pub get_port_int32 : String → Result ℕ
get_port_int32 s = in_port_range (parse_int32 s)

in_port_range_ok :
    (o : Option Signed) (p : ℕ)
    → (in_port_range o ≡ ok p) ↔ ((o ≡ some (false, p)) × (1 ≤ p) × (p ≤ 65535))
in_port_range_ok none p = ground arith
in_port_range_ok (some (true, n)) p = (λ h. cc, λ h. ground arith)
in_port_range_ok (some (false, n)) p = (λ h. ground arith, λ h. ground arith)

-- A port is returned exactly when the text parses to it as an int32 and it lies in 1..65535.
pub get_port_int32_iff :
    (s : String) (p : ℕ)
    → (get_port_int32 s ≡ ok p) ↔ ((parse_int32 s ≡ some (false, p)) × (1 ≤ p) × (p ≤ 65535))
unfolding get_port_int32
get_port_int32_iff s p = in_port_range_ok (parse_int32 s) p
