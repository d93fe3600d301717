-- ===== src/Util.antt =====
-- `BuildURL`, `CheckProtocol` and `JoinHostPort` of internal/util/util.go.
pub mod Sockets
pub mod Files
pub mod Http
pub mod Closed
pub mod Posted
use kube_combo.Prelude.{ℕ, String, ◌<>◌, Bool, false, not, ◌||◌, Option, none, some, List, [], ◌∷◌}
use kube_combo.Prelude.{if◌then◌else◌, ◌==◌, ◌!=◌, bool_eq, nat_eq, string_eq, option_eq, list_eq}
use Prim.Native.Char.{code}
use kube_combo.Text.Words.{starts_with, split}
use kube_combo.Text.Decimal.{itoa}

-- `BuildURL`: the port behind a colon if there is one, and a path that starts with a slash.
unfoldable pub build_url : String → String → String → String
build_url address port path =
    (address <> (if port != "" then ":" <> port else ""))
    <> (if path == "" then "/" else if not (starts_with b'/' path) then "/" <> path else path)

-- What `net.ParseIP` accepts.
pub data Ip : Type 0 where
  v4 : Ip
  v6 : Ip

abbrev first_part : List String → String
first_part [] = ""
first_part (part ∷ parts) = part

abbrev host_part : String → String
host_part address = first_part (split b'/' address)

abbrev single_protocol : Option Ip → String
single_protocol (some Ip.v4) = "IPv4"
single_protocol (some Ip.v6) = "IPv6"
single_protocol none = ""

abbrev dual_protocol : Option Ip → Option Ip → String
dual_protocol (some Ip.v4) (some Ip.v6) = "Dual"
dual_protocol (some Ip.v6) (some Ip.v4) = "Dual"
dual_protocol _ _ = ""

-- Two addresses are a dual stack; three or more are taken as one address, which is invalid.
unfoldable protocol_of : (String → Option Ip) → String → List String → String
unfolding split
protocol_of parse_ip address (one ∷ two ∷ []) =
    dual_protocol (parse_ip (host_part one)) (parse_ip (host_part two))
protocol_of parse_ip address _ = single_protocol (parse_ip (host_part address))

-- `CheckProtocol`, with `net.ParseIP` as its argument.
unfoldable pub check_protocol : (String → Option Ip) → String → String
unfolding split protocol_of
check_protocol parse_ip address =
    if address == "" then "" else protocol_of parse_ip address (split b',' address)

has_colon : String → Bool
has_colon String.[] = false
has_colon (String.◌∷◌ c s) = code c == b':' || has_colon s

-- `JoinHostPort`: a host with a colon goes in brackets.
unfoldable pub join_host_port : String → ℕ → String
unfolding has_colon
join_host_port host port = (if has_colon host then "[" <> host <> "]" else host) <> ":" <> itoa port
