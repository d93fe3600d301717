-- ===== src/Keepalived/Store.antt =====
-- The API server as the reconciler relies on it: a list of objects, which reads do not change, and
-- whose statuses `update` does not reach, since the kind has the status subresource
-- (api/v1/keepalived_types.go).
use kube_combo.Prelude.{String, ◌≡◌, Bool, ◌&&◌, none, some, List, [], ◌∷◌, if◌then◌else◌, ◌==◌}
use kube_combo.Prelude.{ret, Result, Reply, bool_eq, nat_eq, string_eq, option_eq, list_eq}
use kube_combo.Api.Meta.{NamespacedName}
use kube_combo.Api.KeepAlived.{KeepAlived}
use kube_combo.Keepalived.Handler.{Client}

abbrev pub same_key : KeepAlived → KeepAlived → Bool
same_key a b = a.meta.namespace == b.meta.namespace && a.meta.name == b.meta.name

-- The objects with those of one key replaced, each with the status that the server holds.
abbrev keep_status : KeepAlived → KeepAlived → KeepAlived
keep_status ka k = record ka { status = k.status }

unfoldable pub replace_spec : KeepAlived → List KeepAlived → List KeepAlived
replace_spec ka [] = []
replace_spec ka (k ∷ ks) = (if same_key ka k then keep_status ka k else k) ∷ replace_spec ka ks

-- Reads and failed writes do not change the objects that the server holds.
pub record IsReader (c : Client) (view : c.World → List KeepAlived) : Type 0 where
  pub get_view :
      (n : NamespacedName) (w w' : c.World) (r : Reply KeepAlived)
      → c.get n w ≡ ret (r, w')
      → view w' ≡ view w
  pub list_view :
      (ns : String) (w w' : c.World) (r : Result (List KeepAlived))
      → c.list ns w ≡ ret (r, w')
      → view w' ≡ view w
  pub update_failed :
      (ka : KeepAlived) (w w' : c.World) (e : String)
      → c.update ka w ≡ ret (some e, w')
      → view w' ≡ view w

-- `update` stores all but the status.
abbrev pub DropsStatus : (c : Client) → (c.World → List KeepAlived) → Type 0
DropsStatus c view =
    (ka : KeepAlived) (w w' : c.World)
    → c.update ka w ≡ ret (none, w')
    → view w' ≡ replace_spec ka (view w)
