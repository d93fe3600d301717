-- ===== src/Keepalived/Tests.antt =====
-- A store kept as a list, with and without the status subresource, and the theorems on it.
mod Runs
use kube_combo.Prelude.{ℕ, String, ◌≡◌, refl, false, none, List, [], ◌∷◌, arith, if◌then◌else◌}
use kube_combo.Prelude.{◌==◌, ret, ok, Reply, found, not_found, bool_eq, nat_eq, string_eq}
use kube_combo.Prelude.{option_eq, list_eq}
use kube_combo.Api.Meta.{NamespacedName, has_key}
use kube_combo.Api.KeepAlived.{KeepAlived}
use kube_combo.Sync.{SyncState}
use kube_combo.Keepalived.Alloc.{first_free, find_next_available_id}
use kube_combo.Keepalived.Handler.{Client, handle_add_or_update}
use kube_combo.Keepalived.Store.{same_key, replace_spec, IsReader, DropsStatus}

abbrev Kas : Type 0
Kas = List KeepAlived

-- The objects with those of one key replaced.
unfoldable replace : KeepAlived → List KeepAlived → List KeepAlived
replace ka [] = []
replace ka (k ∷ ks) = (if same_key ka k then ka else k) ∷ replace ka ks

-- The objects of one namespace.
unfoldable in_namespace : String → List KeepAlived → List KeepAlived
in_namespace ns [] = []
in_namespace ns (k ∷ ks) =
    if ns == k.meta.namespace then k ∷ in_namespace ns ks else in_namespace ns ks

find : NamespacedName → Kas → Reply KeepAlived
find n [] = not_found "keepalived not found"
find n (k ∷ ks) = if has_key n k.meta then found k else find n ks

abbrev store : (KeepAlived → Kas → Kas) → Client
store write = record {
  World = Kas;
  get = λ n w. ret (find n w, w);
  list = λ ns w. ret (ok (in_namespace ns w), w);
  update = λ ka w. ret (none, write ka w);
}

store-IsReader : (write : KeepAlived → Kas → Kas) → IsReader (store write) (λ w. w)
store-IsReader write = record {
  get_view = λ n w w' r h. ground arith;
  list_view = λ ns w w' r h. ground arith;
  update_failed = λ ka w w' e h. cc;
}

drops : DropsStatus (store replace_spec) (λ w. w)
drops ka w w' h = ground arith

abbrev ka : String → String → ℕ → KeepAlived
ka ns name id = record {
  meta = record {
    name = name;
    namespace = ns;
    labels = [];
    annotations = [];
    deleting = false;
    controller = none;
  };
  spec = record {
    vip_v4 = "10.0.0.1";
    vip_v6 = "";
    subnet = "ovn-default";
    nic = "eth0";
    image = "kubecombo/keepalived";
  };
  status = record { router_id = id };
}

abbrev kas : Kas
kas = ka "a" "one" 1 ∷ ka "a" "two" 0 ∷ ka "b" "one" 2 ∷ ka "a" "three" 3 ∷ []

abbrev request : NamespacedName
request = record { namespace = "a"; name = "two" }

-- The least id that is free in the namespace is chosen.
assigned :
    handle_add_or_update (store replace) request kas
    ≡ ret (
      (SyncState.success, none),
      ka "a" "one" 1 ∷ ka "a" "two" 2 ∷ ka "b" "one" 2 ∷ ka "a" "three" 3 ∷ [],
    )
unfolding handle_add_or_update find find_next_available_id first_free replace in_namespace string_eq
    nat_eq
assigned = refl

-- With the status subresource the same event reports success and stores no id.
dropped :
    handle_add_or_update (store replace_spec) request kas ≡ ret ((SyncState.success, none), kas)
unfolding handle_add_or_update find find_next_available_id first_free replace_spec in_namespace
    string_eq nat_eq
dropped = refl
