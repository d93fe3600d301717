-- ===== src/Api/Meta.antt =====
-- What the resources share: object names and metadata, and the library structs that the
-- controllers only copy and compare (tolerations and affinity terms, kept as their serialized text).
use kube_combo.Prelude.{String, Bool, ◌&&◌, Option, Eq, ◌==◌, bool_eq, nat_eq, string_eq, option_eq}
use kube_combo.Prelude.{list_eq}
use kube_combo.Prelude.Dict.{Dict}

-- `types.NamespacedName`, which also is the key of a `ctrl.Request`.
pub record NamespacedName : Type 0 where
  pub namespace : String
  pub name : String

-- The part of `metav1.ObjectMeta` that the code reads or writes. `deleting` says that
-- `DeletionTimestamp` is set, `controller` names the controlling owner.
pub record ObjectMeta : Type 0 where
  pub name : String
  pub namespace : String
  pub labels : Dict
  pub annotations : Dict
  pub deleting : Bool
  pub controller : Option String

abbrev pub key_of : ObjectMeta → NamespacedName
key_of m = record { namespace = m.namespace; name = m.name }

abbrev pub has_key : NamespacedName → ObjectMeta → Bool
has_key k m = k.namespace == m.namespace && k.name == m.name

abbrev pub Toleration : Type 0
Toleration = String

-- `corev1.Affinity`: three pointers, each nil or to a term that the code never looks into.
pub record Affinity : Type 0 where
  pub node_affinity : Option String
  pub pod_affinity : Option String
  pub pod_anti_affinity : Option String

affinity_dec : Discrete Affinity
affinity_dec = hlevel string_eq.dec

instance unfoldable pub affinity_eq : Eq Affinity
unfolding affinity_dec
affinity_eq = record { dec = affinity_dec }
