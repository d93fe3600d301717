-- ===== src/Workload/Builder.antt =====
-- The monad in which the objects are built, and what the builders rely on.
use kube_combo.Prelude.{String, ◌≡◌, refl, ◌≢◌, Bool, ◌&&◌, Option, none, some, List, [], ◌∷◌}
use kube_combo.Prelude.{if◌then◌else◌, Slice, Go, ret, panic, Result, ok, err, bool_eq, nat_eq}
use kube_combo.Prelude.{string_eq, option_eq, list_eq}
use kube_combo.Prelude.Dict.{Dict, insert}
use kube_combo.Api.Meta.{ObjectMeta}
use kube_combo.Api.Meta.{Affinity}
use kube_combo.Workload.Objects.{ResourceList}
use kube_combo.Text.Words.{trim_space, split}

-- What a builder relies on of the libraries: which texts `resource.MustParse` takes (it panics at
-- any other), and for which owner and object `controllerutil.SetControllerReference` fails.
pub record Platform : Type 0 where
  pub is_quantity : String → Bool
  pub refuses_owner : ObjectMeta → ObjectMeta → Bool

-- A builder panics, returns nil, or returns an object.
abbrev pub Build {ℓ} : Type ℓ → Type ℓ
Build A = Go (Option A)

infixl 5 ◌>>=◌ ◌>>◌
abbrev pub ◌>>=◌ {ℓ κ} : {A : Type ℓ} {B : Type κ} → Build A → (A → Build B) → Build B
panic >>= f = panic
ret none >>= f = ret none
ret (some a) >>= f = f a

abbrev pub ◌>>◌ {ℓ κ} : {A : Type ℓ} {B : Type κ} → Build A → Build B → Build B
m >> k = m >>= λ _. k

abbrev pub built {ℓ} : {A : Type ℓ} → A → Build A
built a = ret (some a)

-- A builder that returned an object had a first step that did.
pub >>=-built {ℓ κ} :
    {A : Type ℓ} {B : Type κ} (m : Build A) (f : A → Build B) (b : B)
    → (m >>= f) ≡ ret (some b)
    → (a : A) × (m ≡ ret (some a)) × (f a ≡ ret (some b))
>>=-built panic f b h = cc
>>=-built (ret none) f b h = cc
>>=-built (ret (some a)) f b h = (a, refl, h)

-- A builder whose steps do not panic does not panic.
pub >>=-ne-panic {ℓ κ} :
    {A : Type ℓ} {B : Type κ} (m : Build A) (f : A → Build B)
    → m ≢ panic
    → ((a : A) → m ≡ ret (some a) → f a ≢ panic)
    → (m >>= f) ≢ panic
>>=-ne-panic panic f h k = absurd (h refl)
>>=-ne-panic (ret none) f h k = λ e. cc
>>=-ne-panic (ret (some a)) f h k = k a refl

-- A step that is made only if a flag is set, with a value for the other case.
abbrev pub when {ℓ} : {A : Type ℓ} → Bool → A → Build A → Build A
when flag other step = if flag then step else built other

-- An error of a conversion, on which the builder logs and returns nil.
abbrev pub or_nil {ℓ} : {A : Type ℓ} → Result A → Build A
or_nil (ok a) = built a
or_nil (err e) = ret none

-- A pointer that is dereferenced.
abbrev pub deref {ℓ} : {A : Type ℓ} → Option A → Build A
deref none = panic
deref (some a) = built a

-- `ResourceList{cpu: MustParse(cpu), memory: MustParse(memory)}`
unfoldable pub must_parse : Platform → String → String → Build ResourceList
must_parse p cpu memory =
    if p.is_quantity cpu && p.is_quantity memory
    then built (record { cpu = cpu; memory = memory })
    else panic

-- The metadata with the controlling owner set, or nil if that fails.
unfoldable pub set_controller : Platform → ObjectMeta → ObjectMeta → Build ObjectMeta
set_controller p owner object =
    if p.refuses_owner owner object
    then ret none
    else built (record object { controller = some owner.name })

-- The node selector of entries `key: value`; an entry of another form is passed over.
abbrev add_selector : Dict → List String → Dict
add_selector m (k ∷ v ∷ []) = insert (trim_space k) (trim_space v) m
add_selector m _ = m

unfoldable pub selectors : Dict → List String → Dict
selectors m [] = m
selectors m (entry ∷ entries) = selectors (add_selector m (split b':' (trim_space entry))) entries

-- `if len(selector) > 0 { … }`; the field stays nil otherwise.
unfoldable pub node_selector : Slice String → Option Dict
unfolding selectors
node_selector none = none
node_selector (some []) = none
node_selector (some (e ∷ es)) = some (selectors [] (e ∷ es))

-- `if len(tolerations) > 0 { … }`
abbrev pub pod_tolerations : Slice String → Slice String
pod_tolerations (some (t ∷ ts)) = some (t ∷ ts)
pod_tolerations _ = none

abbrev set_affinity : Affinity → Option String → Option String → Option String → Option Affinity
set_affinity a none none none = none
set_affinity a _ _ _ = some a

-- The affinity, if one of its three parts is set.
abbrev pub pod_affinity : Affinity → Option Affinity
pod_affinity a = set_affinity a a.node_affinity a.pod_affinity a.pod_anti_affinity

abbrev old_annotations : Option ObjectMeta → Dict
old_annotations none = []
old_annotations (some old) = old.annotations

-- The old annotations, overwritten by the three that are computed.
unfoldable pub pod_annotations : Option ObjectMeta → String → String → Dict
pod_annotations old subnet qos = insert "ovn.kubernetes.io/egress_rate" qos (
    insert "ovn.kubernetes.io/ingress_rate" qos
      (insert "ovn.kubernetes.io/logical_switch" subnet (old_annotations old)))
