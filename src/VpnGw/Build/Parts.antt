-- ===== src/VpnGw/Build/Parts.antt =====
-- The containers and volumes of one server of a gateway.
use kube_combo.Prelude.{String, ◌≡◌, refl, sym, ap, Bool, true, false, Option, some, List, [], ◌∷◌}
use kube_combo.Prelude.{◌++◌, map, arith, if◌then◌else◌, ret, subst, bool_eq, nat_eq, string_eq}
use kube_combo.Prelude.{option_eq, list_eq}
use mathlib.Core.List.{Memᴰ}
use kube_combo.Api.KeepAlived.{KeepAlived}
use kube_combo.Api.VpnGw.{VpnGw}
use kube_combo.Workload.Objects.{Container, VolumeMount, Volume}
use kube_combo.Workload.Builder.{Platform, Build, >>=-built, or_nil, when, must_parse}
use kube_combo.Workload.Mounts.{volume_names, AreMounted, AllMounted}
use kube_combo.Workload.Mounts.{AreMounted-mono}
use mathlib.Core.List.Memᴰ
use kube_combo.VpnGw.Build.Containers.{Config, Part, no_part, keepalived_container, ssl_container}
use kube_combo.VpnGw.Build.Containers.{ssl_vpn_port, read_only_mount, writable_mount}
use kube_combo.VpnGw.Port.{get_port_int32}
use kube_combo.VpnGw.Build.Containers.{ipsec_container, ipsec_secret_mounts, ipsec_secret_volumes}
use kube_combo.VpnGw.Build.Stateful.{sts_ssl_part, sts_ipsec_part}
use kube_combo.VpnGw.Build.Daemon.{ds_ssl_part, ds_ipsec_part}
use kube_combo.VpnGw.Build.Daemon.{vip_of}

abbrev pub names : List Container → List String
names = map (λ (c : Container). c.name)

abbrev pub named_if : Bool → String → List String
named_if b name = if b then name ∷ [] else []

-- What the containers of a part are, and that they mount volumes of the part or of `more`.
pub record IsPart (flag : Bool) (name : String) (more : List String) (part : Part) : Type 0 where
  pub named : names part.0 ≡ named_if flag name
  pub mounted : AllMounted (volume_names part.1 ++ more) part.0

pub built-injective :
    {A : Type 0} {q part : A} → ◌≡◌ {A = Build A} (ret (some q)) (ret (some part)) → q ≡ part
built-injective h = cc

single_IsPart :
    {c : Container} {name : String} {mounts : List VolumeMount} {volumes : List Volume}
    (more : List String)
    → c.name ≡ name
    → c.volume_mounts ≡ mounts
    → AreMounted (volume_names volumes ++ more) mounts
    → {part : Part} → ◌≡◌ {A = Build Part} (ret (some (c ∷ [], volumes))) (ret (some part))
    → IsPart true name more part
single_IsPart {c} {name} {mounts} {volumes} more n m a {part} h =
    subst (λ (q : Part). IsPart true name more q) {x = (c ∷ [], volumes)} (built-injective h)
      (record {
        named = ap (λ (x : String). x ∷ []) n;
        mounted = (subst (AreMounted (volume_names volumes ++ more)) (sym m) a, tt);
      })

-- The secret is mounted just when it is a volume.
secret_AreMounted :
    (p : Platform) (r : Config) (gw : VpnGw) (more : List String) (b : Bool)
    → gw.spec.ipsec_enable_psk ≡ b
    → AreMounted (volume_names (ipsec_secret_volumes p gw r) ++ more) (ipsec_secret_mounts p gw r)
unfolding ipsec_secret_volumes ipsec_secret_mounts
secret_AreMounted p r gw more true e = rw e tt
secret_AreMounted p r gw more false e = rw e (Memᴰ.head refl, tt)

module _ (p : Platform) (r : Config) (gw : VpnGw) where
  ssl_container_lem :
      (mounts : List VolumeMount) (command vip : String) {c : Container}
      → ssl_container p gw r mounts command vip ≡ ret (some c)
      → (c.name ≡ "ssl-vpn") × (c.volume_mounts ≡ mounts)
  unfolding ssl_container
  ssl_container_lem mounts command vip h =
      let (port, pe, h1) = >>=-built (or_nil (get_port_int32 (ssl_vpn_port p gw r))) _ _ h in
      let (limits, le, h2) = >>=-built (must_parse p gw.spec.cpu gw.spec.memory) _ _ h1 in
      ground arith

  ipsec_container_lem :
      (mounts : List VolumeMount) (command : List String) {c : Container}
      → ipsec_container p gw r mounts command ≡ ret (some c)
      → (c.name ≡ "ipsec-vpn") × (c.volume_mounts ≡ mounts)
  unfolding ipsec_container
  ipsec_container_lem mounts command h =
      let (isakmp, ie, h1) = >>=-built (or_nil (get_port_int32 r.ipsec_isakmp_port)) _ _ h in
      let (nat, ne, h2) = >>=-built (or_nil (get_port_int32 r.ipsec_nat_port)) _ _ h1 in
      let (limits, le, h3) = >>=-built (must_parse p gw.spec.cpu gw.spec.memory) _ _ h2 in
      ground arith

  pub keepalived_container_lem :
      (ka : KeepAlived) {c : Container}
      → keepalived_container p gw ka ≡ ret (some c)
      → (c.name ≡ "keepalived") × (c.volume_mounts ≡ [])
  unfolding keepalived_container
  keepalived_container_lem ka h =
      let (limits, le, h1) = >>=-built (must_parse p gw.spec.cpu gw.spec.memory) _ _ h in
      ground arith

  pub sts_ssl_IsPart :
      (ka : KeepAlived) {part : Part}
      → sts_ssl_part p r gw ka ≡ ret (some part)
      → IsPart true "ssl-vpn" [] part
  unfolding sts_ssl_part
  sts_ssl_IsPart ka h =
      let (c, ce, h1) =
        >>=-built
          (ssl_container p gw r
            (read_only_mount gw.spec.ssl_vpn_secret r.ssl_vpn_secret_path
              ∷ read_only_mount gw.spec.dh_secret r.dh_secret_path
              ∷ [])
            "/etc/openvpn/setup/configure.sh" ka.spec.vip_v4)
          _ _ h in
      let (name, mounts) = ssl_container_lem _ _ _ ce in
      single_IsPart [] name mounts (Memᴰ.head refl, (Memᴰ.tail (Memᴰ.head refl), tt)) h1

  pub sts_ipsec_IsPart :
      {part : Part} → sts_ipsec_part p r gw ≡ ret (some part) → IsPart true "ipsec-vpn" [] part
  unfolding sts_ipsec_part
  sts_ipsec_IsPart h =
      let (c, ce, h1) =
        >>=-built
          (ipsec_container p gw r (ipsec_secret_mounts p gw r) ("/usr/sbin/charon-systemd" ∷ [])) _
          _ h in
      let (name, mounts) = ipsec_container_lem _ _ ce in
      single_IsPart [] name mounts (secret_AreMounted p r gw [] _ refl) h1

  pub ds_ssl_IsPart :
      (ka : Option KeepAlived) {part : Part}
      → ds_ssl_part p r gw ka ≡ ret (some part)
      → IsPart true "ssl-vpn" ("k8s-manifests" ∷ []) part
  unfolding ds_ssl_part
  ds_ssl_IsPart ka h =
      let (c, ce, h1) =
        >>=-built
          (ssl_container p gw r
            (writable_mount "k8s-manifests" r.k8s_manifests_path
              ∷ writable_mount "openvpn-cache" "/etc/host-init-openvpn"
              ∷ read_only_mount gw.spec.ssl_vpn_secret r.ssl_vpn_secret_path
              ∷ read_only_mount gw.spec.dh_secret r.dh_secret_path
              ∷ [])
            "/etc/openvpn/setup/daemonset-start.sh" (vip_of ka))
          _ _ h in
      let (name, mounts) = ssl_container_lem _ _ _ ce in
      single_IsPart ("k8s-manifests" ∷ []) name mounts
        (
          Memᴰ.tail (Memᴰ.tail (Memᴰ.tail (Memᴰ.head refl))),
          (
            Memᴰ.head refl,
            (Memᴰ.tail (Memᴰ.head refl), (Memᴰ.tail (Memᴰ.tail (Memᴰ.head refl)), tt)),
          ),
        )
        h1

  pub ds_ipsec_IsPart :
      {part : Part}
      → ds_ipsec_part p r gw ≡ ret (some part)
      → IsPart true "ipsec-vpn" ("k8s-manifests" ∷ []) part
  unfolding ds_ipsec_part
  ds_ipsec_IsPart h =
      let (c, ce, h1) =
        >>=-built
          (ipsec_container p gw r
            (writable_mount "k8s-manifests" r.k8s_manifests_path
              ∷ writable_mount "strongswan-cache" "/etc/host-init-strongswan"
              ∷ ipsec_secret_mounts p gw r)
            ("sleep" ∷ "infinity" ∷ []))
          _ _ h in
      let (name, mounts) = ipsec_container_lem _ _ ce in
      single_IsPart ("k8s-manifests" ∷ []) name mounts
        (
          Memᴰ.tail
              (Memᴰ.append_right (volume_names (ipsec_secret_volumes p gw r)) (Memᴰ.head refl)),
          (
            Memᴰ.head refl,
            AreMounted-mono _ _ (ipsec_secret_mounts p gw r) (λ n m. Memᴰ.tail m)
                (secret_AreMounted p r gw ("k8s-manifests" ∷ []) _ refl),
          ),
        )
        h1

-- A server that is not enabled brings nothing.
pub when-IsPart :
    (flag : Bool) {name : String} (more : List String) {step : Build Part} {part : Part}
    → ((q : Part) → step ≡ ret (some q) → IsPart true name more q)
    → when flag no_part step ≡ ret (some part)
    → IsPart flag name more part
when-IsPart true more h e = h _ e
when-IsPart false {name} more h e =
    subst (λ (q : Part). IsPart false name more q) (built-injective e)
      (record { named = refl; mounted = tt })
