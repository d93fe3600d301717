-- ===== src/Probes/Waiting.antt =====
-- When the pinger gets its configuration, and how long it waits for it.
use kube_combo.Prelude.{ℕ, zero, suc, String, ◌≡◌, refl, sym, ◌∙◌, ◌≢◌, ◌↔◌, ◌⊎◌, inl, inr, Bool}
use kube_combo.Prelude.{true, false, Option, none, some, List, [], ◌∷◌, map, arith, if◌then◌else◌}
use kube_combo.Prelude.{Go, ret, Io, pure, Result, ok, err, >>=-ret, >>=-of_ret, ret-world, bool_eq}
use kube_combo.Prelude.{nat_eq, string_eq, option_eq, list_eq}
use kube_combo.Util.{check_protocol}
use kube_combo.Probes.{Configuration}
use kube_combo.Probes.Config.{Setup, Flags, PodStatus, Parsed, Waited, parsed, protocols, no_pod}
use kube_combo.Probes.Config.{ready_without_ips, given_up, is_first_ready, configuration, after_ips}
use kube_combo.Probes.Config.{after_get, wait_for_ips, after_wait, after_client, init_kube_client}
use kube_combo.Probes.Config.{parse_flags}

module _ {W : Type 0} (setup : Setup W) (namespace name : String) where
  open setup use {parse_ip, sleep, get_pod}

  -- One of the next n attempts finds the addresses; those before find a pod that has none and whose
  -- first container is not ready.
  unfoldable pub HasIps : ℕ → List String → W → W → Type 0
  HasIps zero ips w v = ⊥
  HasIps (suc n) ips w v =
      (u : W) × (pod : PodStatus) × (get_pod namespace name (sleep 3 w) ≡ ret (ok pod, u))
      × (((ips ≢ []) × (pod.pod_ips ≡ ips) × (u ≡ v))
          ⊎ ((pod.pod_ips ≡ []) × (is_first_ready pod.ready ≡ false) × HasIps n ips u v))

  if_ready-ret :
      (ready : Bool) (rest : Io W Waited) (ps : List String) (u v : W)
      → (if ready then pure ready_without_ips else rest) u ≡ ret (protocols ps, v)
      → (ready ≡ false) × (rest u ≡ ret (protocols ps, v))
  if_ready-ret true rest ps u v h = cc
  if_ready-ret false rest ps u v h = (refl, h)

  -- What an attempt that got a pod does.
  after_ips-ret :
      (rest : Io W Waited) (ready : List Bool) (xs ps : List String) (u v : W)
      → after_ips setup rest ready xs u ≡ ret (protocols ps, v)
      → ((xs ≢ []) × (ps ≡ map (check_protocol parse_ip) xs) × (u ≡ v))
        ⊎ ((xs ≡ []) × (is_first_ready ready ≡ false) × (rest u ≡ ret (protocols ps, v)))
  after_ips-ret rest ready [] ps u v h =
      let next = if_ready-ret (is_first_ready ready) rest ps u v h in inr (refl, next.0, next.1)
  after_ips-ret rest ready (x ∷ xs) ps u v h = inl (ground arith, cc, ret-world _ _ u v h)

  of_arrived :
      (rest : Io W Waited) (ready : List Bool) (xs ips : List String) (u v : W)
      → ips ≢ []
      → xs ≡ ips
      → u ≡ v
      → after_ips setup rest ready xs u ≡ ret (protocols (map (check_protocol parse_ip) ips), v)
  of_arrived rest ready [] ips u v some_ips same here = elim (some_ips (sym same)) [ ]
  of_arrived rest ready (x ∷ xs) ips u v some_ips same here = rw (sym same) rw here refl

  of_later :
      (rest : Io W Waited) (ready : List Bool) (xs ps : List String) (u v : W)
      → xs ≡ []
      → is_first_ready ready ≡ false
      → rest u ≡ ret (protocols ps, v)
      → after_ips setup rest ready xs u ≡ ret (protocols ps, v)
  of_later rest ready xs ps u v no_ips not_ready next = rw no_ips rw not_ready next

  wait_for_ips-ret :
      (n : ℕ) (ps : List String) (w v : W)
      → wait_for_ips setup n namespace name w ≡ ret (protocols ps, v)
      → (ips : List String) × HasIps n ips w v × (ps ≡ map (check_protocol parse_ip) ips)
  unfolding wait_for_ips HasIps
  wait_for_ips-ret zero ps w v h = cc
  wait_for_ips-ret (suc n) ps w v h =
      let (got, u, get, rest) =
        >>=-ret (get_pod namespace name) (after_get setup (wait_for_ips setup n namespace name))
          (sleep 3 w) v (protocols ps) h in
      of_got (wait_for_ips-ret n ps) got u get rest
    where
      of_got :
          ((w v : W)
            → wait_for_ips setup n namespace name w ≡ ret (protocols ps, v)
            → (ips : List String) × HasIps n ips w v × (ps ≡ map (check_protocol parse_ip) ips))
          → (got : Result PodStatus) (u : W) → get_pod namespace name (sleep 3 w) ≡ ret (got, u)
          → after_get setup (wait_for_ips setup n namespace name) got u ≡ ret (protocols ps, v)
          → (ips : List String) × HasIps (suc n) ips w v × (ps ≡ map (check_protocol parse_ip) ips)
      of_got later (err e) u get rest = cc
      of_got later (ok pod) u get rest =
          elim (after_ips-ret (wait_for_ips setup n namespace name) pod.ready pod.pod_ips ps u v
            rest) [
              | inl (some_ips, same, here) ↦
                  (pod.pod_ips, (u, pod, get, inl (some_ips, refl, here)), same)
              | inr (no_ips, not_ready, next) ↦
                  let (ips, has, same) = later u v next in
                  (ips, (u, pod, get, inr (no_ips, not_ready, has)), same)
            ]

  of_HasIps :
      (n : ℕ) (ips : List String) (w v : W)
      → HasIps n ips w v
      → wait_for_ips setup n namespace name w
        ≡ ret (protocols (map (check_protocol parse_ip) ips), v)
  unfolding wait_for_ips HasIps
  of_HasIps zero ips w v h = elim h [ ]
  of_HasIps (suc n) ips w v (u, pod, get, how) =
      let rest = of_HasIps n ips in
      >>=-of_ret (get_pod namespace name) (after_get setup (wait_for_ips setup n namespace name))
        (sleep 3 w) u (ok pod) get
      ∙ elim how [
        | inl (some_ips, same, here) ↦
            of_arrived (wait_for_ips setup n namespace name) pod.ready pod.pod_ips ips u v some_ips
              same here
        | inr (no_ips, not_ready, later) ↦
            of_later (wait_for_ips setup n namespace name) pod.ready pod.pod_ips
              (map (check_protocol parse_ip) ips) u v no_ips not_ready (rest u v later)
      ]

module _ {W : Type 0} (setup : Setup W) where
  open setup use {getenv, parse_ip}

  parsed-ret :
      (flags : Flags) (waited : Waited) (config : Configuration) (u v : W)
      → ◌≡◌ {A = Go (Parsed × W)}
          (ret (after_wait setup (configuration setup flags) waited, u))
          (ret (parsed config, v))
      → (ps : List String) × (waited ≡ protocols ps)
        × (config ≡ record (configuration setup flags) { pod_protocols = ps })
        × (u ≡ v)
  unfolding after_wait
  parsed-ret flags (protocols ps) config u v h = (ps, refl, cc, ret-world _ _ u v h)
  parsed-ret flags (no_pod e) config u v h = cc
  parsed-ret flags ready_without_ips config u v h = cc
  parsed-ret flags given_up config u v h = cc

  after_client-ret :
      (flags : Flags) (e : Option String) (config : Configuration) (u v : W)
      → after_client setup flags e u ≡ ret (parsed config, v)
      → (e ≡ none)
        × ((ips : List String) × HasIps setup flags.daemonset_namespace
              (getenv "POD_NAME")
              5
              ips
              u
              v
            × (config ≡ record (configuration setup flags) {
              pod_protocols = map (check_protocol parse_ip) ips;
            }))
  unfolding after_client
  after_client-ret flags (some e) config u v h = cc
  after_client-ret flags none config u v h =
      let (waited, t, wait, rest) =
        >>=-ret (wait_for_ips setup 5 flags.daemonset_namespace (getenv "POD_NAME"))
          (λ waited. pure (after_wait setup (configuration setup flags) waited)) u v (parsed config)
          h in
      let (ps, got, same, here) = parsed-ret flags waited config t v rest in
      let (ips, has, checked) =
        wait_for_ips-ret setup flags.daemonset_namespace (getenv "POD_NAME") 5 ps u v (wait ∙ cc) in
      (refl, (ips, has, rw (sym checked) same))

  of_client :
      (flags : Flags) (ips : List String) (u v : W)
      → HasIps setup flags.daemonset_namespace (getenv "POD_NAME") 5 ips u v
      → after_client setup flags none u
        ≡ ret (
          parsed (record (configuration setup flags) {
            pod_protocols = map (check_protocol parse_ip) ips;
          }),
          v,
        )
  unfolding after_client after_wait
  of_client flags ips u v has =
      >>=-of_ret (wait_for_ips setup 5 flags.daemonset_namespace (getenv "POD_NAME"))
        (λ waited. pure (after_wait setup (configuration setup flags) waited)) u v
        (protocols (map (check_protocol parse_ip) ips))
        (of_HasIps setup flags.daemonset_namespace (getenv "POD_NAME") 5 ips u v has)

  -- The flags give a configuration exactly if the client was made and one of five attempts found
  -- addresses of the pod; the configuration is that of the flags with the protocols of the addresses.
  pub parse_flags_iff :
      (flags : Flags) (config : Configuration) (w v : W)
      → (parse_flags setup flags w ≡ ret (parsed config, v)) ↔ (
          (u : W) × (ips : List String) × (init_kube_client setup flags.kube_config w
            ≡ ret (none, u))
          × HasIps setup flags.daemonset_namespace (getenv "POD_NAME") 5 ips u v
          × (config ≡ record (configuration setup flags) {
            pod_protocols = map (check_protocol parse_ip) ips;
          }))
  unfolding parse_flags
  parse_flags_iff flags config w v = (
    λ h.
        let (e, u, made, rest) =
          >>=-ret (init_kube_client setup flags.kube_config) (after_client setup flags) w v
            (parsed config) h in
        let (no_error, (ips, has, same)) = after_client-ret flags e config u v rest in
        (u, ips, made ∙ (rw no_error refl), has, same),
    λ (u, ips, made, has, same).
        >>=-of_ret (init_kube_client setup flags.kube_config) (after_client setup flags) w u none
          made
        ∙ (of_client flags ips u v has ∙ (rw same refl)),
  )
