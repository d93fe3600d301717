-- ===== src/Probes/Timely.antt =====
-- How long the pinger waits for its configuration.
use kube_combo.Prelude.{ℕ, zero, suc, ◌+◌, ◌*◌, ◌≤◌, String, ◌≡◌, refl, ◌∙◌, Bool, true, false}
use kube_combo.Prelude.{Option, none, some, List, [], ◌∷◌, map, arith, if◌then◌else◌, ◌==◌, ret, Io}
use kube_combo.Prelude.{pure, Result, ok, err, >>=-of_ret, bool_eq, nat_eq, string_eq, option_eq}
use kube_combo.Prelude.{list_eq}
use kube_combo.Util.{check_protocol}
use kube_combo.Probes.Config.{Setup, Flags, PodStatus, Parsed, Waited, refused, protocols, no_pod}
use kube_combo.Probes.Config.{ready_without_ips, given_up, is_first_ready, configuration, after_ips}
use kube_combo.Probes.Config.{after_get, wait_for_ips, after_wait, after_client, RestConfig}
use kube_combo.Probes.Config.{after_config, init_kube_client, parse_flags}

-- The calls return, and only `sleep` takes time, as long as it is told.
pub record IsTimed {W : Type 0} (setup : Setup W) (time : W → ℕ) : Type 0 where
  pub sleep_takes : (s : ℕ) (w : W) → time (setup.sleep s w) ≡ time w + s
  pub in_cluster_config_returns :
      (w : W)
      → (r : Result RestConfig) × (v : W) × (setup.in_cluster_config w ≡ ret (r, v))
        × (time v ≡ time w)
  pub build_config_returns :
      (file : String) (w : W)
      → (r : Result RestConfig) × (v : W) × (setup.build_config_from_flags file w ≡ ret (r, v))
        × (time v ≡ time w)
  pub get_pod_returns :
      (namespace name : String) (w : W)
      → (r : Result PodStatus) × (v : W) × (setup.get_pod namespace name w ≡ ret (r, v))
        × (time v ≡ time w)

module _ {W : Type 0} (setup : Setup W) (time : W → ℕ) (timed : IsTimed setup time) where
  open setup use {getenv, in_cluster_config, build_config_from_flags, sleep, get_pod}

  -- A computation that returns after at most so many seconds.
  abbrev EndsIn : {A : Type 0} → ℕ → Io W A → Type 0
  EndsIn {A} s m = (w : W) → (a : A) × (v : W) × (m w ≡ ret (a, v)) × (time v ≤ time w + s)

  pure-EndsIn : {A : Type 0} (a : A) (s : ℕ) → EndsIn s (pure a)
  pure-EndsIn a s w = (a, w, refl, omega arith)

  if-EndsIn :
      (b : Bool) (s : ℕ) (m k : Io W Waited)
      → EndsIn s m
      → EndsIn s k
      → EndsIn s (if b then m else k)
  if-EndsIn true s m k f g = f
  if-EndsIn false s m k f g = g

  after_ips-EndsIn :
      (rest : Io W Waited) (ready : List Bool) (xs : List String) (s : ℕ)
      → EndsIn s rest
      → EndsIn s (after_ips setup rest ready xs)
  after_ips-EndsIn rest ready [] s ends =
      if-EndsIn (is_first_ready ready) s (pure ready_without_ips) rest
        (pure-EndsIn ready_without_ips s) ends
  after_ips-EndsIn rest ready (x ∷ xs) s ends =
      pure-EndsIn (protocols (map (check_protocol setup.parse_ip) (x ∷ xs))) s

  after_get-EndsIn :
      (rest : Io W Waited) (r : Result PodStatus) (s : ℕ)
      → EndsIn s rest
      → EndsIn s (after_get setup rest r)
  after_get-EndsIn rest (err e) s ends = pure-EndsIn (no_pod e) s
  after_get-EndsIn rest (ok pod) s ends = after_ips-EndsIn rest pod.ready pod.pod_ips s ends

  wait_for_ips-EndsIn :
      (n : ℕ) (namespace name : String) → EndsIn (3 * n) (wait_for_ips setup n namespace name)
  unfolding wait_for_ips
  wait_for_ips-EndsIn zero namespace name w = pure-EndsIn given_up 0 w
  wait_for_ips-EndsIn (suc n) namespace name w =
      let rest = wait_for_ips setup n namespace name in
      let (r, u, get, same) = timed.get_pod_returns namespace name (sleep 3 w) in
      let (a, v, then_, in_time) =
        after_get-EndsIn rest r (3 * n) (wait_for_ips-EndsIn n namespace name) u in
      let slept = timed.sleep_takes 3 w in
      (
        a,
        v,
        >>=-of_ret (get_pod namespace name) (after_get setup rest) (sleep 3 w) u r get ∙ then_,
        omega arith,
      )

  after_client-EndsIn : (flags : Flags) (e : Option String) → EndsIn 15 (after_client setup flags e)
  unfolding after_client
  after_client-EndsIn flags (some e) w = pure-EndsIn (refused e) 15 w
  after_client-EndsIn flags none w =
      let (waited, v, wait, in_time) =
        wait_for_ips-EndsIn 5 flags.daemonset_namespace (getenv "POD_NAME") w in
      (
        after_wait setup (configuration setup flags) waited,
        v,
        >>=-of_ret (wait_for_ips setup 5 flags.daemonset_namespace (getenv "POD_NAME"))
            (λ waited. pure (after_wait setup (configuration setup flags) waited)) w v waited wait,
        in_time,
      )

  config_returns :
      (b : Bool) (file : String) (w : W)
      → (r : Result RestConfig) × (v : W) × ((if b
              then in_cluster_config
              else build_config_from_flags file)
            w
          ≡ ret (r, v))
        × (time v ≡ time w)
  config_returns true file w = timed.in_cluster_config_returns w
  config_returns false file w = timed.build_config_returns file w

  init_kube_client-returns :
      (file : String) (w : W)
      → (e : Option String) × (v : W) × (init_kube_client setup file w ≡ ret (e, v))
        × (time v ≡ time w)
  unfolding init_kube_client
  init_kube_client-returns file w =
      let (r, v, got, same) = config_returns (file == "") file w in
      (
        after_config setup r,
        v,
        >>=-of_ret (if file == "" then in_cluster_config else build_config_from_flags file)
            (λ cfg. pure (after_config setup cfg)) w v r got,
        same,
      )

  -- The parse of the flags ends, and waits at most 15 seconds, if the calls return.
  pub parse_flags-EndsIn :
      (flags : Flags) (w : W)
      → (p : Parsed) × (v : W) × (parse_flags setup flags w ≡ ret (p, v)) × (time v ≤ time w + 15)
  unfolding parse_flags
  parse_flags-EndsIn flags w =
      let (e, u, made, same) = init_kube_client-returns flags.kube_config w in
      let (p, v, rest, in_time) = after_client-EndsIn flags e u in
      (
        p,
        v,
        >>=-of_ret (init_kube_client setup flags.kube_config) (after_client setup flags) w u e made
            ∙ rest,
        omega arith,
      )
