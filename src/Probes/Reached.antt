-- ===== src/Probes/Reached.antt =====
-- What a check without an error says of the network.
use kube_combo.Prelude.{ℕ, String, ◌≡◌, refl, sym, ◌∙◌, ◌↔◌, Bool, true, Option, none, some, arith}
use kube_combo.Prelude.{◌!=◌, ret, >>=-ret, subst, >>=-of_ret, ret-world, bool_eq, nat_eq}
use kube_combo.Prelude.{string_eq, option_eq, list_eq}
use kube_combo.Text.Words.{split}
use kube_combo.Probes.{Configuration, Metric}
use kube_combo.Probes.{Network}
use kube_combo.Probes.Ping.{each, set_if}
use kube_combo.Probes.Ping.{ping_external}
use kube_combo.Probes.Ping.{ping_pods, ping_nodes}
use kube_combo.Probes.Ping.{check_ports, after_lookup, lookup_one, dns_lookup}
use kube_combo.Probes.Check.{check, asks_ports, up_to_external, up_to_ports, up_to_pods}
use kube_combo.Probes.Check.{up_to_nodes}
use kube_combo.Probes.Answers.{Chain, Asked, ExternalAnswers}
use kube_combo.Probes.Answers.{PortsAnswer, ports, Resolves, resolves, AllAnswers}
use kube_combo.Probes.Answers.{all_answer}
use kube_combo.Probes.Passing.{each-Chain, each_iff, Asked-idem, Asked-true, probe_if_iff}
use kube_combo.Probes.Passing.{stage_iff}
use kube_combo.Probes.Listed.{external_iff, pods_iff, nodes_iff}

module _ (net : Network) (config : Configuration) (with_metrics : Bool) where
  pub ports_iff :
      (w v : net.World)
      → (check_ports net config with_metrics w ≡ ret (none, v))
        ↔ PortsAnswer net config with_metrics w v
  unfolding check_ports
  ports_iff w v = (
    λ h.
        let (e, u, got, rest) =
          >>=-ret (each net.tcp_check none (split b',' config.tcp_ping))
            (λ (e : Option String). each net.udp_check e (split b',' config.udp_ping)) w v none h in
        let (p, udp) =
          each-Chain net.udp_check (λ e t x. net.udp_check e t ≡ ret (none, x))
            (λ e t x. (λ h. h, λ h. h)) e (split b',' config.udp_ping) u v rest in
        ports u
          ((each_iff net.tcp_check (λ e t x. net.tcp_check e t ≡ ret (none, x))
              (λ e t x. (λ h. h, λ h. h)) (split b',' config.tcp_ping) w u).0
            (rw p at got))
          udp,
    λ a. elim a [
      | ports u tcp udp ↦
          >>=-of_ret (each net.tcp_check none (split b',' config.tcp_ping))
            (λ (e : Option String). each net.udp_check e (split b',' config.udp_ping)) w u none
            ((each_iff net.tcp_check (λ e t x. net.tcp_check e t ≡ ret (none, x))
                (λ e t x. (λ h. h, λ h. h)) (split b',' config.tcp_ping) w u).1
              tcp)
          ∙ (each_iff net.udp_check (λ e t x. net.udp_check e t ≡ ret (none, x))
                (λ e t x. (λ h. h, λ h. h)) (split b',' config.udp_ping) u v).1
              udp
    ],
  )

  after_lookup_ok :
      (r : Option String × ℕ) (u v : net.World)
      → after_lookup net config with_metrics r u ≡ ret (none, v)
      → (elapsed : ℕ) × (r ≡ (none, elapsed))
        × (v ≡ set_if net config with_metrics (Metric.dns_healthy config.node_name elapsed) u)
  unfolding after_lookup
  after_lookup_ok (none, elapsed) u v h = (elapsed, refl, sym (ret-world none none _ v h))
  after_lookup_ok (some e, elapsed) u v h = cc

  lookup_iff :
      (dns : String) (w v : net.World)
      → (lookup_one net config with_metrics dns w ≡ ret (none, v))
        ↔ Resolves net config with_metrics dns w v
  unfolding after_lookup
  lookup_iff dns w v = (
    λ h.
        let (r, u, got, rest) =
          >>=-ret (net.lookup_host dns) (after_lookup net config with_metrics) w v none h in
        let (elapsed, p, moved) = after_lookup_ok r u v rest in
        resolves elapsed u (rw p at got) moved,
    λ a. elim a [
      | resolves elapsed u got moved ↦
          >>=-of_ret (net.lookup_host dns) (after_lookup net config with_metrics) w u
            (none, elapsed) got
          ∙ rw moved
    ],
  )

  pub dns_iff :
      (w v : net.World)
      → (dns_lookup net config with_metrics w ≡ ret (none, v))
        ↔ Chain (Resolves net config with_metrics) (split b',' config.dns_lookup) w v
  unfolding dns_lookup
  dns_iff =
      each_iff (lookup_one net config with_metrics) (Resolves net config with_metrics) lookup_iff
        (split b',' config.dns_lookup)

  external_only :
      (w v : net.World)
      → (ping_external net config with_metrics w ≡ ret (none, v))
        ↔ Asked (config.ping != "") (ExternalAnswers net config with_metrics) w v
  external_only w v =
      subst
        (λ b.
          (ping_external net config with_metrics w ≡ ret (none, v))
          ↔ Asked b (ExternalAnswers net config with_metrics) w v)
        (ground arith) (external_iff net config with_metrics w v)

  check-AllAnswers :
      (w v : net.World)
      → check net config with_metrics w ≡ ret (none, v)
      → AllAnswers net config with_metrics w v
  unfolding check
  check-AllAnswers w v h =
      let (w4, h4, names) =
        (stage_iff (dns_lookup net config with_metrics) _ dns_iff (config.dns_lookup != "")
            (up_to_nodes net config with_metrics) w v).0
          h in
      let (w3, h3, ns) =
        (stage_iff (ping_nodes net config with_metrics) _ (nodes_iff net config with_metrics)
            config.enable_node_ip_check (up_to_pods net config with_metrics) w w4).0
          h4 in
      let (w2, h2, pods) =
        (stage_iff (ping_pods net config with_metrics) _ (pods_iff net config with_metrics) true
            (up_to_ports net config with_metrics) w w3).0
          h3 in
      let (w1, h1, endpoints) =
        (stage_iff (check_ports net config with_metrics) _ ports_iff
            (asks_ports net config with_metrics) (up_to_external net config with_metrics) w w2).0
          h2 in
      let (start, external) =
        (probe_if_iff (ping_external net config with_metrics) _ external_only (config.ping != "")
            none w w1).0
          h1 in
      all_answer w1 w2 w3 w4 ((Asked-idem _ _ w w1).0 external) endpoints
        ((Asked-true _ w2 w3).0 pods) ns names

  AllAnswers-check :
      (w v : net.World)
      → AllAnswers net config with_metrics w v
      → check net config with_metrics w ≡ ret (none, v)
  unfolding check
  AllAnswers-check w v (all_answer w1 w2 w3 w4 external endpoints pods ns names) =
      let h1 =
        (probe_if_iff (ping_external net config with_metrics) _ external_only (config.ping != "")
            none w w1).1
          (refl, (Asked-idem _ _ w w1).1 external) in
      let h2 =
        (stage_iff (check_ports net config with_metrics) _ ports_iff
            (asks_ports net config with_metrics) (up_to_external net config with_metrics) w w2).1
          (w1, h1, endpoints) in
      let h3 =
        (stage_iff (ping_pods net config with_metrics) _ (pods_iff net config with_metrics) true
            (up_to_ports net config with_metrics) w w3).1
          (w2, h2, (Asked-true _ w2 w3).1 pods) in
      let h4 =
        (stage_iff (ping_nodes net config with_metrics) _ (nodes_iff net config with_metrics)
            config.enable_node_ip_check (up_to_pods net config with_metrics) w w4).1
          (w3, h3, ns) in
      (stage_iff (dns_lookup net config with_metrics) _ dns_iff (config.dns_lookup != "")
          (up_to_nodes net config with_metrics) w v).1
        (w4, h4, names)

  -- A check gives no error exactly if everything that the configuration asks for answers: the
  -- external addresses, the TCP and UDP endpoints, the peers, the nodes and the names, in turn.
  -- An error of one probe is not undone by a later one.
  pub check_iff :
      (w v : net.World)
      → (check net config with_metrics w ≡ ret (none, v)) ↔ AllAnswers net config with_metrics w v
  check_iff w v = (check-AllAnswers w v, AllAnswers-check w v)
