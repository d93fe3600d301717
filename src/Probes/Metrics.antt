-- ===== src/Probes/Metrics.antt =====
-- metrics.go: what the setters do to the collectors, which are the library's.
use kube_combo.Prelude.{ℕ, String, List, [], ◌∷◌, bool_eq, nat_eq, string_eq, option_eq, list_eq}
use kube_combo.Probes.{Metric}

-- The methods behind `WithLabelValues` of a gauge, a counter and a histogram, and the value of a
-- series, which is 0 if there is none.
pub record Collectors : Type 1 where
  pub Vector : Type 0
  pub set : List String → ℕ → Vector → Vector
  pub add : List String → ℕ → Vector → Vector
  pub observe : List String → ℕ → Vector → Vector
  pub value : List String → Vector → ℕ

pub record Registry (c : Collectors) : Type 0 where
  pub dns_healthy : c.Vector
  pub dns_unhealthy : c.Vector
  pub dns_request_latency : c.Vector
  pub pod_ping_latency : c.Vector
  pub pod_ping_lost : c.Vector
  pub pod_ping_total : c.Vector
  pub node_ping_latency : c.Vector
  pub node_ping_lost : c.Vector
  pub node_ping_total : c.Vector
  pub external_ping_latency : c.Vector
  pub external_ping_lost : c.Vector

module _ (c : Collectors) where
  unfoldable pub set_pod_ping_metrics : List String → ℕ → ℕ → ℕ → Registry c → Registry c
  set_pod_ping_metrics labels latency lost total r = record r {
    pod_ping_latency = c.observe labels latency r.pod_ping_latency;
    pod_ping_lost = c.add labels lost r.pod_ping_lost;
    pod_ping_total = c.add labels total r.pod_ping_total;
  }

  unfoldable pub set_node_ping_metrics : List String → ℕ → ℕ → ℕ → Registry c → Registry c
  set_node_ping_metrics labels latency lost total r = record r {
    node_ping_latency = c.observe labels latency r.node_ping_latency;
    node_ping_lost = c.add labels lost r.node_ping_lost;
    node_ping_total = c.add labels total r.node_ping_total;
  }

  unfoldable pub set_external_ping_metrics : List String → ℕ → ℕ → Registry c → Registry c
  set_external_ping_metrics labels latency lost r = record r {
    external_ping_latency = c.observe labels latency r.external_ping_latency;
    external_ping_lost = c.add labels lost r.external_ping_lost;
  }

  unfoldable pub set_dns_healthy_metrics : String → ℕ → Registry c → Registry c
  set_dns_healthy_metrics node latency r = record r {
    dns_healthy = c.set (node ∷ []) 1 r.dns_healthy;
    dns_request_latency = c.observe (node ∷ []) latency r.dns_request_latency;
    dns_unhealthy = c.set (node ∷ []) 0 r.dns_unhealthy;
  }

  unfoldable pub set_dns_unhealthy_metrics : String → Registry c → Registry c
  set_dns_unhealthy_metrics node r = record r {
    dns_healthy = c.set (node ∷ []) 0 r.dns_healthy;
    dns_unhealthy = c.set (node ∷ []) 1 r.dns_unhealthy;
  }

  -- The setter that a metric calls.
  unfoldable pub apply : Metric → Registry c → Registry c
  unfolding set_pod_ping_metrics set_node_ping_metrics set_external_ping_metrics
      set_dns_healthy_metrics set_dns_unhealthy_metrics
  apply (Metric.pod_ping labels latency lost total) = set_pod_ping_metrics labels latency lost total
  apply (Metric.node_ping labels latency lost total) =
      set_node_ping_metrics labels latency lost total
  apply (Metric.external_ping labels latency lost) = set_external_ping_metrics labels latency lost
  apply (Metric.dns_healthy node latency) = set_dns_healthy_metrics node latency
  apply (Metric.dns_unhealthy node) = set_dns_unhealthy_metrics node
