-- ===== src/Commands/Controller.antt =====
-- cmd/controller/controller.go: the flags of the manager and its start.
use kube_combo.Prelude.{String, ◌<>◌, Bool, true, false, Option, none, some, ◌==◌, Io, ◌>>=◌, pure}
use kube_combo.Prelude.{bool_eq, nat_eq, string_eq, option_eq, list_eq}
use kube_combo.VpnGw.Build.Containers.{Config}

pub record Flags : Type 0 where
  pub enable_webhooks : Bool
  pub metrics_addr : String
  pub probe_addr : String
  pub k8s_manifests_path : String
  pub ssl_vpn_secret_path : String
  pub dh_secret_path : String
  pub ip_sec_vpn_secret_path : String
  pub ssl_vpn_tcp : String
  pub ssl_vpn_udp : String
  pub ip_sec_boot_pc_port : String
  pub ip_sec_isakmp_port : String
  pub ip_sec_nat_port : String
  pub enable_leader_election : Bool

-- The flags that are not given; whether there are webhooks comes from the environment.
abbrev pub default_flags : (String → String) → Flags
default_flags getenv = record {
  enable_webhooks = getenv "ENABLE_WEBHOOKS" == "true";
  metrics_addr = "127.0.0.1";
  probe_addr = ":38081";
  k8s_manifests_path = "/etc/kubernetes/manifests";
  ssl_vpn_secret_path = "/etc/openvpn/certmanager";
  dh_secret_path = "/etc/openvpn/dh";
  ip_sec_vpn_secret_path = "/etc/ipsec/certs";
  ssl_vpn_tcp = "443";
  ssl_vpn_udp = "1194";
  ip_sec_boot_pc_port = "68";
  ip_sec_isakmp_port = "500";
  ip_sec_nat_port = "4500";
  enable_leader_election = false;
}

-- The options of the manager that the flags set.
pub record Options : Type 0 where
  pub bind_address : String
  pub health_probe_bind_address : String
  pub leader_election : Bool
  pub leader_election_id : String

-- The resources that have a reconciler and a webhook.
pub data Kind : Type 0 where
  vpn_gw : Kind
  ipsec_conn : Kind
  keep_alived : Kind
  debugger : Kind
  pinger : Kind

-- The calls of the library that can fail. The gateway's reconciler is set up with the flags.
pub data Call : Type 0 where
  new_kube_client : Call
  new_manager : Options → Call
  setup_vpn_gw : Config → Call
  setup_controller : Kind → Call
  setup_webhook : Kind → Call
  add_healthz : Call
  add_readyz : Call
  start : Call

-- The program returns when the manager stops, or exits with code 1.
pub data Ended : Type 0 where
  stopped : Ended
  exited : Ended

-- The fields of the gateway's reconciler that the builders read.
unfoldable pub vpn_gw_config : Flags → Config
vpn_gw_config flags = record {
  k8s_manifests_path = flags.k8s_manifests_path;
  ssl_vpn_tcp = flags.ssl_vpn_tcp;
  ssl_vpn_udp = flags.ssl_vpn_udp;
  ssl_vpn_secret_path = flags.ssl_vpn_secret_path;
  dh_secret_path = flags.dh_secret_path;
  ipsec_isakmp_port = flags.ip_sec_isakmp_port;
  ipsec_nat_port = flags.ip_sec_nat_port;
  ipsec_vpn_secret_path = flags.ip_sec_vpn_secret_path;
}

unfoldable pub manager_options : Flags → Options
manager_options flags = record {
  bind_address = flags.metrics_addr <> ":9443";
  health_probe_bind_address = flags.probe_addr;
  leader_election = flags.enable_leader_election;
  leader_election_id = "8e41f5a6.kubecombo.com";
}

module _ {W : Type 0} (call : Call → Io W (Option String)) where
  abbrev pub unless_exited : Io W Ended → Option String → Io W Ended
  unless_exited rest none = rest
  unless_exited rest (some e) = pure exited

  -- A call whose error ends the program.
  abbrev pub or_exit : Call → Io W Ended → Io W Ended
  or_exit c rest = call c >>= unless_exited rest

  abbrev pub start_manager : Io W Ended
  start_manager = or_exit add_healthz (or_exit add_readyz (or_exit start (pure stopped)))

  abbrev pub with_webhooks : Bool → Io W Ended → Io W Ended
  with_webhooks false rest = rest
  with_webhooks true rest = or_exit (setup_webhook vpn_gw) (
      or_exit (setup_webhook ipsec_conn) (
        or_exit (setup_webhook keep_alived)
          (or_exit (setup_webhook debugger) (or_exit (setup_webhook pinger) rest))))

  -- `CmdMain`, after the flags are parsed.
  unfoldable pub cmd_main : Flags → Io W Ended
  unfolding vpn_gw_config manager_options
  cmd_main flags = or_exit new_kube_client (
      or_exit (new_manager (manager_options flags)) (
        or_exit (setup_vpn_gw (vpn_gw_config flags)) (
          or_exit (setup_controller ipsec_conn) (
            or_exit (setup_controller keep_alived) (
              or_exit (setup_controller debugger) (
                or_exit (setup_controller pinger)
                  (with_webhooks flags.enable_webhooks start_manager)))))))
