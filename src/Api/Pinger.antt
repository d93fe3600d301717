-- ===== src/Api/Pinger.antt =====
-- `Pinger` (api/v1/pinger_types.go).
use kube_combo.Prelude.{String, Bool}
use kube_combo.Api.Meta.{ObjectMeta}

pub record PingerSpec : Type 0 where
  pub image : String
  pub enable_metrics : Bool
  pub ping : String
  pub tcp_ping : String
  pub udp_ping : String
  pub dns : String

-- The conditions are left out: the controllers neither read nor write them.
pub record PingerStatus : Type 0 where
  pub image : String
  pub enable_metrics : Bool
  pub ping : String
  pub tcp_ping : String
  pub udp_ping : String
  pub dns : String

pub record Pinger : Type 0 where
  pub meta : ObjectMeta
  pub spec : PingerSpec
  pub status : PingerStatus
