-- ===== src/Api/KeepAlived.antt =====
-- `KeepAlived` (api/v1/keepalived_types.go).
use kube_combo.Prelude.{ℕ, String}
use kube_combo.Api.Meta.{ObjectMeta}

pub record KeepAlivedSpec : Type 0 where
  pub vip_v4 : String
  pub vip_v6 : String
  pub subnet : String
  pub nic : String
  pub image : String

-- The conditions are left out: the controllers neither read nor write them. `router_id` is an
-- `int` of which the code only ever writes values from 0 to 255.
pub record KeepAlivedStatus : Type 0 where
  pub router_id : ℕ

pub record KeepAlived : Type 0 where
  pub meta : ObjectMeta
  pub spec : KeepAlivedSpec
  pub status : KeepAlivedStatus
