-- ===== src/Api/IpsecConn.antt =====
-- `IpsecConn` (api/v1/ipsecconn_types.go). The status holds only conditions, which the code
-- neither reads nor writes.
use kube_combo.Prelude.{String}
use kube_combo.Api.Meta.{ObjectMeta}

pub record IpsecConnSpec : Type 0 where
  pub vpn_gw : String
  pub auth : String
  pub ike_version : String
  pub ike_proposals : String
  pub local_cn : String
  pub local_vip : String
  pub local_gateway : String
  pub local_gateway_nic : String
  pub local_eip : String
  pub local_private_cidrs : String
  pub remote_cn : String
  pub remote_eip : String
  pub remote_private_cidrs : String
  pub esp_proposals : String

pub record IpsecConn : Type 0 where
  pub meta : ObjectMeta
  pub spec : IpsecConnSpec
