-- ===== src/Webhook/KeepAlived.antt =====
-- The webhook of KeepAlived (api/v1/keepalived_webhook.go).
use kube_combo.Prelude.{◌≡◌, ◌≢◌, Option, none, List, [], ◌∷◌, ◌++◌, arith, bool_eq, nat_eq}
use kube_combo.Prelude.{string_eq, option_eq, list_eq}
use kube_combo.Api.KeepAlived.{KeepAlived}
use kube_combo.Webhook.Errors.{FieldError, invalid, report, replaced}

-- The errors that `ValidateUpdate` collects.
unfoldable pub vip_errors : KeepAlived → KeepAlived → List FieldError
vip_errors r old =
    report (replaced old.spec.vip_v4 r.spec.vip_v4)
      (invalid "spec.keepAlived" r.spec.vip_v4 "keepalived v4 ip can not be changed")
    ++ report (replaced old.spec.vip_v6 r.spec.vip_v6)
        (invalid "spec.keepAlived" r.spec.vip_v6 "keepalived v6 ip can not be changed")

abbrev conclude : List FieldError → Option (List FieldError)
conclude [] = none
conclude (e ∷ es) = none

-- Both ends of the function return nil.
unfoldable pub validate_update : KeepAlived → KeepAlived → Option (List FieldError)
unfolding vip_errors
validate_update r old = conclude (vip_errors r old)

-- An update that changes a VIP that is set is an error that the webhook collects, and accepts.
validate_update_accepts_changed_vip :
    (r old : KeepAlived)
    → old.spec.vip_v4 ≢ ""
    → old.spec.vip_v4 ≢ r.spec.vip_v4
    → (vip_errors r old ≢ []) × (validate_update r old ≡ none)
unfolding validate_update report
validate_update_accepts_changed_vip r old s d = (ground arith, ground arith)
