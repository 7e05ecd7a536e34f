-- ===== src/Evidence/Tests.antt =====
-- Runs of the evidence functions of cnserverops/evidence.py.
use cnserver_ops.Prelude.{true, false, some, ◌≡◌, refl}
use cnserver_ops.Evidence.{
  provisioned, unavailable, password_change_required, available_local, blocked_by_auth,
  classify_bmc_auth_state, resolve_capability_access,
}

provisioned_sample : classify_bmc_auth_state true (some 204) false "other" ≡ provisioned
unfolding classify_bmc_auth_state
provisioned_sample = refl

refused_sample : classify_bmc_auth_state true (some 401) false "default" ≡ unavailable
unfolding classify_bmc_auth_state
refused_sample = refl

local_sample : (resolve_capability_access unavailable "KCS" "REDFISH" true).status ≡ available_local
unfolding resolve_capability_access
local_sample = refl

blocked_sample :
    (resolve_capability_access password_change_required "" "REDFISH" true).status ≡ blocked_by_auth
unfolding resolve_capability_access
blocked_sample = refl
