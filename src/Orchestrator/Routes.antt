-- ===== src/Orchestrator/Routes.antt =====
-- `select_vendor_route`: which adapter serves a platform, and what it may change.
use cnserver_ops.Prelude.{String, Bool, true, false, List, [], ◌∷◌, ◌==◌, if◌then◌else◌}
use cnserver_ops.Text.{upper}

pub record Platform : Type 0 where
  pub platform_id : String
  pub vendor : String

pub record VendorRoute : Type 0 where
  pub name : String
  pub adapter : String
  pub production_supported : Bool
  pub mutation_supported : Bool
  pub reason : String
  pub allowed_mutation_actions : List String

abbrev dell_route : VendorRoute
dell_route = record {
  name = "DELL_EXISTING_PRODUCTION";
  adapter = "dell_existing_bridge";
  production_supported = true;
  mutation_supported = true;
  reason = "Wrap the existing known-working Dell R640 path; do not reimplement RACADM/DSU/TSR.";
  allowed_mutation_actions = "FIRMWARE_APPLY" ∷ "LOG_CLEAR" ∷ [];
}

abbrev asus_route : VendorRoute
asus_route = record {
  name = "ASUS_CAPABILITY_DRIVEN";
  adapter = "asus_common_production";
  production_supported = true;
  mutation_supported = true;
  reason =
      "ASUS local production capabilities proceed independently; firmware mutation is enabled only after exact package, transport and gate checks.";
  allowed_mutation_actions = "FIRMWARE_APPLY" ∷ "LOG_CLEAR" ∷ [];
}

abbrev inventory_route : VendorRoute
inventory_route = record {
  name = "SAFE_INVENTORY_ONLY";
  adapter = "safe_inventory";
  production_supported = false;
  mutation_supported = false;
  reason = "Unsupported platform: inventory and reporting only.";
  allowed_mutation_actions = [];
}

unfoldable pub select_vendor_route : Platform → VendorRoute
select_vendor_route p =
    if p.platform_id == "DELL_POWEREDGE_R640"
    then dell_route
    else if upper p.vendor == "ASUS"
    then asus_route
    else inventory_route
