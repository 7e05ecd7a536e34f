-- ===== src/Derivation.antt =====
-- cnserverops/identity.py: derive_machine_identity. The probe of DMI, the FRU and the two Redfish
-- resources are records of the texts that it reads from them, empty where there is none; SHA-256 and
-- the boot id are parameters. The details by component, which only report, are left out.
mod Words
pub mod Trusted
pub mod Independent
mod Tests
use cnserver_ops.Prelude.{
  String, ℕ, suc, Bool, true, false, not, ◌||◌, ◌&&◌, List, [], ◌∷◌, ◌++◌, map, Option, none, some,
  ◌==◌, ◌<>◌, truthy, or_text, contains, if◌then◌else◌, is_empty, get_text,
}
use cnserver_ops.Text.{upper, strip}
use cnserver_ops.Identity.{Identity}
use cnserver_ops.Evidence.{
  FieldObservation, FusedField, Freshness, Confidence, current_boot, static_fru,
  bmc_freshness_unknown, high, medium, low, fuse_field,
}
unfoldable pub use Words.{clean, serial, is_management_module}

-- `PlatformProbe`, as far as it is read.
pub record Dmi : Type 0 where
  pub product_name : String
  pub product_uuid : String
  pub system_serial : String
  pub chassis_serial : String
  pub board_serial : String

pub record Fru : Type 0 where
  pub product_serial : String
  pub chassis_serial : String
  pub board_serial : String
  pub board_product : String
  pub board_manufacturer : String

-- The Redfish system, and the serial of the Redfish manager.
pub record Bmc : Type 0 where
  pub model : String
  pub uuid : String
  pub serial : String
  pub manager_serial : String

-- The keys of `platform`; `discovery_supported` may be missing.
pub record Platform : Type 0 where
  pub vendor : String
  pub platform_id : String
  pub discovery_supported : Option Bool
  pub supported : Bool

unfoldable pub from_dmi : String → FieldObservation
unfolding serial
from_dmi value = record {
  value = serial value;
  source = "DMI_SMBIOS";
  freshness = current_boot;
  confidence = high;
  current_local = true;
  bmc_derived = false;
}

unfoldable pub from_fru : String → FieldObservation
unfolding serial
from_fru value = record {
  value = serial value;
  source = "IPMI_FRU_LOCAL_KCS";
  freshness = static_fru;
  confidence = high;
  current_local = false;
  bmc_derived = false;
}

unfoldable pub from_bmc : String → String → FieldObservation
unfolding serial
from_bmc source value = record {
  value = serial value;
  source = source;
  freshness = bmc_freshness_unknown;
  confidence = medium;
  current_local = false;
  bmc_derived = true;
}

-- Two texts that are there and differ, but for their case.
abbrev pub differ : String → String → Bool
differ a b = truthy a && truthy b && not (upper a == upper b)

module _ (dmi : Dmi) (fru : Fru) where
  abbrev pub management_module : Bool
  management_module = is_management_module (clean fru.board_product) (clean fru.board_manufacturer)

  -- The fields whose value the identity takes.
  abbrev pub model_field : Bmc → FusedField
  model_field bmc =
      fuse_field ((from_dmi dmi.product_name ∷ []) ++ (from_bmc "REDFISH_SYSTEM" bmc.model ∷ []))

  abbrev pub local_serials : List FieldObservation
  local_serials = from_dmi dmi.system_serial ∷ from_fru fru.product_serial ∷ []

  abbrev pub system_serial_field : Bmc → FusedField
  system_serial_field bmc =
      fuse_field (local_serials ++ (from_bmc "REDFISH_SYSTEM" bmc.serial ∷ []))

  abbrev pub anchors : Bmc → List (String × String)
  anchors bmc =
      ("dmi_system_uuid", serial dmi.product_uuid)
      ∷ ("redfish_system_uuid", serial bmc.uuid)
      ∷ ("dmi_system_serial", serial dmi.system_serial)
      ∷ ("redfish_system_serial", serial bmc.serial)
      ∷ ("fru_product_serial", serial fru.product_serial)
      ∷ ("dmi_chassis_serial", serial dmi.chassis_serial)
      ∷ ("fru_chassis_serial", serial fru.chassis_serial)
      ∷ ("dmi_board_serial", serial dmi.board_serial)
      ∷ ("fru_board_serial", serial fru.board_serial)
      ∷ ("fru_board_product", clean fru.board_product)
      ∷ ("fru_board_manufacturer", clean fru.board_manufacturer)
      ∷ ("fru_management_module_serial", if management_module then serial fru.board_serial else "")
      ∷ ("fru_management_module_model", if management_module then clean fru.board_product else "")
      ∷ ("bmc_serial", serial bmc.manager_serial)
      ∷ []

  unfoldable pub conflicts : List String
  conflicts =
      (if differ (serial dmi.system_serial) (serial fru.product_serial)
        then "system serial sources disagree" ∷ []
        else [])
      ++ (if differ (serial dmi.chassis_serial) (serial fru.chassis_serial)
          then "chassis serial sources disagree" ∷ []
          else [])
      ++ (if not management_module && differ (serial dmi.board_serial) (serial fru.board_serial)
          then "board serial sources disagree" ∷ []
          else [])

  abbrev pub trusted_serial_present : Bool
  trusted_serial_present = truthy (serial dmi.system_serial) || truthy (serial fru.product_serial)

  -- `basis`, for the vendor, the model and the primary serial.
  unfoldable pub basis_of : String → String → String → List (String × String)
  unfolding upper
  basis_of vendor model primary =
      if truthy primary && trusted_serial_present
      then ("vendor", vendor) ∷ ("model", upper model) ∷ ("system_serial", upper primary) ∷ []
      else if truthy (serial dmi.chassis_serial) && truthy (serial dmi.board_serial)
      then ("vendor", vendor)
        ∷ ("model", upper model)
        ∷ ("chassis_serial", upper (serial dmi.chassis_serial))
        ∷ ("board_serial", upper (serial dmi.board_serial))
        ∷ []
      else []

  abbrev pub corroborated : Bool
  corroborated =
      truthy (serial dmi.system_serial)
      && truthy (serial fru.product_serial)
      && upper (serial dmi.system_serial) == upper (serial fru.product_serial)

-- `"|".join(f"{key}={value}" …)`.
canonical : List (String × String) → String
canonical [] = ""
canonical ((k, v) ∷ []) = k <> "=" <> v
canonical ((k, v) ∷ rest) = k <> "=" <> v <> "|" <> canonical rest

abbrev pub vendor_of : Platform → String
vendor_of p = or_text (upper (clean p.vendor)) "UNKNOWN"

abbrev pub discovery : Platform → Bool
discovery p = given p.discovery_supported
  where
    given : Option Bool → Bool
    given none = p.supported
    given (some b) = b

join_conflicts : List String → String
join_conflicts [] = ""
join_conflicts (c ∷ []) = c
join_conflicts (c ∷ cs) = c <> "; " <> join_conflicts cs

-- `_resume_block_reason`.
block_reason : Bool → Bool → List String → String
unfolding join_conflicts
block_reason supported no_basis conflicts =
    if not supported
    then "platform discovery is not supported"
    else if not (is_empty conflicts)
    then join_conflicts conflicts
    else if no_basis
    then "stable current/local system serial or chassis-plus-board identity is unavailable"
    else "identity fingerprint could not be established"

module _ (sha256 : String → String) where
  -- The fingerprint, empty where it is not established.
  unfoldable pub fingerprint_of : Platform → List (String × String) → List String → String
  unfolding canonical
  fingerprint_of p basis conflicts =
      if not (is_empty basis) && is_empty conflicts && not (vendor_of p == "UNKNOWN")
      then sha256 (canonical basis)
      else ""

  unfoldable pub confidence_of : String → Bool → List (String × String) → List String → String
  confidence_of primary agreed basis conflicts =
      if truthy primary && agreed && is_empty conflicts
      then "high"
      else if not (is_empty basis) && is_empty conflicts
      then "medium"
      else "low"

  -- The dict, from the basis, the model, the primary serial and the conflicts.
  unfoldable pub identity_of :
      Platform → Dmi → Fru → Bmc → String → String → String → List (String × String) → Identity
  unfolding fingerprint_of confidence_of block_reason conflicts upper
  identity_of p dmi fru bmc boot_id model primary basis =
      let fingerprint = fingerprint_of p basis (conflicts dmi fru) in
      let resumable = truthy fingerprint && is_empty (conflicts dmi fru) && discovery p in
      record {
        server_id = if truthy fingerprint then "SERVER-" <> upper fingerprint else "";
        boot_id = strip boot_id;
        vendor = vendor_of p;
        platform_id = or_text (upper (clean p.platform_id)) "UNSUPPORTED_PLATFORM";
        model = model;
        dmi_uuid = serial dmi.product_uuid;
        primary_serial = primary;
        system_serial = "";
        confidence = confidence_of primary (corroborated dmi fru) basis (conflicts dmi fru);
        anchors = anchors dmi fru bmc;
        fingerprint_sha256 = fingerprint;
        resumable = resumable;
        mutation_eligible = resumable;
        resume_block_reason =
            if resumable
            then ""
            else block_reason (discovery p) (is_empty basis) (conflicts dmi fru);
      }

  unfoldable pub derive_machine_identity : Platform → Dmi → Fru → Bmc → String → Identity
  unfolding identity_of basis_of clean fuse_field
  derive_machine_identity p dmi fru bmc boot_id =
      let primary = (system_serial_field dmi fru bmc).value in
      let model = clean (model_field dmi fru bmc).value in
      identity_of p dmi fru bmc boot_id model primary (basis_of dmi fru (vendor_of p) model primary)
