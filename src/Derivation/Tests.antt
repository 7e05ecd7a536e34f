-- ===== src/Derivation/Tests.antt =====
-- Runs of derive_machine_identity of cnserverops/identity.py.
use cnserver_ops.Prelude.{String, true, false, [], ◌∷◌, some, ◌≡◌, refl, ◌<>◌}
use cnserver_ops.Identity.{Identity}
use cnserver_ops.Derivation.{
  Dmi, Fru, Bmc, Platform, serial, is_management_module, conflicts, derive_machine_identity,
}
use cnserver_ops.Derivation.Trusted.{IsTrusted, derive_machine_identity-IsTrusted}

placeholder_sample : serial " To be filled by O.E.M. " ≡ ""
unfolding serial
placeholder_sample = refl

serial_sample : serial " S1  2 " ≡ "S1 2"
unfolding serial
serial_sample = refl

module_sample : is_management_module "ASMB11-iKVM" "ASUS" ≡ true
unfolding is_management_module cnserver_ops.Text.drop_prefix cnserver_ops.Text.all_chars
module_sample = refl

no_module_sample : is_management_module "Z13PP-D32" "ASUSTeK SCMX" ≡ false
unfolding is_management_module cnserver_ops.Text.drop_prefix
no_module_sample = refl

abbrev sha256 : String → String
sha256 s = "sha:" <> s

abbrev platform : Platform
platform = record {
  vendor = "Asus";
  platform_id = "asus_rs720";
  discovery_supported = some true;
  supported = false;
}

abbrev dmi : Dmi
dmi = record {
  product_name = "RS720-E11";
  product_uuid = "u-1";
  system_serial = "s1";
  chassis_serial = "N/A";
  board_serial = "B1";
}

abbrev fru : Fru
fru = record {
  product_serial = "S1";
  chassis_serial = "C1";
  board_serial = "B1";
  board_product = "Z13";
  board_manufacturer = "ASUS";
}

abbrev silent : Bmc
silent = record { model = ""; uuid = ""; serial = ""; manager_serial = "" }

-- A BMC that still has the values of another machine.
abbrev stale : Bmc
stale = record { model = "RS700"; uuid = "u-2"; serial = "S9"; manager_serial = "M1" }

fingerprint_sample :
    (derive_machine_identity sha256 platform dmi fru stale "b").fingerprint_sha256
    ≡ "sha:vendor=ASUS|model=RS720-E11|system_serial=S1"
unfolding derive_machine_identity cnserver_ops.Derivation.from_dmi is_management_module
    cnserver_ops.Text.drop_prefix
fingerprint_sample = refl

-- Without a model in DMI the fingerprint takes the model of Redfish.
redfish_model_sample :
    (derive_machine_identity sha256 platform
      (record dmi { product_name = "" })
      fru
      stale
      "b").fingerprint_sha256
    ≡ "sha:vendor=ASUS|model=RS700|system_serial=S1"
unfolding derive_machine_identity cnserver_ops.Derivation.from_dmi is_management_module
    cnserver_ops.Text.drop_prefix cnserver_ops.Derivation.from_bmc
redfish_model_sample = refl

conflict_sample :
    conflicts dmi (record fru { product_serial = "S2" }) ≡ "system serial sources disagree" ∷ []
unfolding conflicts serial is_management_module cnserver_ops.Text.drop_prefix
conflict_sample = refl

resumable_sample : (derive_machine_identity sha256 platform dmi fru stale "b").resumable ≡ true
unfolding derive_machine_identity cnserver_ops.Derivation.from_dmi is_management_module
    cnserver_ops.Text.drop_prefix
resumable_sample = refl

derive_machine_identity-IsTrusted_example :
    IsTrusted sha256 platform dmi fru (derive_machine_identity sha256 platform dmi fru stale "b")
derive_machine_identity-IsTrusted_example =
    derive_machine_identity-IsTrusted sha256 platform dmi fru stale "b" resumable_sample
