-- ===== src/Samples.antt =====
-- Data for the tests: an identity, its approval, an operation and a package.
use cnserver_ops.Prelude.{true, [], ◌∷◌}
use cnserver_ops.Identity.{Identity}
use cnserver_ops.Firmware.Metadata.{FirmwarePackageMetadata}
use cnserver_ops.Safety.{MutationGate, Operation}

abbrev pub machine : Identity
machine = record {
  server_id = "SERVER-AB12";
  boot_id = "boot-1";
  vendor = "ASUS";
  platform_id = "ASUS_RS720";
  model = "RS720-E11";
  dmi_uuid = "";
  primary_serial = "S1";
  system_serial = "";
  confidence = "high";
  anchors = ("dmi_board_serial", "B1") ∷ [];
  fingerprint_sha256 = "ab12";
  resumable = true;
  mutation_eligible = true;
  resume_block_reason = "";
}

abbrev pub approval : MutationGate
approval = record {
  authorized = true;
  lab_mode = true;
  approval_id = "A-1";
  machine_fingerprint_sha256 = "ab12";
  vendor = "asus";
  model = "";
  system_serial = "s1";
  run_id = "RUN-00000001";
  component = "";
  target_version = "";
  package_sha256 = "beef";
  allowed_actions = "FIRMWARE_APPLY" ∷ "LOG_CLEAR" ∷ [];
  expires_at_utc = "";
}

abbrev pub flash : Operation
flash = record {
  run_id = "RUN-00000001";
  component = "BMC";
  target_version = "1.2.37";
  package_sha256 = "BEEF";
}

abbrev pub bmc_image : FirmwarePackageMetadata
bmc_image = record {
  vendor = "Asus";
  component = "BMC";
  version = "1.2.37";
  package_filename = "bmc.ima";
  sha256 = "ABABABABABABABABABABABABABABABABABABABABABABABABABABABABABABABAB";
  source = "ASUS";
  source_url = "https://dlcdnets.asus.com/bmc.ima";
  compatible_models = "rs720-e11" ∷ [];
  compatible_families = [];
  compatible_boards = [];
  compatible_platform_ids = [];
  compatible_bmc_generations = [];
  package_format = "IMA";
  official_release_url = "";
  vendor_sha256 = "";
  official_source_verified = true;
  provenance_level = "OFFICIAL";
  package_signature_status = "NOT_CHECKED";
  package_metadata_evidence = [];
  install_mechanism = "REDFISH";
  reboot_requirement = "NONE";
  validation_status = "CHECKSUM_VERIFIED";
  applicability_evidence = "release-note" ∷ [];
  discovered_at_utc = "";
  downloaded_at_utc = "";
  size_bytes = 0;
}
