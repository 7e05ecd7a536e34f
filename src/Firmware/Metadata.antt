-- ===== src/Firmware/Metadata.antt =====
-- `FirmwarePackageMetadata` and its `validate`.
use cnserver_ops.Prelude.{
  String, ℕ, Bool, not, ◌||◌, ◌&&◌, List, is_empty, ◌==◌, truthy, eqb, Result, ◌>>◌, raise_if,
}
use cnserver_ops.Text.{lower, all_chars, count_chars, has_char, is_lower_hex_code}

pub data RepositoryError : Type 0 where
  metadata_incomplete invalid_sha256 invalid_vendor_sha256 : RepositoryError
  filename_not_plain no_compatibility : RepositoryError
  not_a_regular_file checksum_mismatch size_mismatch cache_corrupted : RepositoryError
  object_invalid not_https copy_mismatch missing_or_invalid : RepositoryError
  download_failed : String → RepositoryError

pub record FirmwarePackageMetadata : Type 0 where
  pub vendor : String
  pub component : String
  pub version : String
  pub package_filename : String
  pub sha256 : String
  pub source : String
  pub source_url : String
  pub compatible_models : List String
  pub compatible_families : List String
  pub compatible_boards : List String
  pub compatible_platform_ids : List String
  pub compatible_bmc_generations : List String
  pub package_format : String
  pub official_release_url : String
  pub vendor_sha256 : String
  pub official_source_verified : Bool
  pub provenance_level : String
  pub package_signature_status : String
  pub package_metadata_evidence : List String
  pub install_mechanism : String
  pub reboot_requirement : String
  pub validation_status : String
  pub applicability_evidence : List String
  pub discovered_at_utc : String
  pub downloaded_at_utc : String
  pub size_bytes : ℕ

-- `_SHA256.fullmatch`: `^[a-f0-9]{64}$`.
unfoldable pub is_sha256 : String → Bool
unfolding all_chars count_chars
is_sha256 s = all_chars is_lower_hex_code s && eqb (count_chars s) 64

-- `Path(name).name == name and name`: one component, and neither empty nor the current directory.
unfoldable pub is_plain_filename : String → Bool
unfolding has_char
is_plain_filename name = truthy name && not (has_char b'/' name) && not (name == ".")

unfoldable pub validate : FirmwarePackageMetadata → Result RepositoryError (Unit {0})
validate m = do
  raise_if (not (truthy m.vendor) || not (truthy m.component) || not (truthy m.version))
      metadata_incomplete
  raise_if (not (is_sha256 (lower m.sha256))) invalid_sha256
  raise_if (truthy m.vendor_sha256 && not (is_sha256 (lower m.vendor_sha256))) invalid_vendor_sha256
  raise_if (not (is_plain_filename m.package_filename)) filename_not_plain
  raise_if
      (is_empty m.compatible_models
        && is_empty m.compatible_families
        && is_empty m.compatible_boards
        && is_empty m.compatible_platform_ids)
      no_compatibility
