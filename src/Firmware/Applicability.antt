-- ===== src/Firmware/Applicability.antt =====
-- `evaluate_applicability`: whether a package is for this server and wanted by the catalog.
use cnserver_ops.Prelude.{
  String, Bool, true, false, not, ◌||◌, ◌&&◌, List, [], ◌∷◌, ◌++◌, is_empty, Option, none, some,
  ◌==◌, truthy, contains, map, Result, ok, ◌>>◌, if◌then◌else◌,
}
use cnserver_ops.Text.{upper, lower}
use cnserver_ops.Identity.{Identity}
use cnserver_ops.Firmware.Metadata.{FirmwarePackageMetadata, RepositoryError, validate}

-- The constants of `FirmwareApplicabilityStatus`; REVIEW is never returned by the evaluation.
pub data ApplicabilityStatus : Type 0 where
  applicable current review blocked : ApplicabilityStatus

pub data ReasonCode : Type 0 where
  vendor_mismatch package_platform_mismatch package_not_validated : ReasonCode
  catalog_applicability_unavailable catalog_component_mismatch : ReasonCode
  catalog_package_version_mismatch catalog_did_not_confirm_applicability : ReasonCode
  already_current : ReasonCode

-- The keys of a catalog entry that are read; a missing key reads as the empty text.
pub record CatalogEntry : Type 0 where
  pub catalog_id : String
  pub version : String
  pub component : String
  pub applicability : String

pub record ApplicabilityDecision : Type 0 where
  pub status : ApplicabilityStatus
  pub reason_codes : List ReasonCode
  pub package_sha256 : String
  pub current_version : String
  pub target_version : String
  pub catalog_id : String
  pub evidence : List String

abbrev pub is_applicable : ApplicabilityStatus → Bool
is_applicable applicable = true
is_applicable _ = false

-- The property `approved_for_executor`.
abbrev pub approved_for_executor : ApplicabilityDecision → Bool
approved_for_executor d = is_applicable d.status

-- The package's claims about where it may be installed and how it was checked.
pub record Host : Type 0 where
  pub identity : Identity
  pub board_name : String
  pub family : String
  pub current_version : String

unfoldable pub matches_platform : FirmwarePackageMetadata → Host → Bool
matches_platform m h =
    contains (upper h.identity.model) (map upper m.compatible_models)
    || (truthy h.family && contains (upper h.family) (map upper m.compatible_families))
    || (truthy h.board_name && contains (upper h.board_name) (map upper m.compatible_boards))

abbrev pub validated_statuses : List String
validated_statuses =
    "CHECKSUM_VERIFIED" ∷ "VENDOR_SIGNED" ∷ "LAB_VALIDATED" ∷ "PROVENANCE_VERIFIED"
    ∷ "CHECKSUM_VERIFIED_WITHOUT_VENDOR_HASH" ∷ "OFFICIAL_SOURCE_VERIFIED" ∷ []

-- `if test: reasons.append(code)`.
abbrev pub add_if : Bool → ReasonCode → List ReasonCode → List ReasonCode
add_if test code reasons = if test then reasons ++ (code ∷ []) else reasons

unfoldable pub package_reasons : FirmwarePackageMetadata → Host → List ReasonCode
package_reasons m h =
    add_if (not (contains m.validation_status validated_statuses)) package_not_validated (
      add_if (not (matches_platform m h)) package_platform_mismatch
        (add_if (not (upper h.identity.vendor == upper m.vendor)) vendor_mismatch []))

unfoldable pub catalog_reasons :
    FirmwarePackageMetadata → CatalogEntry → List ReasonCode → List ReasonCode
catalog_reasons m e reasons =
    add_if (not (upper e.applicability == "APPLICABLE")) catalog_did_not_confirm_applicability (
      add_if (not (e.version == m.version)) catalog_package_version_mismatch
        (add_if (not (upper e.component == upper m.component)) catalog_component_mismatch reasons))

unfoldable pub decide : FirmwarePackageMetadata → Host → Option CatalogEntry → ApplicabilityDecision
unfolding package_reasons
decide m h none = record {
  status = blocked;
  reason_codes = package_reasons m h ++ (catalog_applicability_unavailable ∷ []);
  package_sha256 = lower m.sha256;
  current_version = h.current_version;
  target_version = m.version;
  catalog_id = "";
  evidence = m.applicability_evidence;
}
decide m h (some e) =
    let reasons = catalog_reasons m e (package_reasons m h) in
    let is_current =
      truthy h.current_version && h.current_version == e.version && is_empty reasons in
    record {
      status = if is_current then current else if is_empty reasons then applicable else blocked;
      reason_codes = add_if is_current already_current reasons;
      package_sha256 = lower m.sha256;
      current_version = h.current_version;
      target_version = e.version;
      catalog_id = e.catalog_id;
      evidence = m.applicability_evidence;
    }

unfoldable pub evaluate_applicability :
    FirmwarePackageMetadata
    → Host
    → Option CatalogEntry
    → Result RepositoryError ApplicabilityDecision
evaluate_applicability m h entry = do validate m; ok (decide m h entry)
