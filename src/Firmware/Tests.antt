-- ===== src/Firmware/Tests.antt =====
-- Runs of the applicability evaluation, and its theorem on a sample package.
use cnserver_ops.Prelude.{Result, String, [], ◌∷◌, Option, none, some, ok, err, ◌≡◌, refl}
use cnserver_ops.Text.{upper, lower}
use cnserver_ops.Firmware.Metadata.{
  RepositoryError, filename_not_plain, validate, is_sha256, is_plain_filename,
}
use cnserver_ops.Firmware.Applicability.{
  Host, CatalogEntry, ApplicabilityDecision, evaluate_applicability, decide, catalog_reasons,
  matches_platform, applicable, blocked, current, already_current,
  catalog_applicability_unavailable,
}
use cnserver_ops.Firmware.Decision.{IsJustified, evaluate_applicability-IsJustified}
use cnserver_ops.Firmware.Repository.{
  Cache, Source, downloaded, verify, fetch_if_missing, ingest, place, check_source, object_path,
  fetch_missing,
}
use cnserver_ops.Firmware.Stored.{fetch_if_missing-verify}
use cnserver_ops.Samples.{machine, bmc_image}

abbrev host : Host
host = record { identity = machine; board_name = ""; family = ""; current_version = "1.2.30" }

abbrev entry : CatalogEntry
entry = record {
  catalog_id = "ASUS-2024";
  version = "1.2.37";
  component = "bmc";
  applicability = "Applicable";
}

abbrev approved : ApplicabilityDecision
approved = record {
  status = applicable;
  reason_codes = [];
  package_sha256 = "abababababababababababababababababababababababababababababababab";
  current_version = "1.2.30";
  target_version = "1.2.37";
  catalog_id = "ASUS-2024";
  evidence = "release-note" ∷ [];
}

approves : evaluate_applicability bmc_image host (some entry) ≡ ok approved
unfolding evaluate_applicability validate is_sha256 lower is_plain_filename decide catalog_reasons
    upper matches_platform
approves = refl

installed :
    evaluate_applicability bmc_image (record host { current_version = "1.2.37" }) (some entry)
    ≡ ok (record approved {
      status = current;
      current_version = "1.2.37";
      reason_codes = already_current ∷ [];
    })
unfolding evaluate_applicability validate is_sha256 lower is_plain_filename decide catalog_reasons
    upper matches_platform
installed = refl

without_catalog :
    evaluate_applicability bmc_image host none
    ≡ ok (record approved {
      status = blocked;
      catalog_id = "";
      reason_codes = catalog_applicability_unavailable ∷ [];
    })
unfolding evaluate_applicability validate is_sha256 lower is_plain_filename decide matches_platform
    upper
without_catalog = refl

in_a_directory :
    evaluate_applicability (record bmc_image { package_filename = "a/b" }) host (some entry)
    ≡ err filename_not_plain
unfolding evaluate_applicability validate is_sha256 lower is_plain_filename
in_a_directory = refl

evaluate_applicability-IsJustified_example :
    (e : CatalogEntry) × (Path (Option CatalogEntry) (some entry) (some e))
    × IsJustified bmc_image host e
    × (approved.package_sha256 ≡ lower bmc_image.sha256)
    × (approved.target_version ≡ bmc_image.version)
evaluate_applicability-IsJustified_example =
    evaluate_applicability-IsJustified bmc_image host (some entry) approved approves refl

abbrev digest : String
digest = "abababababababababababababababababababababababababababababababab"

-- Every file has the same checksum here.
abbrev one_digest : String → String
one_digest b = digest

abbrev empty : Cache String
empty = record { objects = λ k. none; metadata = λ k. none }

abbrev download : String → Result RepositoryError (Source String)
download url = ok (record { bytes = "image"; size = 5 })

fetches :
    (fetch_if_missing one_digest (λ b. b) download bmc_image empty).0 ≡ ok (digest, downloaded)
unfolding fetch_if_missing lower fetch_missing verify object_path is_sha256 ingest check_source
    validate is_plain_filename place
fetches = refl

fetch_if_missing-verify_example :
    verify one_digest bmc_image.sha256
      (fetch_if_missing one_digest (λ b. b) download bmc_image empty).1
    ≡ ok digest
unfolding lower
fetch_if_missing-verify_example =
    fetch_if_missing-verify one_digest (λ b. b) (λ b. refl) download bmc_image empty digest
      downloaded fetches
