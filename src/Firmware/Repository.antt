-- ===== src/Firmware/Repository.antt =====
-- `FirmwareRepository`: objects named by their checksum, and their metadata. `sha256` of a file's
-- bytes, the downloader and the copy of a file are parameters.
use cnserver_ops.Prelude.{
  String, ℕ, Bool, true, false, not, ◌&&◌, Option, none, some, ◌==◌, eqb, put, starts_with, Result,
  ok, err, raise_if, if◌then◌else◌,
}
use cnserver_ops.Prelude
use cnserver_ops.Text.{lower}
use cnserver_ops.Exec.{Exec, pure, gets, lift, modify, ◌>>=◌, ◌>>◌}
use cnserver_ops.Firmware.Metadata.{
  FirmwarePackageMetadata, RepositoryError, validate, is_sha256, object_invalid, not_a_regular_file,
  checksum_mismatch, size_mismatch, cache_corrupted, copy_mismatch, missing_or_invalid, not_https,
}

-- What stands under the repository's root: the bytes of an object by its path, which is its lower-case
-- checksum, and the normalized metadata of an object.
pub record Cache (B : Type 0) : Type 0 where
  pub objects : String → Option B
  pub metadata : String → Option FirmwarePackageMetadata

unfoldable pub object_path : String → Result RepositoryError String
unfolding lower
object_path digest = if is_sha256 (lower digest) then ok (lower digest) else err object_invalid

-- What a file's name stands for: the bytes of a regular file that is no symbolic link, with its size.
pub record Source (B : Type 0) : Type 0 where
  pub bytes : B
  pub size : ℕ

-- The second result of `fetch_if_missing`.
pub data Fetched : Type 0 where
  cache_hit downloaded : Fetched

module _ {B : Type 0} (sha256 : B → String) where
  abbrev pub has_digest : String → Option B → Bool
  has_digest digest none = false
  has_digest digest (some b) = sha256 b == digest

  -- `verify`: the path of an object whose bytes have the checksum that names it.
  unfoldable pub verify : String → Cache B → Result RepositoryError String
  verify digest cache = Prelude.◌>>=◌ (object_path digest) λ path.
      if has_digest (lower digest) (cache.objects path) then ok path else err missing_or_invalid

  abbrev pub normalized : FirmwarePackageMetadata → Source B → FirmwarePackageMetadata
  normalized m source = record m { sha256 = sha256 source.bytes; size_bytes = source.size }

  -- The checks of `ingest` on the source.
  unfoldable pub check_source :
      Option (Source B) → FirmwarePackageMetadata → Result RepositoryError (Source B)
  check_source none m = Prelude.◌>>◌ (validate m) (err not_a_regular_file)
  check_source (some source) m = Prelude.◌>>◌ (validate m) (
      Prelude.◌>>◌ (raise_if (not (sha256 source.bytes == lower m.sha256)) checksum_mismatch) (
        Prelude.◌>>◌
          (raise_if (not (eqb m.size_bytes 0) && not (eqb source.size m.size_bytes)) size_mismatch)
          (ok source)))

  module _ (copyfile : B → B) where
    -- An object that is there is checked, one that is not is copied in.
    unfoldable pub place : String → Option B → Source B → Exec (Cache B) RepositoryError (Unit {0})
    place path (some b) source =
        lift (raise_if (not (sha256 b == sha256 source.bytes)) cache_corrupted)
    place path none source = do
      lift (raise_if (not (sha256 (copyfile source.bytes) == sha256 source.bytes)) copy_mismatch)
      modify λ cache. record cache { objects = put path (copyfile source.bytes) cache.objects }

    unfoldable pub ingest :
        Option (Source B) → FirmwarePackageMetadata → Exec (Cache B) RepositoryError String
    ingest file m = do
      source ← lift (check_source file m)
      path ← lift (object_path (sha256 source.bytes))
      cache ← gets (λ cache. cache)
      place path (cache.objects path) source
      modify λ cache. record cache {
        metadata = put (sha256 source.bytes) (normalized m source) cache.metadata;
      }
      pure path

    unfoldable pub fetch_missing :
        (String → Result RepositoryError (Source B))
        → FirmwarePackageMetadata
        → Result RepositoryError String
        → Exec (Cache B) RepositoryError (String × Fetched)
    fetch_missing download m (ok path) = pure (path, cache_hit)
    fetch_missing download m (err e) = do
      file ← lift (download m.source_url)
      path ← ingest (some file) m
      pure (path, downloaded)

    unfoldable pub fetch_if_missing :
        (String → Result RepositoryError (Source B))
        → FirmwarePackageMetadata
        → Exec (Cache B) RepositoryError (String × Fetched)
    fetch_if_missing download m = do
      lift (raise_if (not (starts_with (lower m.source_url) "https://")) not_https)
      cache ← gets (λ cache. cache)
      fetch_missing download m (verify m.sha256 cache)
