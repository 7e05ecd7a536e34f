-- ===== src/Firmware/Stored.antt =====
-- The object that `ingest` and `fetch_if_missing` leave in the repository.
use cnserver_ops.Prelude.{
  starts_with, raise_if-ok, not-false, String, true, not, Option, none, some, ◌==◌, ◌≡◌, refl, ap,
  ◌∙◌, eq_refl, eq_iff, Result, ok, err, raise_if, Result-cases, Bool-cases, inl, inr, ◌&&◌, eqb,
  ok_injective, >>=-eq-ok,
}
use cnserver_ops.Text.{lower}
use cnserver_ops.Firmware.Metadata.{
  FirmwarePackageMetadata, RepositoryError, validate, is_sha256, checksum_mismatch, size_mismatch,
  cache_corrupted, not_a_regular_file, not_https,
}
use cnserver_ops.Firmware.Repository.{
  Cache, Source, has_digest, verify, check_source, object_path, place, ingest, Fetched,
  fetch_missing, fetch_if_missing,
}

module _ {B : Type 0} (sha256 : B → String) (copyfile : B → B) where
  place-holds :
      (path : String) (o : Option B) (source : Source B) (c : Cache B) {u : Unit {0}}
      → c.objects path ≡ o
      → (place sha256 copyfile path o source c).0 ≡ ok u
      → has_digest sha256
          (sha256 source.bytes)
          ((place sha256 copyfile path o source c).1.objects path)
        ≡ true
  unfolding place
  place-holds path none source c e h =
      elim (Bool-cases (sha256 (copyfile source.bytes) == sha256 source.bytes)) [
        | inl same ↦ simp (same, eq_refl path)
        | inr other ↦ cc (rw other at h)
      ]
  place-holds path (some b) source c e h =
      rw e (not-false _ (raise_if-ok (not (sha256 b == sha256 source.bytes)) cache_corrupted h))

  check_source-digest :
      (file : Option (Source B)) (m : FirmwarePackageMetadata) (source : Source B)
      → check_source sha256 file m ≡ ok source
      → sha256 source.bytes ≡ lower m.sha256
  unfolding check_source
  check_source-digest none m source h =
      let (u, h1, h2) = >>=-eq-ok (validate m) (λ _. err not_a_regular_file) h in cc
  check_source-digest (some file) m source h =
      let (u1, _, h1) = >>=-eq-ok (validate m) _ h in
      let test = not (sha256 file.bytes == lower m.sha256) in
      let (u2, t, h2) = >>=-eq-ok (raise_if test checksum_mismatch) _ h1 in
      let size_test = not (eqb m.size_bytes 0) && not (eqb file.size m.size_bytes) in
      let (u3, _, h3) = >>=-eq-ok (raise_if size_test size_mismatch) _ h2 in
      rw (← ok_injective h3) (
        (eq_iff (sha256 file.bytes) (lower m.sha256)).0
          (not-false _ (raise_if-ok test checksum_mismatch t)))

  object_path-ok :
      (digest path : String)
      → object_path digest ≡ ok path
      → (is_sha256 (lower digest) ≡ true) × (lower digest ≡ path)
  unfolding object_path
  object_path-ok digest path h = elim (Bool-cases (is_sha256 (lower digest))) [
    | inl valid ↦ (valid, ok_injective (rw valid at h))
    | inr bad ↦ cc (rw bad at h)
  ]

  found_again :
      (digest named path : String)
      → lower digest ≡ digest
      → digest ≡ lower named
      → object_path digest ≡ ok path
      → object_path named ≡ ok path
  unfolding object_path
  found_again digest named path same e h = rw (← e, ← same) h

  -- Where checksums are lower-case, as hexdigest writes them, an object that `ingest` returned is
  -- found by `verify` under the checksum of its metadata.
  ingest-verify :
      ((b : B) → lower (sha256 b) ≡ sha256 b)
      → (file : Option (Source B)) (m : FirmwarePackageMetadata) (c : Cache B) (path : String)
      → (ingest sha256 copyfile file m c).0 ≡ ok path
      → verify sha256 m.sha256 (ingest sha256 copyfile file m c).1 ≡ ok path
  unfolding ingest verify
  ingest-verify hex file m c path h = elim (Result-cases (check_source sha256 file m)) [
    | inr (x, e) ↦ cc (rw e at h)
    | inl (source, e) ↦
        let h1 = rw e at h in
        let digest = check_source-digest file m source e in
        elim (Result-cases (object_path (sha256 source.bytes))) [
          | inr (x, e2) ↦ cc (rw e2 at h1)
          | inl (p, e2) ↦
              let h2 = rw e2 at h1 in
              elim (Result-cases (place sha256 copyfile p (c.objects p) source c).0) [
                | inr (x, e3) ↦ cc (rw e3 at h2)
                | inl (u, e3) ↦
                    let h3 = rw e3 at h2 in
                    let holds = rw digest at (place-holds p (c.objects p) source c refl e3) in
                    let found =
                      found_again (sha256 source.bytes) m.sha256 p (hex source.bytes) digest e2 in
                    rw (e, e2, e3, found, holds) h3
              ]
        ]
  ]

  -- Where checksums are lower-case, as hexdigest writes them, the path that `fetch_if_missing` returns,
  -- from the cache or after a download, is the one that `verify` gives in the repository that it leaves,
  -- for the checksum of the metadata, whatever the downloader sent and the copy wrote.
  pub fetch_if_missing-verify :
      ((b : B) → lower (sha256 b) ≡ sha256 b)
      → (download : String → Result RepositoryError (Source B)) (m : FirmwarePackageMetadata)
        (c : Cache B) (path : String) (how : Fetched)
      → (fetch_if_missing sha256 copyfile download m c).0 ≡ ok (path, how)
      → verify sha256 m.sha256 (fetch_if_missing sha256 copyfile download m c).1 ≡ ok path
  unfolding fetch_if_missing fetch_missing
  fetch_if_missing-verify hex download m c path how h =
      let https : Result RepositoryError (Unit {0}) =
        raise_if (not (starts_with (lower m.source_url) "https://")) not_https in
      elim (Result-cases https) [
        | inr (x, e) ↦ cc (rw e at h)
        | inl (u, e) ↦
            let h1 = rw e at h in
            elim (Result-cases (verify sha256 m.sha256 c)) [
              | inl (p, e1) ↦
                  let h2 = rw e1 at h1 in
                  rw (e, e1) (e1 ∙ ap (λ (z : String × Fetched). ok z.0) (ok_injective h2))
              | inr (x, e1) ↦
                  let h2 = rw e1 at h1 in
                  elim (Result-cases (download m.source_url)) [
                    | inr (y, e2) ↦ cc (rw e2 at h2)
                    | inl (file, e2) ↦
                        let h3 = rw e2 at h2 in
                        elim (Result-cases (ingest sha256 copyfile (some file) m c).0) [
                          | inr (y, e3) ↦ cc (rw e3 at h3)
                          | inl (p, e3) ↦
                              let h4 = rw e3 at h3 in
                              let same = ok_injective h4 in
                              rw (e, e1, e2, e3)
                                (ingest-verify hex (some file) m c p e3
                                  ∙ ap (λ (z : String × Fetched). ok z.0) same)
                        ]
                  ]
            ]
      ]
