-- ===== src/Runner/Bound.antt =====
-- What the functions of cnserverops/runner.py keep of an SSD that has an identity.
use cnserver_ops.Prelude.{
  String, not, ◌&&◌, Option, some, ◌==◌, truthy, ok, ◌≡◌, ◌⊎◌, inl, inr, sym, ap, ◌∙◌, arith,
  eq_iff, raise_if, raise_if-ok, >>=-eq-ok, ok_injective, not-false, Result-cases,
}
use cnserver_ops.Json.{Json, Python}
use cnserver_ops.Models.{validate_runner_id}
use cnserver_ops.Runner.{
  Runner, load_runner, existing_runner, bootstrap_runner, other_runner, storage_mismatch, valid_id,
}

valid_id-ok : (s : String) {n : String} → valid_id s ≡ ok n → validate_runner_id s ≡ ok n
valid_id-ok s h = elim (Result-cases (validate_runner_id s)) [
  | inl (n, e) ↦ e ∙ ap ok (ok_injective (rw e at h))
  | inr (x, e) ↦ cc (rw e at h)
]

module _ (py : Python) (uuid : String → Option String) where
  existing-same :
      (normalized storage : String) (existing : Runner) {r : Runner}
      → existing_runner py uuid normalized storage existing ≡ ok r
      → (r ≡ existing)
        × (existing.runner_id ≡ normalized)
        × ((storage ≡ "")
            ⊎ (existing.storage_fingerprint_sha256 ≡ "")
            ⊎ (existing.storage_fingerprint_sha256 ≡ storage))
  unfolding existing_runner
  existing-same normalized storage existing h =
      let (u, one, h1) =
        >>=-eq-ok (raise_if (not (existing.runner_id == normalized)) other_runner) _ h in
      let (v, two, h2) =
        >>=-eq-ok
          (raise_if
            (truthy storage
              && truthy existing.storage_fingerprint_sha256
              && not (existing.storage_fingerprint_sha256 == storage))
            storage_mismatch)
          _ h1 in
      let same_id = not-false (existing.runner_id == normalized) (raise_if-ok _ other_runner one) in
      let same_storage = raise_if-ok _ storage_mismatch two in
      (
        sym (ok_injective h2),
        (eq_iff existing.runner_id normalized).0 same_id,
        ground (
          arith,
          eq_iff storage "",
          eq_iff existing.storage_fingerprint_sha256 "",
          eq_iff existing.storage_fingerprint_sha256 storage,
        ),
      )

  -- where a runner file is there, bootstrap_runner returns what load_runner reads from it or raises,
  -- and never writes: what it returns has the normalized RUNNER_ID that was asked for, and the storage
  -- fingerprint that was asked for, as far as both are known.
  pub bootstrap_runner-existing :
      (runner_id version local_uuid storage uuid4 now : String) (file file' : Json) (r : Runner)
      → bootstrap_runner py uuid runner_id version local_uuid storage uuid4 now (some file)
        ≡ ok (r, file')
      → (file' ≡ file)
        × (load_runner py uuid file ≡ ok r)
        × (validate_runner_id runner_id ≡ ok r.runner_id)
        × ((storage ≡ "")
            ⊎ (r.storage_fingerprint_sha256 ≡ "")
            ⊎ (r.storage_fingerprint_sha256 ≡ storage))
  unfolding bootstrap_runner
  bootstrap_runner-existing runner_id version local_uuid storage uuid4 now file file' r h =
      let (normalized, valid, h1) = >>=-eq-ok (valid_id runner_id) _ h in
      let (loaded, read, h2) = >>=-eq-ok (load_runner py uuid file) _ h1 in
      let (existing, checked, h3) =
        >>=-eq-ok (existing_runner py uuid normalized storage loaded) _ h2 in
      let (same, same_id, same_storage) = existing-same normalized storage loaded checked in
      let is_r : loaded ≡ r = sym same ∙ ap (λ p. p.0) (ok_injective h3) in
      (
        sym (ap (λ p. p.1) (ok_injective h3)),
        rw (← is_r) read,
        valid_id-ok runner_id valid ∙ ap ok (sym same_id ∙ ap (λ (x : Runner). x.runner_id) is_r),
        rw (← is_r) same_storage,
      )
