-- ===== src/Logs/Guarded.antt =====
-- execute_log_cleanup of cnserverops/logs.py: when the log is touched, and what a success means.
use cnserver_ops.Prelude.{
  String, ℕ, Bool, true, false, not, ◌||◌, List, [], ◌∷◌, Option, some, Result, ok, err, ◌≡◌, refl,
  ◌⊎◌, inl, inr, sym, ap, ◌∙◌, arith, eq_iff, All, In, In-of_contains, contains, Result-cases,
  Option-cases, ok_injective, >>=-eq-ok, raise_if, raise_if-ok, not-false, is_empty, ◌==◌,
}
use cnserver_ops.Identity.{Identity}
use cnserver_ops.Safety.{MutationGate, Instant, Blocked}
use cnserver_ops.Safety.Gate.{IsCovered, require_iff}
use cnserver_ops.Logs.{
  Artifact, Manifest, Evidence, Files, Adapter, Completed, Verification, Cleanup, LogCleanupError,
  check_artifact, check_artifacts, guarded, cleaned, cleanup_if, execute_log_cleanup, from_gate,
  sel_operation, evidence_changed, not_attested, not_preserved,
}

-- The file is there with the digest of the manifest, and the diagnostic bundle names that digest.
abbrev pub IsAttested : Files → List String → Artifact → Type 0
IsAttested files attested a =
    ((e : Evidence) × (files a.path ≡ some e) × (e.sha256 ≡ a.sha256)) × In a.sha256 attested

check_artifact-IsAttested :
    (files : Files) (attested : List String) (a : Artifact)
    → check_artifact files attested a ≡ ok tt
    → IsAttested files attested a
unfolding check_artifact
check_artifact-IsAttested files attested a h = elim (Option-cases (files a.path)) [
  | inl missing ↦ cc (rw missing at h)
  | inr (e, found) ↦
      let h1 = rw found at h in
      let (u, same, h2) = >>=-eq-ok (raise_if (not (e.sha256 == a.sha256)) evidence_changed) _ h1 in
      let same_digest = not-false (e.sha256 == a.sha256) (raise_if-ok _ evidence_changed same) in
      let known = not-false (contains a.sha256 attested) (raise_if-ok _ not_attested h2) in
      ((e, found, (eq_iff e.sha256 a.sha256).0 same_digest), In-of_contains a.sha256 attested known)
]

check_artifacts-IsAttested :
    (files : Files) (attested : List String) (all : List Artifact)
    → check_artifacts files attested all ≡ ok tt
    → All (IsAttested files attested) all
unfolding check_artifacts
check_artifacts-IsAttested files attested [] h = tt
check_artifacts-IsAttested files attested (a ∷ rest) h =
    let (u, first, h1) = >>=-eq-ok (check_artifact files attested a) _ h in
    (
      check_artifact-IsAttested files attested a first,
      check_artifacts-IsAttested files attested rest h1,
    )

from_gate-ok : (r : Result Blocked (Unit {0})) → from_gate r ≡ ok tt → r ≡ ok tt
from_gate-ok (ok u) h = refl
from_gate-ok (err e) h = cc

-- The log may be touched: its evidence is saved, unchanged and attested, and the gate covers it.
pub record MayClear (parse : String → Option Instant) (i : Identity) (manifest : Manifest)
    (files : Files) (attested : List String) (gate : MutationGate) (run_id : String) (now : ℕ)
    : Type 0 where
  pub saved : (manifest.phase ≡ "PRE_CLEAN_PRESERVED") × (manifest.verified_saved ≡ true)
  pub some_evidence : is_empty manifest.artifacts ≡ false
  pub attested_all : All (IsAttested files attested) manifest.artifacts
  pub covered : IsCovered parse gate "LOG_CLEAR" i (sel_operation run_id) now

cleanup_if-fields :
    (b : Bool) (cleared : Completed) (v : Verification) {c : Cleanup}
    → cleanup_if b cleared v ≡ c
    → c.status ≡ "SUCCESS"
    → (cleared ≡ c.clear_result) × (v ≡ c.postclean_verification) × (b ≡ true)
cleanup_if-fields true cleared v h s =
    (ap (λ (x : Cleanup). x.clear_result) h, ap (λ (x : Cleanup). x.postclean_verification) h, refl)
cleanup_if-fields false cleared v h s = cc (ap (λ (x : Cleanup). x.status) h)

module _ (parse : String → Option Instant) (i : Identity) (manifest : Manifest) (files : Files)
    (attested : List String) (gate : MutationGate) (run_id : String) (now : ℕ) where
  guarded-MayClear :
      guarded parse i manifest files attested gate run_id now ≡ ok tt
      → MayClear parse i manifest files attested gate run_id now
  unfolding guarded
  guarded-MayClear h =
      let (u, kept, h1) =
        >>=-eq-ok
          (raise_if
            (not (manifest.phase == "PRE_CLEAN_PRESERVED")
              || not manifest.verified_saved
              || is_empty manifest.artifacts)
            not_preserved)
          _ h in
      let (w, all_there, h2) = >>=-eq-ok (check_artifacts files attested manifest.artifacts) _ h1 in
      let shut = raise_if-ok _ not_preserved kept in
      record {
        saved = ground (arith, eq_iff manifest.phase "PRE_CLEAN_PRESERVED");
        some_evidence = ground arith;
        attested_all = check_artifacts-IsAttested files attested manifest.artifacts all_there;
        covered =
            (require_iff parse gate "LOG_CLEAR" i (sel_operation run_id) now).0 (from_gate-ok _ h2);
      }

  module _ {M : Type 0} (adapter : Adapter M) (m : M) where
    -- either nothing was done: the call raises and the machine is as it was; or the evidence was
    -- preserved, each file of it is there unchanged and its digest is attested, and the gate covers the
    -- clear of the log for this run.
    pub execute_log_cleanup-guarded :
        ((e : LogCleanupError) × (execute_log_cleanup parse i manifest files attested adapter gate
              run_id now m
            ≡ (err e, m)))
        ⊎ MayClear parse i manifest files attested gate run_id now
    unfolding execute_log_cleanup
    execute_log_cleanup-guarded =
        elim (Result-cases (guarded parse i manifest files attested gate run_id now)) [
          | inl (u, h) ↦ inr (guarded-MayClear h)
          | inr (e, h) ↦ inl (e, rw h)
        ]

    cleaned-success :
        (c : Cleanup)
        → (cleaned adapter m).0 ≡ ok c
        → c.status ≡ "SUCCESS"
        → (m' : M) × (adapter.clear m ≡ (ok c.clear_result, m'))
          × ((adapter.verify_empty m').0 ≡ ok c.postclean_verification)
          × (c.postclean_verification.empty ≡ true)
    unfolding cleaned
    cleaned-success c h s = elim (Result-cases (adapter.clear m).0) [
      | inr (e, failed) ↦ cc (rw failed at h)
      | inl (cleared, done) ↦
          let h1 = rw done at h in
          elim (Result-cases (adapter.verify_empty (adapter.clear m).1).0) [
            | inr (e, failed) ↦ cc (rw failed at h1)
            | inl (v, verified) ↦
                let is_c = ok_injective (rw verified at h1) in
                let (clear_is, verification_is, empty_is) =
                  cleanup_if-fields v.empty cleared v is_c s in
                (
                  (adapter.clear m).1,
                  ap (λ r. (r, (adapter.clear m).1)) (done ∙ ap ok clear_is),
                  verified ∙ ap ok verification_is,
                  ap (λ (x : Verification). x.empty) (sym verification_is) ∙ empty_is,
                )
          ]
    ]

    -- where a cleanup is reported as SUCCESS, the log was cleared and verified to be empty after that,
    -- in this order, and before it the evidence was preserved, unchanged and attested and the gate
    -- covered the clear.
    pub execute_log_cleanup-success :
        (c : Cleanup)
        → (execute_log_cleanup parse i manifest files attested adapter gate run_id now m).0 ≡ ok c
        → c.status ≡ "SUCCESS"
        → MayClear parse i manifest files attested gate run_id now
          × (m' : M) × (adapter.clear m ≡ (ok c.clear_result, m'))
          × ((adapter.verify_empty m').0 ≡ ok c.postclean_verification)
          × (c.postclean_verification.empty ≡ true)
    unfolding execute_log_cleanup
    execute_log_cleanup-success c h s =
        elim (Result-cases (guarded parse i manifest files attested gate run_id now)) [
          | inl (u, passed) ↦
              let (m', cleared, verified, empty) = cleaned-success c (rw passed at h) s in
              (guarded-MayClear passed, m', cleared, verified, empty)
          | inr (e, refused) ↦ cc (rw refused at h)
        ]
