-- ===== src/Models/RoundTrip.antt =====
-- `to_dict`, `from_dict` and `start` of RunRecord, against each other.
use cnserver_ops.Prelude.{
  String, ap, sym, inl, inr, Option, none, some, ◌≡◌, refl, ok, Result-cases, ok_injective,
}
use cnserver_ops.Disposition.{FinalDisposition}
use cnserver_ops.Models.{
  RunRecord, RunDict, operation_status, ServerRecord, StartArguments, validate_runner_id, start,
  read_disposition, disposition_text, disposition_value, final_disposition, from_dict, to_dict,
  operation_status-value,
}

read_disposition-text : (d : Option FinalDisposition) → read_disposition (disposition_text d) ≡ ok d
unfolding read_disposition disposition_value final_disposition
read_disposition-text none = refl
read_disposition-text (some FinalDisposition.pass) = refl
read_disposition-text (some _) = refl

-- Reading back the JSON form of a run record gives the record.
pub from_dict-to_dict : (r : RunRecord) → from_dict (to_dict r) ≡ ok r
unfolding from_dict to_dict
from_dict-to_dict r = rw (
  operation_status-value r.collection_status,
  operation_status-value r.export_status,
  operation_status-value r.central_sync_status,
  read_disposition-text r.final_disposition,
)

-- What reading a record leaves as it was.
pub record Kept (d : RunDict) (r : RunRecord) : Type 0 where
  pub run_id : r.run_id ≡ d.run_id
  pub runner_id : r.runner_id ≡ d.runner_id
  pub fingerprint : r.server_fingerprint_sha256 ≡ d.server_fingerprint_sha256
  pub current_stage : r.current_stage ≡ d.current_stage

pub from_dict-Kept : (d : RunDict) (r : RunRecord) → from_dict d ≡ ok r → Kept d r
unfolding from_dict
from_dict-Kept d r h = elim (Result-cases (operation_status d.collection_status)) [
  | inr (x, e) ↦ cc (rw e at h)
  | inl (collection, e) ↦
      let h1 = rw e at h in
      elim (Result-cases (operation_status d.export_status)) [
        | inr (x, e1) ↦ cc (rw e1 at h1)
        | inl (export, e1) ↦
            let h2 = rw e1 at h1 in
            elim (Result-cases (operation_status d.central_sync_status)) [
              | inr (x, e2) ↦ cc (rw e2 at h2)
              | inl (sync, e2) ↦
                  let h3 = rw e2 at h2 in
                  elim (Result-cases (read_disposition d.final_disposition)) [
                    | inr (x, e3) ↦ cc (rw e3 at h3)
                    | inl (disposition, e3) ↦
                        let same = ok_injective (rw e3 at h3) in
                        record {
                          run_id = ap (λ (r : RunRecord). r.run_id) (sym same);
                          runner_id = ap (λ (r : RunRecord). r.runner_id) (sym same);
                          fingerprint =
                              ap (λ (r : RunRecord). r.server_fingerprint_sha256) (sym same);
                          current_stage = ap (λ (r : RunRecord). r.current_stage) (sym same);
                        }
                  ]
            ]
      ]
]

-- A started run stands at IDENTITY and belongs to its server.
pub record Fresh (server : ServerRecord) (new_run_id : String) (r : RunRecord) : Type 0 where
  pub run_id : r.run_id ≡ new_run_id
  pub fingerprint : r.server_fingerprint_sha256 ≡ server.fingerprint_sha256
  pub current_stage : r.current_stage ≡ "IDENTITY"

pub start-Fresh :
    (server : ServerRecord) (a : StartArguments) (new_run_id utc_now : String) (r : RunRecord)
    → start server a new_run_id utc_now ≡ ok r
    → Fresh server new_run_id r
unfolding start
start-Fresh server a new_run_id utc_now r h = elim (Result-cases (validate_runner_id a.runner_id)) [
  | inr (x, e) ↦ cc (rw e at h)
  | inl (runner, e) ↦
      let same = ok_injective (rw e at h) in
      record {
        run_id = ap (λ (r : RunRecord). r.run_id) (sym same);
        fingerprint = ap (λ (r : RunRecord). r.server_fingerprint_sha256) (sym same);
        current_stage = ap (λ (r : RunRecord). r.current_stage) (sym same);
      }
]
