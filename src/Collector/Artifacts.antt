-- ===== src/Collector/Artifacts.antt =====
-- The artifacts and the run context of the central collector (cnserverops/collector.py).
use cnserver_ops.Prelude.{
  String, Bool, true, false, not, ◌&&◌, Option, none, some, ◌==◌, Result, ok, err, ◌>>=◌, ◌>>◌,
  raise_if, if◌then◌else◌, or_text,
}
use cnserver_ops.Text.{lower}
use cnserver_ops.Json.{Json, Python, object, end, str_or, get, is_mapping, json_or, patched, Fields}
use cnserver_ops.Secrets.{assert_no_sensitive_fields}
use cnserver_ops.Collector.{
  Artifact, Tables, CollectorError, sensitive, not_started, bad_digest, no_artifact, bad_mapping,
  bad_number, checked, is_sha256,
}

abbrev put_artifact :
    String
    → String
    → String
    → Artifact
    → (String → String → String → Option Artifact)
    → String
    → String
    → String
    → Option Artifact
put_artifact run_id digest kind a f i d k =
    if run_id == i && digest == d && kind == k then some a else f i d k

abbrev is_there {ℓ} : {A : Type ℓ} → Option A → Bool
is_there none = false
is_there (some a) = true

pub record Context : Type 0 where
  pub run_id : String
  pub server_id : String
  pub system_serial : String
  pub vendor : String
  pub model : String
  pub workflow_mode : String
  pub started_at_utc : String

module _ (py : Python) where
  some_or : {A : Type 0} → CollectorError → Option A → Result CollectorError A
  some_or e none = err e
  some_or e (some a) = ok a

  new_artifact : Json → Result CollectorError Artifact
  unfolding str_or get json_or some_or
  new_artifact artifact =
      let metadata = json_or (get "metadata" artifact) (object end) in
      do
        size_bytes ←
            some_or bad_number (py.int (json_or (get "size_bytes" artifact) (Json.number "0")))
        raise_if (not (is_mapping metadata)) bad_mapping
        ok (record {
          uri = str_or py (get "uri" artifact) "";
          size_bytes = size_bytes;
          metadata_json = py.dumps metadata;
        })

  unfoldable pub register_artifact :
      String → Json → Tables → Result CollectorError (String × Tables)
  unfolding assert_no_sensitive_fields str_or get lower is_sha256 new_artifact
  register_artifact run_id artifact t =
      let digest = lower (str_or py (get "sha256" artifact) "") in
      let kind = str_or py (get "type" artifact) "UNKNOWN" in
      checked sensitive (assert_no_sensitive_fields artifact)
      >> raise_if (not (is_sha256 digest)) bad_digest
      >> raise_if (not (is_there (t.runs run_id))) not_started
      >> (if is_there (t.artifacts run_id digest kind)
          then ok ("DUPLICATE_ACCEPTED", t)
          else (new_artifact artifact >>= λ a. ok (
            "REGISTERED",
            record t { artifacts = put_artifact run_id digest kind a t.artifacts },
          )))

  -- What is stored as metadata, where it is a JSON object, and an empty one otherwise.
  abbrev stored_metadata : Option Json → Json
  stored_metadata none = object end
  stored_metadata (some j) = if is_mapping j then j else object end

  unfoldable pub update_artifact_delivery_metadata :
      String → String → String → Fields → Tables → Result CollectorError Tables
  unfolding lower some_or patched assert_no_sensitive_fields
  update_artifact_delivery_metadata run_id artifact_sha256 artifact_type patch t =
      let digest = lower artifact_sha256 in
      let kind = or_text artifact_type "UNKNOWN" in
      do
        row ← some_or no_artifact (t.artifacts run_id digest kind)
        let metadata = patched (stored_metadata (py.loads (or_text row.metadata_json "{}"))) patch
        checked sensitive (assert_no_sensitive_fields metadata)
        ok (record t {
          artifacts =
              put_artifact run_id digest kind (record row { metadata_json = py.dumps metadata })
                t.artifacts;
        })

  -- The join of a run with its server.
  unfoldable pub artifact_context : String → Tables → Result CollectorError Context
  unfolding some_or
  artifact_context run_id t = do
    run ← some_or not_started (t.runs run_id)
    server ← some_or not_started (t.servers run.server_fingerprint_sha256)
    ok (record {
      run_id = run_id;
      server_id = server.server_id;
      system_serial = server.system_serial;
      vendor = server.vendor;
      model = server.model;
      workflow_mode = or_text run.workflow_mode "PRODUCTION";
      started_at_utc = run.started_at_utc;
    })
