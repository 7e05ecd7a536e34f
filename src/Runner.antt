-- ===== src/Runner.antt =====
-- cnserverops/runner.py: the identity of the SSD. The file is the JSON value that it holds; `uuid.UUID`
-- as a text, where it does not raise, the new UUID and the clock are parameters.
pub mod Bound
mod Tests
use cnserver_ops.Prelude.{
  String, Bool, true, false, not, ◌||◌, ◌&&◌, List, [], ◌∷◌, Option, none, some, ◌==◌, truthy,
  Result, ok, err, ◌>>=◌, ◌>>◌, raise_if, if◌then◌else◌, eqb,
}
use cnserver_ops.Text.{lower, all_chars, count_chars, is_lower_hex_code}
use cnserver_ops.Json.{
  Json, Python, string, number, is_truthy, str, str_or, get, set, is_mapping, object, field, end,
}
use cnserver_ops.Models.{ModelError, validate_runner_id}

pub data RunnerIdentityError : Type 0 where
  other_runner storage_mismatch bad_storage bad_uuid not_an_object no_version foreign_update :
      RunnerIdentityError
  bad_runner_id : ModelError → RunnerIdentityError

abbrev pub valid_id : String → Result RunnerIdentityError String
valid_id s = checked (validate_runner_id s)
  where
    checked : Result ModelError String → Result RunnerIdentityError String
    checked (ok r) = ok r
    checked (err e) = err (bad_runner_id e)

-- 64 hexadecimal digits, in lower case.
unfoldable pub is_sha256 : String → Bool
unfolding all_chars count_chars
is_sha256 s = eqb (count_chars s) 64 && all_chars is_lower_hex_code s

-- The keys of a runner that the functions read.
pub record Runner : Type 0 where
  pub runner_id : String
  pub local_runner_uuid : String
  pub storage_fingerprint_sha256 : String
  pub runtime_version : String
  pub updated_at_utc : String

module _ (py : Python) (uuid : String → Option String) where
  unfoldable pub parsed_uuid : String → Result RunnerIdentityError String
  parsed_uuid value = found (uuid value)
    where
      found : Option String → Result RunnerIdentityError String
      found none = err bad_uuid
      found (some u) = ok u

  unfoldable pub load_runner : Json → Result RunnerIdentityError Runner
  unfolding validate_runner_id str_or get is_sha256 lower parsed_uuid
  load_runner payload = do
    raise_if (not (is_mapping payload)) not_an_object
    runner_id ← valid_id (str_or py (get "runner_id" payload) "")
    raise_if (not (is_truthy (get "runtime_version" payload))) no_version
    local_uuid ← local (get "local_runner_uuid" payload)
    let storage = lower (str_or py (get "storage_fingerprint_sha256" payload) "")
    raise_if (truthy storage && not (is_sha256 storage)) bad_storage
    ok (record {
      runner_id = runner_id;
      local_runner_uuid = local_uuid;
      storage_fingerprint_sha256 = storage;
      runtime_version = str_or py (get "runtime_version" payload) "";
      updated_at_utc = str_or py (get "updated_at_utc" payload) "";
    })
    where
      local : Json → Result RunnerIdentityError String
      local value = if is_truthy value then parsed_uuid (str_or py value "") else ok ""

  -- The dict that `load_runner` returns: the one of the file, with what it normalizes.
  unfoldable pub loaded_json : Runner → Json → Json
  unfolding set get
  loaded_json r file =
      set "storage_fingerprint_sha256" (string r.storage_fingerprint_sha256)
        (with_uuid (set "runner_id" (string r.runner_id) file))
    where
      with_uuid : Json → Json
      with_uuid j =
          if is_truthy (get "local_runner_uuid" j)
          then set "local_runner_uuid" (string r.local_runner_uuid) j
          else j

  -- The file of a new runner.
  unfoldable pub runner_json : Runner → String → Json
  runner_json r now = object (
      field "schema_version" (number "1") (
        field "runner_id" (string r.runner_id) (
          field "local_runner_uuid" (string r.local_runner_uuid) (
            field "storage_fingerprint_sha256" (string r.storage_fingerprint_sha256) (
              field "created_at_utc" (string now)
                (field "runtime_version" (string r.runtime_version) end))))))

  -- The checks of a file that is there.
  unfoldable pub existing_runner : String → String → Runner → Result RunnerIdentityError Runner
  existing_runner normalized storage existing = do
    raise_if (not (existing.runner_id == normalized)) other_runner
    raise_if
        (truthy storage
          && truthy existing.storage_fingerprint_sha256
          && not (existing.storage_fingerprint_sha256 == storage))
        storage_mismatch
    ok existing

  abbrev new_runner : String → String → String → String → Runner
  new_runner runner_id u storage version = record {
    runner_id = runner_id;
    local_runner_uuid = u;
    storage_fingerprint_sha256 = storage;
    runtime_version = version;
    updated_at_utc = "";
  }

  -- The runner that is returned, and the file after the call.
  unfoldable pub bootstrap_runner :
      String
      → String
      → String
      → String
      → String
      → String
      → Option Json
      → Result RunnerIdentityError (Runner × Json)
  unfolding load_runner runner_json existing_runner is_sha256 lower validate_runner_id
  bootstrap_runner runner_id runtime_version local_uuid storage uuid4 now file = do
    normalized ← valid_id runner_id
    by_file normalized file
    where
      local : Result RunnerIdentityError String
      local = if truthy local_uuid then parsed_uuid local_uuid else ok uuid4

      created : String → Result RunnerIdentityError (Runner × Json)
      created normalized = do
        raise_if (truthy storage && not (is_sha256 (lower storage))) bad_storage
        u ← local
        let new = new_runner normalized u (lower storage) runtime_version
        ok (new, runner_json new now)

      by_file : String → Option Json → Result RunnerIdentityError (Runner × Json)
      by_file normalized none = created normalized
      by_file normalized (some payload) = do
        loaded ← load_runner payload
        existing ← existing_runner normalized storage loaded
        ok (existing, payload)

  unfoldable pub update_runtime_version :
      String → String → String → Json → Result RunnerIdentityError (Runner × Json)
  unfolding load_runner loaded_json set validate_runner_id
  update_runtime_version now runner_id runtime_version file = do
    loaded ← load_runner file
    normalized ← valid_id runner_id
    raise_if (not (loaded.runner_id == normalized)) foreign_update
    ok (
      record loaded { runtime_version = runtime_version; updated_at_utc = now },
      set "updated_at_utc" (string now)
          (set "runtime_version" (string runtime_version) (loaded_json loaded file)),
    )
