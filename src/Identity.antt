-- ===== src/Identity.antt =====
-- cnserverops/identity.py: the machine identity that `derive_machine_identity` returns, as the
-- workflow reads it. A key that is missing or null reads as the empty text.
use cnserver_ops.Prelude.{String, Bool, List}

pub record Identity : Type 0 where
  pub server_id : String
  pub boot_id : String
  pub vendor : String
  pub platform_id : String
  pub model : String
  pub dmi_uuid : String
  pub primary_serial : String
  pub system_serial : String
  pub confidence : String
  pub anchors : List (String × String)
  pub fingerprint_sha256 : String
  pub resumable : Bool
  pub mutation_eligible : Bool
  pub resume_block_reason : String
