-- ===== src/Secrets/Tests.antt =====
-- Runs of the functions of cnserverops/secrets.py.
use cnserver_ops.Prelude.{true, false, ok, err, ◌≡◌, refl}
use cnserver_ops.Json.{Json, string, object, end, field}
use cnserver_ops.Secrets.{
  is_sensitive, sanitize_evidence, assert_no_sensitive_fields, sensitive_field,
}
use cnserver_ops.Secrets.Redacted.{sanitize-accepted}

password_key : is_sensitive "bmc_Password" ≡ true
unfolding is_sensitive
password_key = refl

tokenizer_key : is_sensitive "tokenizer" ≡ false
unfolding is_sensitive
tokenizer_key = refl

api_key : is_sensitive "x.api-key" ≡ true
unfolding is_sensitive
api_key = refl

abbrev login : Json
login = object (field "host" (string "b1") (field "bmc_password" (string "pw") end))

abbrev host : Json
host = object (field "host" (string "b1") end)

sanitized :
    sanitize_evidence login
    ≡ object (field "host" (string "b1") (field "bmc_password" (string "<REDACTED>") end))
unfolding sanitize_evidence is_sensitive
sanitized = refl

-- The key alone makes the evidence unacceptable, also once its value is redacted.
redacted_rejected :
    assert_no_sensitive_fields (sanitize_evidence login) ≡ err (sensitive_field "bmc_password")
unfolding assert_no_sensitive_fields sanitize_evidence is_sensitive
redacted_rejected = refl

host_accepted : assert_no_sensitive_fields host ≡ ok tt
unfolding assert_no_sensitive_fields is_sensitive
host_accepted = refl

sanitize-accepted_example : sanitize_evidence host ≡ host
sanitize-accepted_example = sanitize-accepted host host_accepted
