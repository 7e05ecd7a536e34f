-- ===== src/Safety/Tests.antt =====
-- Runs of the gate, and its theorems at a sample approval.
use cnserver_ops.Prelude.{String, Option, none, some, ◌≡◌, ◌↔◌, refl, ok, err}
use cnserver_ops.Text.{upper}
use cnserver_ops.Safety.{
  Instant, aware, naive, gate_closed, expired, naive_expiry, binding_mismatch, bindings, require,
  check_bindings, check_expiry, closed_mutation_gate,
}
use cnserver_ops.Safety.Gate.{IsCovered, require_iff}
use cnserver_ops.Samples.{machine, approval, flash}

abbrev no_clock : String → Option Instant
no_clock s = none

passes : require no_clock approval "FIRMWARE_APPLY" machine flash 5 ≡ ok tt
unfolding require bindings check_bindings check_expiry upper
passes = refl

passes_later : require no_clock approval "FIRMWARE_APPLY" machine flash 6 ≡ ok tt
unfolding require bindings check_bindings check_expiry upper
passes_later = refl

closed_blocks :
    require no_clock closed_mutation_gate "FIRMWARE_APPLY" machine flash 5 ≡ err gate_closed
unfolding require
closed_blocks = refl

other_model :
    require no_clock (record approval { model = "RS700" }) "LOG_CLEAR" machine flash 5
    ≡ err (binding_mismatch "model")
unfolding require bindings check_bindings check_expiry upper
other_model = refl

expired_blocks :
    require
      (λ s. some (aware 3))
      (record approval { expires_at_utc = "T" })
      "LOG_CLEAR"
      machine
      flash
      5
    ≡ err expired
unfolding require bindings check_bindings check_expiry upper
expired_blocks = refl

naive_raises :
    require
      (λ s. some (naive 9))
      (record approval { expires_at_utc = "T" })
      "LOG_CLEAR"
      machine
      flash
      5
    ≡ err naive_expiry
unfolding require bindings check_bindings check_expiry upper
naive_raises = refl

require_iff_example :
    (require no_clock approval "FIRMWARE_APPLY" machine flash 5 ≡ ok tt)
    ↔ IsCovered no_clock approval "FIRMWARE_APPLY" machine flash 5
require_iff_example = require_iff no_clock approval "FIRMWARE_APPLY" machine flash 5
