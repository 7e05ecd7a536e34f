-- ===== src/Derivation/Independent.antt =====
-- derive_machine_identity of cnserverops/identity.py against what the BMC says.
use cnserver_ops.Identity.{Identity}
