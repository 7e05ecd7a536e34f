-- ===== src/Safety.antt =====
-- cnserverops/safety.py: the mutation gate. `MutationGate.require` raises or returns None.
-- The clock (`datetime.now`) and the parser `datetime.fromisoformat` are parameters: an instant
-- with a time zone can be compared to the clock, one without makes the comparison a TypeError.
pub mod Gate
mod Tests
use cnserver_ops.Prelude.{
  String, Bool, true, false, not, ◌||◌, ◌&&◌, List, [], ◌∷◌, ℕ, leb, Option, none, some, ◌==◌,
  if◌then◌else◌, truthy, or_text, contains, Result, ok, err, ◌>>=◌, ◌>>◌, raise_if,
}
use cnserver_ops.Text.{upper, z_to_offset}
use cnserver_ops.Identity.{Identity}

pub data Blocked : Type 0 where
  gate_closed approval_missing identity_mismatch not_eligible : Blocked
  action_out_of_scope binding_mismatch : String → Blocked
  expiry_invalid expired : Blocked
  naive_expiry : Blocked  -- the TypeError of a comparison between naive and aware instants

pub data Instant : Type 0 where
  naive aware : ℕ → Instant

pub record MutationGate : Type 0 where
  pub authorized : Bool
  pub lab_mode : Bool
  pub approval_id : String
  pub machine_fingerprint_sha256 : String
  pub vendor : String
  pub model : String
  pub system_serial : String
  pub run_id : String
  pub component : String
  pub target_version : String
  pub package_sha256 : String
  pub allowed_actions : List String
  pub expires_at_utc : String

-- The keys of `context` that the gate reads.
pub record Operation : Type 0 where
  pub run_id : String
  pub component : String
  pub target_version : String
  pub package_sha256 : String

abbrev pub Binding : Type 0
Binding = record { label : String; expected : String; observed : String }

unfoldable pub serial_of : Identity → String
serial_of i = or_text i.primary_serial i.system_serial

-- The dict `bindings`, in insertion order.
unfoldable pub bindings : MutationGate → Identity → Operation → List Binding
unfolding serial_of
bindings g i op =
    record { label = "vendor"; expected = g.vendor; observed = i.vendor }
    ∷ record { label = "model"; expected = g.model; observed = i.model }
    ∷ record { label = "system serial"; expected = g.system_serial; observed = serial_of i }
    ∷ record { label = "RUN_ID"; expected = g.run_id; observed = op.run_id }
    ∷ record { label = "component"; expected = g.component; observed = op.component }
    ∷ record { label = "target version"; expected = g.target_version; observed = op.target_version }
    ∷ record { label = "package SHA256"; expected = g.package_sha256; observed = op.package_sha256 }
    ∷ []

unfoldable pub mismatch : Binding → Bool
mismatch b = truthy b.expected && not (upper b.expected == upper b.observed)

unfoldable pub check_bindings : List Binding → Result Blocked (Unit {0})
unfolding mismatch
check_bindings [] = ok tt
check_bindings (b ∷ bs) =
    let rest = check_bindings bs in if mismatch b then err (binding_mismatch b.label) else rest

abbrev compare_expiry : Option Instant → ℕ → Result Blocked (Unit {0})
compare_expiry none now = err expiry_invalid
compare_expiry (some (naive t)) now = err naive_expiry
compare_expiry (some (aware t)) now = raise_if (leb t now) expired

module _ (fromisoformat : String → Option Instant) where
  unfoldable pub check_expiry : String → ℕ → Result Blocked (Unit {0})
  check_expiry expires now =
      if truthy expires then compare_expiry (fromisoformat (z_to_offset expires)) now else ok tt

  unfoldable pub require :
      MutationGate → String → Identity → Operation → ℕ → Result Blocked (Unit {0})
  require g action i op now = do
    raise_if (not g.authorized || not g.lab_mode) gate_closed
    raise_if (not (truthy g.approval_id)) approval_missing
    raise_if (not (contains action g.allowed_actions)) (action_out_of_scope action)
    raise_if
        (not (truthy i.fingerprint_sha256)
          || not (i.fingerprint_sha256 == g.machine_fingerprint_sha256))
        identity_mismatch
    raise_if (not i.mutation_eligible) not_eligible
    check_bindings (bindings g i op)
    check_expiry g.expires_at_utc now

-- `CLOSED_MUTATION_GATE`.
abbrev pub closed_mutation_gate : MutationGate
closed_mutation_gate = record {
  authorized = false;
  lab_mode = false;
  approval_id = "";
  machine_fingerprint_sha256 = "";
  vendor = "";
  model = "";
  system_serial = "";
  run_id = "";
  component = "";
  target_version = "";
  package_sha256 = "";
  allowed_actions = [];
  expires_at_utc = "";
}
