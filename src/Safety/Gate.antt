-- ===== src/Safety/Gate.antt =====
-- The condition under which `MutationGate.require` returns.
use cnserver_ops.Prelude.{
  String, true, false, List, [], ◌∷◌, ℕ, ◌<◌, Option, some, ◌≡◌, ◌≢◌, ◌⊎◌, ◌↔◌, refl, arith, eq_iff,
  contains, In, In-of_contains, contains_of-In, All, ok,
}
use cnserver_ops.Text.{upper, z_to_offset}
use cnserver_ops.Identity.{Identity}
use cnserver_ops.Safety.{
  Instant, aware, MutationGate, Operation, Binding, serial_of, bindings, mismatch, check_bindings,
  check_expiry, require,
}

-- A binding is left open, or names what is observed, up to case.
abbrev pub Agrees : Binding → Type 0
Agrees b = (b.expected ≡ "") ⊎ (upper b.expected ≡ upper b.observed)

Agrees-mismatch : (b : Binding) → mismatch b ≡ false → Agrees b
unfolding mismatch
Agrees-mismatch b h =
    ground (arith, eq_iff b.expected "", eq_iff (upper b.expected) (upper b.observed))

mismatch-Agrees : (b : Binding) → Agrees b → mismatch b ≡ false
unfolding mismatch
mismatch-Agrees b h =
    ground (arith, eq_iff b.expected "", eq_iff (upper b.expected) (upper b.observed))

pub check_bindings_sound : (bs : List Binding) → check_bindings bs ≡ ok tt → All Agrees bs
unfolding check_bindings
check_bindings_sound [] h = tt
check_bindings_sound (b ∷ bs) h =
    (Agrees-mismatch b (ground arith), check_bindings_sound bs (ground arith))

pub check_bindings_complete : (bs : List Binding) → All Agrees bs → check_bindings bs ≡ ok tt
unfolding check_bindings
check_bindings_complete [] h = refl
check_bindings_complete (b ∷ bs) h =
    ground (arith, mismatch-Agrees b h.0, check_bindings_complete bs h.1)

-- The approval has no expiry, or one with a time zone that lies after `now`.
abbrev pub IsLive : (String → Option Instant) → String → ℕ → Type 0
IsLive parse expires now =
    (expires ≡ "") ⊎ ((t : ℕ) × (parse (z_to_offset expires) ≡ some (aware t)) × (now < t))

pub record IsCovered (parse : String → Option Instant) (g : MutationGate) (action : String)
    (i : Identity) (op : Operation) (now : ℕ) : Type 0 where
  pub open_gate : (g.authorized ≡ true) × (g.lab_mode ≡ true)
  pub approved : g.approval_id ≢ ""
  pub in_scope : In action g.allowed_actions
  pub same_machine :
      (i.fingerprint_sha256 ≢ "") × (i.fingerprint_sha256 ≡ g.machine_fingerprint_sha256)
  pub eligible : i.mutation_eligible ≡ true
  pub vendor : (g.vendor ≡ "") ⊎ (upper g.vendor ≡ upper i.vendor)
  pub model : (g.model ≡ "") ⊎ (upper g.model ≡ upper i.model)
  pub serial : (g.system_serial ≡ "") ⊎ (upper g.system_serial ≡ upper (serial_of i))
  pub run_id : (g.run_id ≡ "") ⊎ (upper g.run_id ≡ upper op.run_id)
  pub component : (g.component ≡ "") ⊎ (upper g.component ≡ upper op.component)
  pub target_version : (g.target_version ≡ "") ⊎ (upper g.target_version ≡ upper op.target_version)
  pub package_sha256 : (g.package_sha256 ≡ "") ⊎ (upper g.package_sha256 ≡ upper op.package_sha256)
  pub live : IsLive parse g.expires_at_utc now

module _ (parse : String → Option Instant) where
  check_expiry_sound :
      (e : String) (now : ℕ) → check_expiry parse e now ≡ ok tt → IsLive parse e now
  unfolding check_expiry
  check_expiry_sound e now h = ground (arith, eq_iff e "")

  check_expiry_complete :
      (e : String) (now : ℕ) → IsLive parse e now → check_expiry parse e now ≡ ok tt
  unfolding check_expiry
  check_expiry_complete e now h = ground (arith, eq_iff e "")

  module _ (g : MutationGate) (action : String) (i : Identity) (op : Operation) (now : ℕ) where
    -- The guards of `require` in order, each with the call it stands for left shut.
    abbrev Guards : Type 0
    Guards =
        (g.authorized ≡ true)
        × (g.lab_mode ≡ true)
        × (g.approval_id ≢ "")
        × (contains action g.allowed_actions ≡ true)
        × (i.fingerprint_sha256 ≢ "")
        × (i.fingerprint_sha256 ≡ g.machine_fingerprint_sha256)
        × (i.mutation_eligible ≡ true)
        × (check_bindings (bindings g i op) ≡ ok tt)
        × (check_expiry parse g.expires_at_utc now ≡ ok tt)

    require-Guards : require parse g action i op now ≡ ok tt → Guards
    unfolding require
    require-Guards h = ground (
      arith,
      eq_iff g.approval_id "",
      eq_iff i.fingerprint_sha256 "",
      eq_iff i.fingerprint_sha256 g.machine_fingerprint_sha256,
    )

    Guards-require : Guards → require parse g action i op now ≡ ok tt
    unfolding require
    Guards-require h = ground (
      arith,
      eq_iff g.approval_id "",
      eq_iff i.fingerprint_sha256 "",
      eq_iff i.fingerprint_sha256 g.machine_fingerprint_sha256,
    )

    require_sound : require parse g action i op now ≡ ok tt → IsCovered parse g action i op now
    unfolding bindings
    require_sound h =
        let c = require-Guards h in
        let b = check_bindings_sound (bindings g i op) c.7 in
        record {
          open_gate = (c.0, c.1);
          approved = c.2;
          in_scope = In-of_contains action g.allowed_actions c.3;
          same_machine = (c.4, c.5);
          eligible = c.6;
          vendor = b.0;
          model = b.1.0;
          serial = b.1.1.0;
          run_id = b.1.1.1.0;
          component = b.1.1.1.1.0;
          target_version = b.1.1.1.1.1.0;
          package_sha256 = b.1.1.1.1.1.1.0;
          live = check_expiry_sound g.expires_at_utc now c.8;
        }

    require_complete : IsCovered parse g action i op now → require parse g action i op now ≡ ok tt
    unfolding bindings
    require_complete h = Guards-require (
      h.open_gate.0,
      h.open_gate.1,
      h.approved,
      contains_of-In action g.allowed_actions h.in_scope,
      h.same_machine.0,
      h.same_machine.1,
      h.eligible,
      check_bindings_complete (bindings g i op) (
        h.vendor,
        (
          h.model,
          (h.serial, (h.run_id, (h.component, (h.target_version, (h.package_sha256, tt))))),
        ),
      ),
      check_expiry_complete g.expires_at_utc now h.live,
    )

    -- `require` returns, instead of raising, exactly where the approval covers the operation: the gate
    -- is open, the action is in scope, the machine is the approved one and eligible, every binding
    -- that is not left empty names the live operation up to case, and the expiry, where there is one,
    -- has a time zone and lies in the future.
    pub require_iff : (require parse g action i op now ≡ ok tt) ↔ IsCovered parse g action i op now
    require_iff = (require_sound, require_complete)

-- An approval that names a RUN admits operations of that RUN only, up to case; so it is for the
-- component, the version and the package.
pub require_one_operation :
    (parse : String → Option Instant) (g : MutationGate) (action action' : String) (i i' : Identity)
    (op op' : Operation) (now now' : ℕ)
    → require parse g action i op now ≡ ok tt
    → require parse g action' i' op' now' ≡ ok tt
    → g.run_id ≢ ""
    → g.package_sha256 ≢ ""
    → (upper op.run_id ≡ upper op'.run_id)
      × (upper op.package_sha256 ≡ upper op'.package_sha256)
      × (i.fingerprint_sha256 ≡ i'.fingerprint_sha256)
require_one_operation parse g action action' i i' op op' now now' h h' r p =
    let c = require_sound parse g action i op now h in
    let c' = require_sound parse g action' i' op' now' h' in
    ground (
      arith, c.run_id, c'.run_id, c.package_sha256, c'.package_sha256, c.same_machine,
      c'.same_machine,
    )
