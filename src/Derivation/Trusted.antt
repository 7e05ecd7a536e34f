-- ===== src/Derivation/Trusted.antt =====
-- What a resumable identity of cnserverops/identity.py rests on.
use cnserver_ops.Prelude.{
  String, Bool, true, false, not, ◌&&◌, List, [], ◌∷◌, ◌++◌, ◌≡◌, ◌≢◌, ◌⊎◌, inl, inr, refl, arith,
  eq_iff, is_empty, truthy, if◌then◌else◌, Bool-cases, ◌==◌,
}
use cnserver_ops.Text.{upper}
use cnserver_ops.Identity.{Identity}
use cnserver_ops.Derivation.{
  Dmi, Fru, Bmc, Platform, serial, differ, management_module, conflicts, basis_of, vendor_of,
  discovery, fingerprint_of, derive_machine_identity, model_field, system_serial_field, clean,
}

-- Two sources of a serial agree, as far as both have one.
abbrev pub Agree : String → String → Type 0
Agree a b = (a ≡ "") ⊎ (b ≡ "") ⊎ (upper a ≡ upper b)

differ-Agree : (a b : String) → differ a b ≡ false → Agree a b
differ-Agree a b h = ground (arith, eq_iff a "", eq_iff b "", eq_iff (upper a) (upper b))

none_of :
    (a b c : Bool) (x y z : String)
    → is_empty
        ((if a then x ∷ [] else []) ++ (if b then y ∷ [] else []) ++ (if c then z ∷ [] else []))
      ≡ true
    → (a ≡ false) × (b ≡ false) × (c ≡ false)
none_of false false false x y z h = (refl, refl, refl)
none_of true b c x y z h = cc
none_of false true c x y z h = cc
none_of false false true x y z h = cc

-- What makes an identity one that a run may be resumed on.
pub record IsTrusted (sha256 : String → String) (p : Platform) (dmi : Dmi) (fru : Fru)
    (i : Identity) : Type 0 where
  pub supported : discovery p ≡ true
  pub known_vendor : vendor_of p ≢ "UNKNOWN"
  pub system_agrees : Agree (serial dmi.system_serial) (serial fru.product_serial)
  pub chassis_agrees : Agree (serial dmi.chassis_serial) (serial fru.chassis_serial)
  pub board_agrees :
      (management_module dmi fru ≡ true) ⊎ Agree (serial dmi.board_serial) (serial fru.board_serial)
  pub anchored :
      (serial dmi.system_serial ≢ "")
      ⊎ (serial fru.product_serial ≢ "")
      ⊎ ((serial dmi.chassis_serial ≢ "") × (serial dmi.board_serial ≢ ""))
  pub has_fingerprint : i.fingerprint_sha256 ≢ ""

fingerprint-parts :
    (sha256 : String → String) (p : Platform) (basis : List (String × String)) (cs : List String)
    → truthy (fingerprint_of sha256 p basis cs) ≡ true
    → (is_empty basis ≡ false) × (is_empty cs ≡ true) × (vendor_of p ≢ "UNKNOWN")
unfolding fingerprint_of
fingerprint-parts sha256 p basis cs h =
    elim (Bool-cases (not (is_empty basis) && is_empty cs && not (vendor_of p == "UNKNOWN"))) [
      | inl all_three ↦
          (ground arith, ground arith, λ e. ground (arith, eq_iff (vendor_of p) "UNKNOWN"))
      | inr missing ↦ cc (rw missing at h)
    ]

basis-anchored :
    (dmi : Dmi) (fru : Fru) (vendor model primary : String)
    → is_empty (basis_of dmi fru vendor model primary) ≡ false
    → (serial dmi.system_serial ≢ "")
      ⊎ (serial fru.product_serial ≢ "")
      ⊎ ((serial dmi.chassis_serial ≢ "") × (serial dmi.board_serial ≢ ""))
unfolding basis_of
basis-anchored dmi fru vendor model primary h = ground (
  arith,
  eq_iff (serial dmi.system_serial) "",
  eq_iff (serial fru.product_serial) "",
  eq_iff (serial dmi.chassis_serial) "",
  eq_iff (serial dmi.board_serial) "",
)

-- an identity that is resumable rests on a platform that is supported and a vendor that is known, on
-- sources of the system, chassis and board serial that agree as far as there are several, the board
-- aside where its FRU is of a management module, and on a system serial of DMI or of the local FRU or
-- on a chassis and a board serial of DMI; and it has a fingerprint.
pub derive_machine_identity-IsTrusted :
    (sha256 : String → String) (p : Platform) (dmi : Dmi) (fru : Fru) (bmc : Bmc) (boot_id : String)
    → (derive_machine_identity sha256 p dmi fru bmc boot_id).resumable ≡ true
    → IsTrusted sha256 p dmi fru (derive_machine_identity sha256 p dmi fru bmc boot_id)
unfolding derive_machine_identity conflicts
derive_machine_identity-IsTrusted sha256 p dmi fru bmc boot_id h =
    let model = clean (model_field dmi fru bmc).value in
    let primary = (system_serial_field dmi fru bmc).value in
    let basis = basis_of dmi fru (vendor_of p) model primary in
    let print = fingerprint_of sha256 p basis (conflicts dmi fru) in
    let established : truthy print ≡ true = ground arith in
    let (some_basis, agreed, vendor) =
      fingerprint-parts sha256 p basis (conflicts dmi fru) established in
    let (system, chassis, board) = none_of _ _ _ _ _ _ agreed in
    record {
      supported = ground arith;
      known_vendor = vendor;
      system_agrees = differ-Agree _ _ system;
      chassis_agrees = differ-Agree _ _ chassis;
      board_agrees = elim (Bool-cases (management_module dmi fru)) [
        | inl is_module ↦ inl is_module
        | inr no_module ↦ inr (differ-Agree _ _ (rw no_module at board))
      ];
      anchored = basis-anchored dmi fru (vendor_of p) model primary some_basis;
      has_fingerprint = ground (arith, eq_iff print "");
    }
