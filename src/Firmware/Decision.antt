-- ===== src/Firmware/Decision.antt =====
-- When a package is approved for the executor.
use cnserver_ops.Prelude.{
  Bool, true, false, not, List, [], ◌∷◌, is_empty, Option, none, some, ◌==◌, contains, In,
  In-of_contains, Bool-cases, truthy, truthy-ne, map, inl, inr, ◌&&◌, ok, ◌≡◌, ◌≢◌, ◌⊎◌, arith,
  eq_iff, ok_injective, ap, >>=-eq-ok, refl, sym, ◌∙◌,
}
use cnserver_ops.Text.{upper, lower}
use cnserver_ops.Firmware.Metadata.{FirmwarePackageMetadata, validate}
use cnserver_ops.Firmware.Applicability.{
  CatalogEntry, ApplicabilityDecision, approved_for_executor, Host, matches_platform,
  validated_statuses, package_reasons, catalog_reasons, add_if, decide, evaluate_applicability,
  ReasonCode, vendor_mismatch, package_platform_mismatch, package_not_validated,
  catalog_component_mismatch, catalog_package_version_mismatch,
  catalog_did_not_confirm_applicability,
}

-- The package names the model of this server, or its family or board where that is known.
abbrev pub NamesPlatform : FirmwarePackageMetadata → Host → Type 0
NamesPlatform m h =
    In (upper h.identity.model) (map upper m.compatible_models)
    ⊎ (((h.family ≢ "") × In (upper h.family) (map upper m.compatible_families))
        ⊎ ((h.board_name ≢ "") × In (upper h.board_name) (map upper m.compatible_boards)))

matches_platform-NamesPlatform :
    (m : FirmwarePackageMetadata) (h : Host) → matches_platform m h ≡ true → NamesPlatform m h
unfolding matches_platform
matches_platform-NamesPlatform m h e =
    elim (Bool-cases (contains (upper h.identity.model) (map upper m.compatible_models))) [
      | inl model ↦ inl (In-of_contains _ _ model)
      | inr other_model ↦
          let e1 = rw other_model at e in
          elim (Bool-cases
            (truthy h.family && contains (upper h.family) (map upper m.compatible_families))) [
              | inl family ↦
                  inr (inl (truthy-ne h.family (ground arith), In-of_contains _ _ (ground arith)))
              | inr other_family ↦
                  let e2 = rw other_family at e1 in
                  inr (
                    inr (
                      truthy-ne h.board_name (ground (arith, e2)),
                      In-of_contains _ _ (ground (arith, e2)),
                    ))
            ]
    ]

-- What an approval rests on: the package names this server and was checked, and the catalog lists this
-- very version for the component as applicable, and it is not what is installed.
pub record IsJustified (m : FirmwarePackageMetadata) (h : Host) (e : CatalogEntry) : Type 0 where
  pub vendor : upper h.identity.vendor ≡ upper m.vendor
  pub platform : NamesPlatform m h
  pub checked : In m.validation_status validated_statuses
  pub component : upper e.component ≡ upper m.component
  pub version : e.version ≡ m.version
  pub confirmed : upper e.applicability ≡ "APPLICABLE"
  pub outdated : (h.current_version ≡ "") ⊎ (h.current_version ≢ e.version)

add_if-empty :
    (test : Bool) (code : ReasonCode) (reasons : List ReasonCode)
    → is_empty (add_if test code reasons) ≡ true
    → (test ≡ false) × (is_empty reasons ≡ true)
add_if-empty true code [] h = cc
add_if-empty true code (r ∷ rs) h = cc
add_if-empty false code reasons h = ground arith

module _ (m : FirmwarePackageMetadata) (h : Host) (e : CatalogEntry) where
  approved-empty :
      approved_for_executor (decide m h (some e)) ≡ true
      → (is_empty (catalog_reasons m e (package_reasons m h)) ≡ true)
        × ((h.current_version ≡ "") ⊎ (h.current_version ≢ e.version))
  unfolding decide
  approved-empty p = ground (arith, eq_iff h.current_version "", eq_iff h.current_version e.version)

  empty-IsJustified :
      is_empty (catalog_reasons m e (package_reasons m h)) ≡ true
      → (h.current_version ≡ "") ⊎ (h.current_version ≢ e.version)
      → IsJustified m h e
  unfolding catalog_reasons package_reasons
  empty-IsJustified p outdated =
      let vendor_ok = upper h.identity.vendor == upper m.vendor in
      let r1 = add_if (not vendor_ok) vendor_mismatch [] in
      let platform_ok = matches_platform m h in
      let r2 = add_if (not platform_ok) package_platform_mismatch r1 in
      let checked_ok = contains m.validation_status validated_statuses in
      let r3 = add_if (not checked_ok) package_not_validated r2 in
      let component_ok = upper e.component == upper m.component in
      let r4 = add_if (not component_ok) catalog_component_mismatch r3 in
      let version_ok = e.version == m.version in
      let r5 = add_if (not version_ok) catalog_package_version_mismatch r4 in
      let confirmed_ok = upper e.applicability == "APPLICABLE" in
      let (a, p1) = add_if-empty (not confirmed_ok) catalog_did_not_confirm_applicability r5 p in
      let (b, p2) = add_if-empty (not version_ok) catalog_package_version_mismatch r4 p1 in
      let (c, p3) = add_if-empty (not component_ok) catalog_component_mismatch r3 p2 in
      let (d, p4) = add_if-empty (not checked_ok) package_not_validated r2 p3 in
      let (f, p5) = add_if-empty (not platform_ok) package_platform_mismatch r1 p4 in
      let (g, p6) = add_if-empty (not vendor_ok) vendor_mismatch [] p5 in
      record {
        vendor = ground (arith, eq_iff (upper h.identity.vendor) (upper m.vendor));
        platform = matches_platform-NamesPlatform m h (ground arith);
        checked = In-of_contains m.validation_status validated_statuses (ground arith);
        component = ground (arith, eq_iff (upper e.component) (upper m.component));
        version = ground (arith, eq_iff e.version m.version);
        confirmed = ground (arith, eq_iff (upper e.applicability) "APPLICABLE");
        outdated = outdated;
      }

module _ (m : FirmwarePackageMetadata) (h : Host) where
  decide-IsJustified :
      (entry : Option CatalogEntry)
      → approved_for_executor (decide m h entry) ≡ true
      → (e : CatalogEntry) × (entry ≡ some e)
        × IsJustified m h e
        × ((decide m h entry).package_sha256 ≡ lower m.sha256)
        × ((decide m h entry).target_version ≡ e.version)
  unfolding decide
  decide-IsJustified none p = cc
  decide-IsJustified (some e) p =
      let (empty, outdated) = approved-empty m h e p in
      (e, refl, empty-IsJustified m h e empty outdated, refl, refl)

-- The evaluation approves a package for the executor only with a catalog entry for which
-- `IsJustified` holds: the package names this server's vendor and platform and was checked, and the
-- entry lists the package's own version for its component as applicable, other than the installed one.
-- The decision then carries the package's checksum and version.
pub evaluate_applicability-IsJustified :
    (m : FirmwarePackageMetadata) (h : Host) (entry : Option CatalogEntry)
    (d : ApplicabilityDecision)
    → evaluate_applicability m h entry ≡ ok d
    → approved_for_executor d ≡ true
    → (e : CatalogEntry) × (entry ≡ some e)
      × IsJustified m h e
      × (d.package_sha256 ≡ lower m.sha256)
      × (d.target_version ≡ m.version)
unfolding evaluate_applicability
evaluate_applicability-IsJustified m h entry d q p =
    let (u, _, q1) = >>=-eq-ok (validate m) (λ _. ok (decide m h entry)) q in
    let d_is = ok_injective q1 in
    let (e, is_e, justified, sha, target) =
      decide-IsJustified m h entry (ap approved_for_executor d_is ∙ p) in
    (
      e,
      is_e,
      justified,
      sym (ap (λ x. x.package_sha256) d_is) ∙ sha,
      sym (ap (λ x. x.target_version) d_is) ∙ target ∙ justified.version,
    )
