-- ===== src/Evidence/Fused.antt =====
-- fuse_field of cnserverops/evidence.py: local evidence against what the BMC adds.
use cnserver_ops.Prelude.{
  String, Bool, true, false, List, [], ◌∷◌, ◌++◌, ◌≡◌, refl, ap, ◌∙◌, arith, All, Bool-cases, inl,
  inr, is_empty,
}
use cnserver_ops.Evidence.{
  FieldObservation, FusedField, Freshness, Confidence, select, is_usable, is_current, is_static,
  is_bmc, combine, fuse_field,
}

select-append :
    (test : FieldObservation → Bool) (os ps : List FieldObservation)
    → select test (os ++ ps) ≡ select test os ++ select test ps
unfolding select
select-append test [] ps = refl
select-append test (o ∷ os) ps =
    let rest = select-append test os ps in
    elim (Bool-cases (test o)) [ inl hit ↦ rw (hit, rest) | inr miss ↦ rw (miss, rest) ]

append-nil : (os : List FieldObservation) → os ++ [] ≡ os
append-nil [] = refl
append-nil (o ∷ os) = rw (append-nil os)

-- What the BMC alone says.
abbrev pub IsBmcOnly : FieldObservation → Type 0
IsBmcOnly o = (o.current_local ≡ false) × (o.bmc_derived ≡ true)

select-bmc :
    (test : FieldObservation → Bool)
    → ((o : FieldObservation) → IsBmcOnly o → test o ≡ false)
    → (ps : List FieldObservation) → All IsBmcOnly ps
    → select test (select is_usable ps) ≡ []
unfolding select
select-bmc test none_of [] h = refl
select-bmc test none_of (p ∷ ps) h =
    let rest = select-bmc test none_of ps h.1 in
    let miss = none_of p h.0 in
    elim (Bool-cases (is_usable p)) [
      | inl hit ↦ rw (hit, miss, rest)
      | inr no_text ↦ rw (no_text, rest)
    ]

select-same :
    (test : FieldObservation → Bool)
    → ((o : FieldObservation) → IsBmcOnly o → test o ≡ false)
    → (os ps : List FieldObservation) → All IsBmcOnly ps
    → select test (select is_usable (os ++ ps)) ≡ select test (select is_usable os)
select-same test none_of os ps h =
    ap (select test) (select-append is_usable os ps)
    ∙ select-append test (select is_usable os) (select is_usable ps)
    ∙ ap (λ rest. select test (select is_usable os) ++ rest) (select-bmc test none_of ps h)
    ∙ append-nil (select test (select is_usable os))

not_current : (o : FieldObservation) → IsBmcOnly o → is_current o ≡ false
not_current o h = h.0

not_static : (o : FieldObservation) → IsBmcOnly o → is_static o ≡ false
not_static o h = ground arith

-- A usable observation of this boot or of a static record.
abbrev pub HasLocal : List FieldObservation → Type 0
HasLocal os =
    is_empty (select is_current (select is_usable os) ++ select is_static (select is_usable os))
    ≡ false

-- What a field says of the machine, without the list of all observations and the flags of the BMC.
pub record Stated : Type 0 where
  pub value : String
  pub source : String
  pub freshness : Freshness
  pub confidence : Confidence
  pub local_conflict : Bool

abbrev pub stated : FusedField → Stated
stated f = record {
  value = f.value;
  source = f.source;
  freshness = f.freshness;
  confidence = f.confidence;
  local_conflict = f.local_conflict;
}

combine-local :
    (us vs current static bmc bmc' : List FieldObservation)
    → is_empty (current ++ static) ≡ false
    → stated (combine us current static bmc) ≡ stated (combine vs current static bmc')
unfolding combine
combine-local us vs [] [] bmc bmc' h = cc
combine-local us vs [] (s ∷ ss) bmc bmc' h = refl
combine-local us vs (c ∷ cs) static bmc bmc' h = refl

-- observations that come from the BMC change nothing of what a field states once there is a usable
-- local observation: its value, source, freshness, confidence and local conflict are as without them.
pub fuse_field-local :
    (os ps : List FieldObservation)
    → HasLocal os
    → All IsBmcOnly ps
    → stated (fuse_field (os ++ ps)) ≡ stated (fuse_field os)
unfolding fuse_field
fuse_field-local os ps local h =
    let current = select-same is_current not_current os ps h in
    let static = select-same is_static not_static os ps h in
    rw (current, static)
      (combine-local (select is_usable (os ++ ps)) (select is_usable os)
        (select is_current (select is_usable os)) (select is_static (select is_usable os))
        (select is_bmc (select is_usable (os ++ ps))) (select is_bmc (select is_usable os)) local)
