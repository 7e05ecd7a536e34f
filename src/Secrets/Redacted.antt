-- ===== src/Secrets/Redacted.antt =====
-- sanitize_evidence against assert_no_sensitive_fields, of cnserverops/secrets.py.
use cnserver_ops.Prelude.{
  Bool, true, false, ok, ◌≡◌, refl, ap, raise_if-ok, >>=-eq-ok, raise_if, ◌>>◌, if◌then◌else◌,
}
use cnserver_ops.Json.{
  Json, null, boolean, number, string, array, object, Items, nil, item, Fields, end, field,
}
use cnserver_ops.Secrets.{
  is_sensitive, sanitize_evidence, sanitize_items, sanitize_fields, sensitive_field,
  assert_no_sensitive_fields, assert_items, assert_fields,
}

-- What a value that was written may show: under a sensitive name nothing but the mark, at any depth.
unfoldable mutual
  pub IsRedacted : Json → Type 0
  IsRedacted null = Unit
  IsRedacted (boolean b) = Unit
  IsRedacted (number n) = Unit
  IsRedacted (string s) = Unit
  IsRedacted (array js) = IsRedactedItems js
  IsRedacted (object fs) = IsRedactedFields fs

  pub IsRedactedItems : Items → Type 0
  IsRedactedItems nil = Unit
  IsRedactedItems (item j js) = IsRedacted j × IsRedactedItems js

  pub IsRedactedFields : Fields → Type 0
  IsRedactedFields end = Unit
  IsRedactedFields (field k j fs) =
      (is_sensitive k ≡ true → j ≡ string "<REDACTED>") × IsRedacted j × IsRedactedFields fs

marked :
    (b : Bool) (j : Json) → b ≡ true → (if b then string "<REDACTED>" else j) ≡ string "<REDACTED>"
marked true j h = refl
marked false j h = cc

either-IsRedacted :
    (b : Bool) (j : Json) → IsRedacted j → IsRedacted (if b then string "<REDACTED>" else j)
unfolding IsRedacted
either-IsRedacted true j h = tt
either-IsRedacted false j h = h

mutual
  unfolding IsRedacted sanitize_evidence

  clean : (j : Json) → IsRedacted (sanitize_evidence j)
  clean null = tt
  clean (boolean b) = tt
  clean (number n) = tt
  clean (string s) = tt
  clean (array js) = clean_items js
  clean (object fs) = clean_fields fs

  clean_items : (js : Items) → IsRedactedItems (sanitize_items js)
  clean_items nil = tt
  clean_items (item j js) = (clean j, clean_items js)

  clean_fields : (fs : Fields) → IsRedactedFields (sanitize_fields fs)
  clean_fields end = tt
  clean_fields (field k j fs) = (
    marked (is_sensitive k) (sanitize_evidence j),
    either-IsRedacted (is_sensitive k) (sanitize_evidence j) (clean j),
    clean_fields fs,
  )

-- in sanitized evidence the value under each key that the pattern finds is the mark, at every depth.
pub sanitize_evidence-IsRedacted : (j : Json) → IsRedacted (sanitize_evidence j)
sanitize_evidence-IsRedacted j = clean j

mutual
  unfolding sanitize_evidence assert_no_sensitive_fields

  same : (j : Json) → assert_no_sensitive_fields j ≡ ok tt → sanitize_evidence j ≡ j
  same null h = refl
  same (boolean b) h = refl
  same (number n) h = refl
  same (string s) h = refl
  same (array js) h = ap array (same_items js h)
  same (object fs) h = ap object (same_fields fs h)

  same_items : (js : Items) → assert_items js ≡ ok tt → sanitize_items js ≡ js
  same_items nil h = refl
  same_items (item j js) h =
      let (a, first, rest) = >>=-eq-ok (assert_no_sensitive_fields j) _ h in
      let e = same j first in let es = same_items js rest in cc

  same_fields : (fs : Fields) → assert_fields fs ≡ ok tt → sanitize_fields fs ≡ fs
  same_fields end h = refl
  same_fields (field k j fs) h =
      let (a, both, rest) =
        >>=-eq-ok (raise_if (is_sensitive k) (sensitive_field k) >> assert_no_sensitive_fields j) _
          h in
      let (b, name, first) = >>=-eq-ok (raise_if (is_sensitive k) (sensitive_field k)) _ both in
      let plain = raise_if-ok (is_sensitive k) (sensitive_field k) name in
      let e = same j first in let es = same_fields fs rest in rw (plain, e, es)

-- evidence that assert_no_sensitive_fields lets pass is what sanitize_evidence makes of it: no field
-- of it is lost or changed.
pub sanitize-accepted : (j : Json) → assert_no_sensitive_fields j ≡ ok tt → sanitize_evidence j ≡ j
sanitize-accepted j h = same j h
