-- ===== src/Sync/Keys.antt =====
-- The statements on the table `queue` of cnserverops/sync.py: what an update, a selection and an
-- ordering keep of the rows.
use Prim.Native.String.{compare}
use text.Mathlib.Text.{is_lt}
use cnserver_ops.Prelude.{
  ◌+◌, String, ℕ, zero, suc, ◌≤◌, Bool, true, false, List, [], ◌∷◌, map, ◌==◌, if◌then◌else◌, ◌≡◌,
  refl, inl, inr, arith, eq_iff, All, In, Bool-cases, length,
}
use cnserver_ops.Sync.{Row, update, find_row, select, insert_row, by_time, limited}

-- Every row of a table is changed or not.
pub All-update :
    (P Q : Row → Type 0) (test : Row → Bool) (change : Row → Row)
    → ((r : Row) → P r → test r ≡ true → Q (change r))
    → ((r : Row) → P r → test r ≡ false → Q r)
    → (rs : List Row) → All P rs
    → All Q (update test change rs)
All-update P Q test change f g [] h = tt
All-update P Q test change f g (r ∷ rs) h =
    (choose (test r) (f r h.0) (g r h.0), All-update P Q test change f g rs h.1)
  where
    choose :
        (b : Bool) → (b ≡ true → Q (change r)) → (b ≡ false → Q r) → Q (if b then change r else r)
    choose true x y = x refl
    choose false x y = y refl

pub map-update {ℓ} :
    {A : Type ℓ} (view : Row → A) (test : Row → Bool) (change : Row → Row)
    → ((r : Row) → view (change r) ≡ view r)
    → (rs : List Row) → map view (update test change rs) ≡ map view rs
map-update view test change same [] = refl
map-update view test change same (r ∷ rs) =
    let rest = map-update view test change same rs in
    let e = same r in
    elim (Bool-cases (test r)) [ inl yes_it ↦ rw (yes_it, e, rest) | inr no_it ↦ rw (no_it, rest) ]

pub All-select :
    (P : Row → Type 0) (test : Row → Bool) (rs : List Row)
    → All P rs
    → All (λ r. P r × (test r ≡ true)) (select test rs)
unfolding select
All-select P test [] h = tt
All-select P test (r ∷ rs) h = choose (test r) refl (All-select P test rs h.1)
  where
    choose :
        (b : Bool)
        → test r ≡ b
        → All (λ r. P r × (test r ≡ true)) (select test rs)
        → All (λ r. P r × (test r ≡ true)) (if b then r ∷ select test rs else select test rs)
    choose true e t = ((h.0, e), t)
    choose false e t = t

pub All-limited : (P : Row → Type 0) (n : ℕ) (rs : List Row) → All P rs → All P (limited n rs)
unfolding limited
All-limited P zero rs h = tt
All-limited P (suc n) [] h = tt
All-limited P (suc n) (r ∷ rs) h = (h.0, All-limited P n rs h.1)

pub length-limited : (n : ℕ) (rs : List Row) → length (limited n rs) ≤ n
unfolding limited
length-limited zero rs = omega arith
length-limited (suc n) [] = omega arith
length-limited (suc n) (r ∷ rs) = omega (arith, length-limited n rs)

-- An update of one event leaves the others.
pub find_row-update :
    (id other : String) (change : Row → Row) (rs : List Row)
    → ((r : Row) → (change r).event_id ≡ r.event_id)
    → (other == id) ≡ false
    → find_row id (update (λ r. r.event_id == other) change rs) ≡ find_row id rs
unfolding find_row
find_row-update id other change [] same apart = refl
find_row-update id other change (r ∷ rs) same apart =
    let rest = find_row-update id other change rs same apart in
    elim (Bool-cases (r.event_id == other)) [
      | inl hit ↦
          let away : (r.event_id == id) ≡ false =
            ground (arith, eq_iff r.event_id other, eq_iff other id, eq_iff r.event_id id) in
          rw (hit, same r, away, rest)
      | inr miss ↦ rw (miss, rest)
    ]

All-insert_row :
    (P : Row → Type 0) (r : Row) (rs : List Row) → P r → All P rs → All P (insert_row r rs)
unfolding insert_row
All-insert_row P r [] p h = (p, tt)
All-insert_row P r (q ∷ qs) p h =
    choose (is_lt (compare q.created_at_utc r.created_at_utc)) (All-insert_row P r qs p h.1)
  where
    choose :
        (b : Bool) → All P (insert_row r qs) → All P (if b then q ∷ insert_row r qs else r ∷ q ∷ qs)
    choose true t = (h.0, t)
    choose false t = (p, h)

pub All-by_time : (P : Row → Type 0) (rs : List Row) → All P rs → All P (by_time rs)
unfolding by_time
All-by_time P [] h = tt
All-by_time P (r ∷ rs) h = All-insert_row P r (by_time rs) h.0 (All-by_time P rs h.1)

pub All-weaken :
    (P Q : Row → Type 0) (rs : List Row) → ((r : Row) → P r → Q r) → All P rs → All Q rs
All-weaken P Q [] f h = tt
All-weaken P Q (r ∷ rs) f h = (f r h.0, All-weaken P Q rs f h.1)

pub limited-all : (n : ℕ) (rs : List Row) → length rs ≤ n → limited n rs ≡ rs
unfolding limited
limited-all zero [] h = refl
limited-all zero (r ∷ rs) h = absurd (omega arith)
limited-all (suc n) [] h = refl
limited-all (suc n) (r ∷ rs) h = let rest = limited-all n rs (omega arith) in rw rest refl

-- The ids of the rows in their order.
abbrev pub ids : List Row → List String
ids rs = map (λ r. r.event_id) rs

length-insert_row : (r : Row) (rs : List Row) → length (insert_row r rs) ≡ length rs + 1
unfolding insert_row
length-insert_row r [] = omega arith
length-insert_row r (q ∷ qs) =
    let rest = length-insert_row r qs in
    elim (Bool-cases (is_lt (compare q.created_at_utc r.created_at_utc))) [
      | inl later ↦ rw later (omega arith)
      | inr first ↦ rw first (omega arith)
    ]

pub length-by_time : (rs : List Row) → length (by_time rs) ≡ length rs
unfolding by_time
length-by_time [] = refl
length-by_time (r ∷ rs) =
    let rest = length-by_time rs in let one = length-insert_row r (by_time rs) in omega arith

In-insert_row :
    (id : String) (r : Row) (rs : List Row) → In id (ids (r ∷ rs)) → In id (ids (insert_row r rs))
unfolding insert_row
In-insert_row id r [] h = h
In-insert_row id r (q ∷ qs) h =
    elim (Bool-cases (is_lt (compare q.created_at_utc r.created_at_utc))) [
      | inl later ↦ rw later (swapped (In-insert_row id r qs) h)
      | inr first ↦ rw first h
    ]
  where
    swapped :
        (In id (ids (r ∷ qs)) → In id (ids (insert_row r qs)))
        → In id (ids (r ∷ q ∷ qs))
        → In id (ids (q ∷ insert_row r qs))
    swapped moved (inl e) = inr (moved (inl e))
    swapped moved (inr (inl e)) = inl e
    swapped moved (inr (inr there)) = inr (moved (inr there))

pub In-by_time : (id : String) (rs : List Row) → In id (ids rs) → In id (ids (by_time rs))
unfolding by_time
In-by_time id [] h = h
In-by_time id (r ∷ rs) (inl e) = In-insert_row id r (by_time rs) (inl e)
In-by_time id (r ∷ rs) (inr there) = In-insert_row id r (by_time rs) (inr (In-by_time id rs there))
