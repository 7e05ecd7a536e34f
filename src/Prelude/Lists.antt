-- ===== src/Prelude/Lists.antt =====
-- Python's lists and sets of texts: membership tests and what they decide.
use Prim.Native.Nat.{ℕ, suc, ◌+◌}
use Prim.Native.String.{String}
use mathlib.Core.Path.{◌≡◌}
use mathlib.Core.Logic.{◌⊎◌, ◌↔◌}
use mathlib.Core.Bool.{Bool, true, false, ◌||◌}
use mathlib.Core.List.{List, [], ◌∷◌, ◌++◌}
use mathlib.Core.Option.{Option, none, some}
use native.Mathlib.Omega.{arith}
use text.Mathlib.Text.{◌==◌}
use text.Mathlib.TextEquality.{eq_iff}
use cnserver_ops.Prelude.Tests.{if◌then◌else◌}

module _ {ℓ} {A : Type ℓ} where
  abbrev pub length : List A → ℕ
  length [] = 0
  length (x ∷ xs) = suc (length xs)

  -- `not l`.
  abbrev pub is_empty : List A → Bool
  is_empty [] = true
  is_empty (x ∷ xs) = false

  pub length-append : (xs ys : List A) → length (xs ++ ys) ≡ length xs + length ys
  length-append [] ys = omega arith
  length-append (x ∷ xs) ys = omega (arith, length-append xs ys)

-- `x in l`.
abbrev pub contains : String → List String → Bool
contains x [] = false
contains x (y ∷ ys) = x == y || contains x ys

abbrev pub In : String → List String → Type 0
In x [] = ⊥
In x (y ∷ ys) = (x ≡ y) ⊎ In x ys

pub In-of_contains : (x : String) (ys : List String) → contains x ys ≡ true → In x ys
In-of_contains x [] h = cc
In-of_contains x (y ∷ ys) h = ground (arith, eq_iff x y, In-of_contains x ys)

pub contains_of-In : (x : String) (ys : List String) → In x ys → contains x ys ≡ true
contains_of-In x [] h = absurd h
contains_of-In x (y ∷ ys) h = ground (arith, eq_iff x y, contains_of-In x ys)

pub contains_iff : (x : String) (ys : List String) → (contains x ys ≡ true) ↔ In x ys
contains_iff x ys = (In-of_contains x ys, contains_of-In x ys)

-- Every element, by recursion, so that tactics read and build it.
abbrev pub All {ℓ κ} : {A : Type ℓ} → (A → Type κ) → List A → Type κ
All P [] = Unit
All P (x ∷ xs) = P x × All P xs

-- A dict with text keys: `get`, and `get` with a default.
module _ {ℓ} {V : Type ℓ} where
  abbrev pub lookup : String → List (String × V) → Option V
  lookup k [] = none
  lookup k ((j, v) ∷ m) = if j == k then some v else lookup k m

  abbrev pub get_or : Option V → V → V
  get_or none d = d
  get_or (some v) d = v

  -- A file tree or table as a function, and a write to it.
  abbrev pub put : String → V → (String → Option V) → String → Option V
  put k v f j = if k == j then some v else f j

abbrev pub get_text : String → List (String × String) → String
get_text k m = get_or (lookup k m) ""
