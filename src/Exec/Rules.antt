-- ===== src/Exec/Rules.antt =====
-- Two ways to reason about such methods without running them: what a returned value satisfies, and
-- how much a measure of the state grows, whether the method returns or raises.
use cnserver_ops.Prelude.{
  ℕ, ◌+◌, Bool, true, false, if◌then◌else◌, ◌≤◌, ◌≡◌, refl, Result, ok, err, arith, ok_injective,
  ap, sym, ◌∙◌,
}
use mathlib.Core.Path.{subst}
use cnserver_ops.Exec.{Exec, pure, lift, after, after-ok, ◌>>=◌}

module _ {ℓ} {S E A : Type ℓ} where
  abbrev pub Ensures : (A → Type ℓ) → Exec S E A → Type ℓ
  Ensures Q m = (s : S) (a : A) → (m s).0 ≡ ok a → Q a

  abbrev pub Grows : (S → ℕ) → ℕ → Exec S E A → Type ℓ
  Grows size n m = (s : S) → size (m s).1 ≤ size s + n

  pub Ensures-lift : (r : Result E A) → Ensures (λ a. r ≡ ok a) (lift r)
  Ensures-lift r s a h = h

  pub Ensures-pure : (Q : A → Type ℓ) (a : A) → Q a → Ensures Q (pure a)
  Ensures-pure Q a q s b h = subst Q (ok_injective h) q

  pub Grows-lift : (size : S → ℕ) (r : Result E A) → Grows size 0 (lift r)
  Grows-lift size r s = omega arith

  pub Grows-weaken :
      (size : S → ℕ) (n k : ℕ) (m : Exec S E A) → n ≤ k → Grows size n m → Grows size k m
  Grows-weaken size n k m n_le_k g s = let g_s = g s in omega arith

  pub Grows-choice :
      (size : S → ℕ) (n : ℕ) (b : Bool) (m k : Exec S E A)
      → Grows size n m
      → Grows size n k
      → Grows size n (if b then m else k)
  Grows-choice size n true m k g h = g
  Grows-choice size n false m k g h = h

  pub Ensures-choice :
      (Q : A → Type ℓ) (b : Bool) (m k : Exec S E A)
      → (b ≡ true → Ensures Q m)
      → (b ≡ false → Ensures Q k)
      → Ensures Q (if b then m else k)
  Ensures-choice Q true m k g h = g refl
  Ensures-choice Q false m k g h = h refl

pub Grows-pure {ℓ} :
    {S A : Type ℓ} (E : Type ℓ) (size : S → ℕ) (a : A) → Grows {E = E} size 0 (pure a)
Grows-pure E size a s = omega arith

module _ {ℓ} {S E A B : Type ℓ} where
  pub Ensures-bind :
      {P : A → Type ℓ} {Q : B → Type ℓ} (m : Exec S E A) (f : A → Exec S E B)
      → Ensures P m
      → ((a : A) → P a → Ensures Q (f a))
      → Ensures Q (m >>= f)
  Ensures-bind m f p q s b h =
      let (a, returned, same) = after-ok (m s).0 f (m s).1 h in
      q a (p s a returned) (m s).1 b (ap (λ (r : Result E B × S). r.0) (sym same) ∙ h)

  Grows-after :
      (size : S → ℕ) (k : ℕ) (r : Result E A) (f : A → Exec S E B) (s : S)
      → ((a : A) → Grows size k (f a))
      → size (after r f s).1 ≤ size s + k
  Grows-after size k (ok a) f s g = g a s
  Grows-after size k (err e) f s g = omega arith

  pub Grows-bind :
      (size : S → ℕ) (n k : ℕ) (m : Exec S E A) (f : A → Exec S E B)
      → Grows size n m
      → ((a : A) → Grows size k (f a))
      → Grows size (n + k) (m >>= f)
  Grows-bind size n k m f g h s =
      let first = g s in let rest = Grows-after size k (m s).0 f (m s).1 h in omega arith
