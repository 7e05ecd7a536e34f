-- ===== src/Exec.antt =====
-- Methods that change an object and may raise: what was written before a raise stays written, so
-- the state comes back with the error too.
pub mod Rules
use cnserver_ops.Prelude.{Result, ok, err, ◌≡◌, refl}

abbrev pub Exec {ℓ} : Type ℓ → Type ℓ → Type ℓ → Type ℓ
Exec S E A = S → Result E A × S

module _ {ℓ} {S E A : Type ℓ} where
  abbrev pub pure : A → Exec S E A
  pure a s = (ok a, s)

  abbrev pub raise : E → Exec S E A
  raise e s = (err e, s)

  abbrev pub gets : (S → A) → Exec S E A
  gets f s = (ok (f s), s)

  -- A call that neither reads nor changes the object.
  abbrev pub lift : Result E A → Exec S E A
  lift r s = (r, s)

abbrev pub modify {ℓ} : {S E : Type ℓ} → (S → S) → Exec S E (Unit {ℓ})
modify f s = (ok tt, f s)

module _ {ℓ} {S E A B : Type ℓ} where
  abbrev pub after : Result E A → (A → Exec S E B) → Exec S E B
  after (ok a) f s = f a s
  after (err e) f s = (err e, s)

  infixl 5 ◌>>=◌ ◌>>◌
  abbrev pub ◌>>=◌ : Exec S E A → (A → Exec S E B) → Exec S E B
  ◌>>=◌ m f s = let (r, s') = m s in after r f s'

  abbrev pub ◌>>◌ : Exec S E A → Exec S E B → Exec S E B
  m >> n = m >>= λ _. n

-- Inversion of a call that is followed by `f`, where the whole returned.
module _ {ℓ} {S E A B : Type ℓ} where
  pub after-ok :
      (r : Result E A) (f : A → Exec S E B) (s : S) {b : B}
      → (after r f s).0 ≡ ok b
      → (a : A) × (r ≡ ok a) × (after r f s ≡ f a s)
  after-ok (ok a) f s h = (a, refl, refl)
  after-ok (err e) f s h = cc
