-- ===== src/Task.antt =====
-- Fallible work on a shared state: what was written before a failure stays written, so that the
-- state comes back beside an error too.
use jwt_exchange.Prelude.{◌≡◌, refl, ap, arith}
use jwt_exchange.Result.{Result, ok, err}

abbrev pub Task {ℓ κ μ} : Type ℓ → Type κ → Type μ → Type (ℓ ⊔ κ ⊔ μ)
Task S E A = S → Result A E × S

module _ {ℓ κ μ} {S : Type ℓ} {E : Type κ} {A : Type μ} where
  abbrev pub lift : Result A E → Task S E A
  lift r s = (r, s)

module _ {ℓ κ μ ν} {S : Type ℓ} {E : Type κ} {A : Type μ} {B : Type ν} where
  abbrev pub continue : Result A E × S → (A → Task S E B) → Result B E × S
  continue (ok a, s) f = f a s
  continue (err e, s) f = (err e, s)

  infixl 5 ◌>>=◌
  abbrev pub ◌>>=◌ : Task S E A → (A → Task S E B) → Task S E B
  ◌>>=◌ m f s = continue (m s) f

  -- A task that succeeded has succeeded in each of its parts.
  pub continue-eq-ok :
      (p : Result A E × S) (f : A → Task S E B) {b : B} {s : S}
      → continue p f ≡ (ok b, s)
      → (a : A) × (p ≡ (ok a, p.1)) × (f a p.1 ≡ (ok b, s))
  continue-eq-ok (ok a, s) f h = (a, refl, h)
  continue-eq-ok (err e, s) f h = absurd (ground arith)

  -- What holds of the end of a task, from its first part and the rest.
  pub continue-ind {ξ} :
      (Q : Result B E × S → Type ξ) (p : Result A E × S) (f : A → Task S E B)
      → ((a : A) → p.0 ≡ ok a → Q (f a p.1))
      → ((e : E) → p.0 ≡ err e → Q (err e, p.1))
      → Q (continue p f)
  continue-ind Q (ok a, s) f h k = h a refl
  continue-ind Q (err e, s) f h k = k e refl

  -- A task whose first part succeeds goes on with the rest.
  pub continue-of-ok :
      (p : Result A E × S) (f : A → Task S E B) {a : A} {s : S}
      → p ≡ (ok a, s)
      → continue p f ≡ f a s
  continue-of-ok p f h = ap (λ q. continue q f) h
