-- ===== src/Base/Result.antt =====
-- Python code that may raise: the value returned, or the exception.
use mathlib.Core.Path.{◌≡◌, refl}

pub data Result {ℓ} (E A : Type ℓ) : Type ℓ where
  err : E → Result E A
  ok : A → Result E A

module _ {ℓ} {E A B : Type ℓ} where
  infixl 5 ◌>>=◌
  abbrev pub ◌>>=◌ : Result E A → (A → Result E B) → Result E B
  err e >>= f = err e
  ok a >>= f = f a

  infixl 5 ◌>>◌
  -- what follows a statement whose value is not used
  abbrev pub ◌>>◌ : Result E A → Result E B → Result E B
  err e >> r = err e
  ok a >> r = r

-- Code that returns went through a first statement that returns.
pub >>=-eq-ok {ℓ} :
    {E A B : Type ℓ} (first : Result E A) (next : A → Result E B) {r : B}
    → (first >>= next) ≡ ok r
    → (x : A) × (first ≡ ok x) × (next x ≡ ok r)
>>=-eq-ok (err e) next returned = cc
>>=-eq-ok (ok x) next returned = (x, refl, returned)

pub ok-injective {ℓ} : {E A : Type ℓ} {a b : A} → ◌≡◌ {A = Result E A} (ok a) (ok b) → a ≡ b
ok-injective h = cc

pub both_ok {ℓ} :
    {E A B : Type ℓ} (first : Result E A) (next : Result E B) {r : B}
    → (first >> next) ≡ ok r
    → ((x : A) × (first ≡ ok x)) × (next ≡ ok r)
both_ok (err e) next h = cc
both_ok (ok x) next h = ((x, refl), h)

pub err-ok {ℓ} : {E A : Type ℓ} {e : E} {a : A} → ◌≡◌ {A = Result E A} (err e) (ok a) → ⊥
err-ok h = cc
