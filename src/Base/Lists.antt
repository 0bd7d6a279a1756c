-- ===== src/Base/Lists.antt =====
-- Python's lists and membership tests: `len`, `in`, `any`, `all`, and the predicates that proofs use.
use Prim.Native.Nat.{ℕ, zero, suc, ◌+◌, ◌≤◌}
use Prim.Native.String.{String}
use mathlib.Core.Path.{◌≡◌, refl, sym, ap, ◌∙◌}
use mathlib.Core.Logic.{◌⊎◌, inl, inr}
use mathlib.Core.Bool.{Bool, true, false, not, ◌&&◌, ◌||◌}
use mathlib.Core.List.{List, [], ◌∷◌, ◌++◌}
use native.Mathlib.Omega.{arith}
use text.Mathlib.Text.{◌==◌}
use text.Mathlib.TextEquality.{eq_iff}
use dev_platform.Base.Tests.{if◌then◌else◌, Bool-cases}

module _ {ℓ} {A : Type ℓ} where
  abbrev pub length : List A → ℕ
  length [] = 0
  length (x ∷ xs) = suc (length xs)

  abbrev pub any : (A → Bool) → List A → Bool
  any p [] = false
  any p (x ∷ xs) = p x || any p xs

  abbrev pub all : (A → Bool) → List A → Bool
  all p [] = true
  all p (x ∷ xs) = p x && all p xs

  -- a list comprehension with a condition
  abbrev pub keep : (A → Bool) → List A → List A
  keep p [] = []
  keep p (x ∷ xs) = let rest = keep p xs in if p x then x ∷ rest else rest

  abbrev pub is_empty : List A → Bool
  is_empty [] = true
  is_empty (x ∷ xs) = false

  abbrev pub take : ℕ → List A → List A
  take zero xs = []
  take (suc n) [] = []
  take (suc n) (x ∷ xs) = x ∷ take n xs

  abbrev pub drop : ℕ → List A → List A
  drop zero xs = xs
  drop (suc n) [] = []
  drop (suc n) (x ∷ xs) = drop n xs

  pub take-drop : (n : ℕ) (xs : List A) → (take n xs ++ drop n xs) ≡ xs
  take-drop zero xs = refl
  take-drop (suc n) [] = refl
  take-drop (suc n) (x ∷ xs) = ap (λ ys. x ∷ ys) (take-drop n xs)

  pub length-take : (n : ℕ) (xs : List A) → n ≤ length xs → length (take n xs) ≡ n
  length-take zero xs h = refl
  length-take (suc n) [] h = omega arith
  length-take (suc n) (x ∷ xs) h = omega (arith, length-take n xs (omega arith))

  -- Between two positions of a list stands one part of it.
  pub cut_between :
      (n m : ℕ) (xs : List A)
      → n ≤ m
      → (part : List A) × (drop n xs ≡ part ++ drop m xs) × (take m xs ≡ take n xs ++ part)
  cut_between zero m xs h = (take m xs, sym (take-drop m xs), refl)
  cut_between (suc n) zero xs h = absurd (omega arith)
  cut_between (suc n) (suc m) [] h = ([], refl, refl)
  cut_between (suc n) (suc m) (x ∷ xs) h =
      let (part, rest, first) = cut_between n m xs (omega arith) in
      (part, rest, ap (λ ys. x ∷ ys) first)

  pub take-append : (xs ys : List A) → take (length xs) (xs ++ ys) ≡ xs
  take-append [] ys = refl
  take-append (x ∷ xs) ys = ap (λ zs. x ∷ zs) (take-append xs ys)

  pub drop-append : (xs ys : List A) → drop (length xs) (xs ++ ys) ≡ ys
  drop-append [] ys = refl
  drop-append (x ∷ xs) ys = drop-append xs ys

  pub drop-length : (xs : List A) → drop (length xs) xs ≡ []
  drop-length [] = refl
  drop-length (x ∷ xs) = drop-length xs

  pub length-append : (xs ys : List A) → length (xs ++ ys) ≡ length xs + length ys
  length-append [] ys = omega arith
  length-append (x ∷ xs) ys = omega (arith, length-append xs ys)

  pub any-append : (p : A → Bool) (xs ys : List A) → any p (xs ++ ys) ≡ (any p xs || any p ys)
  any-append p [] ys = refl
  any-append p (x ∷ xs) ys = ground (arith, any-append p xs ys)

  pub all-append : (p : A → Bool) (xs ys : List A) → all p (xs ++ ys) ≡ (all p xs && all p ys)
  all-append p [] ys = refl
  all-append p (x ∷ xs) ys = ground (arith, all-append p xs ys)

  pub all-keep : (p : A → Bool) (xs : List A) → all p (keep p xs) ≡ true
  all-keep p [] = refl
  all-keep p (x ∷ xs) = ground (arith, all-keep p xs)

  pub length-keep-not :
      (p : A → Bool) (xs : List A)
      → length (keep p xs) + length (keep (λ x. not (p x)) xs) ≡ length xs
  length-keep-not p [] = omega arith
  length-keep-not p (x ∷ xs) = ground (arith, length-keep-not p xs)

-- Some element of the list, or each of them, has the property.
abbrev pub Some {ℓ} : {A : Type ℓ} → (A → Type 0) → List A → Type 0
Some P [] = ⊥
Some P (x ∷ xs) = P x ⊎ Some P xs

abbrev pub All {ℓ} : {A : Type ℓ} → (A → Type 0) → List A → Type 0
All P [] = Unit
All P (x ∷ xs) = P x × All P xs

-- `a in xs`, for texts
abbrev pub contains : List String → String → Bool
contains [] a = false
contains (x ∷ xs) a = a == x || contains xs a

pub contains-append :
    (xs ys : List String) (a : String) → contains (xs ++ ys) a ≡ (contains xs a || contains ys a)
contains-append [] ys a = refl
contains-append (x ∷ xs) ys a = ground (arith, contains-append xs ys a)

pub contains-keep :
    (p : String → Bool) (xs : List String) (a : String)
    → contains (keep p xs) a ≡ (contains xs a && p a)
contains-keep p [] a = refl
contains-keep p (x ∷ xs) a = ground (arith, contains-keep p xs a, eq_iff a x)

-- No text stands in the list twice.
abbrev pub Distinct : List String → Type 0
Distinct [] = Unit
Distinct (x ∷ xs) = (contains xs x ≡ false) × Distinct xs

pub Distinct-append :
    (xs : List String) (a : String)
    → Distinct xs
    → contains xs a ≡ false
    → Distinct (xs ++ (a ∷ []))
Distinct-append [] a d h = (refl, tt)
Distinct-append (x ∷ xs) a (fresh, d) h = (
  contains-append xs (a ∷ []) x ∙ ground (arith, eq_iff x a, eq_iff a x),
  Distinct-append xs a d (ground arith),
)

-- What holds of every text of a list holds of the texts in it.
pub all-contains :
    (p : String → Bool) (xs : List String) (a : String)
    → all p xs ≡ true
    → contains xs a ≡ true
    → p a ≡ true
all-contains p [] a h m = cc
all-contains p (x ∷ xs) a h m = elim (Bool-cases (a == x)) [
  | inl e ↦ rw ((eq_iff a x).0 e) (ground arith)
  | inr e ↦ all-contains p xs a (ground arith) (ground arith)
]
