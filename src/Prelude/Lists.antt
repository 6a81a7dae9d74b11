-- ===== src/Prelude/Lists.antt =====
-- Lists measured by native numbers, and predicates over their elements.
use Prim.Native.Nat.{ℕ, zero, suc, ◌+◌}
use mathlib.Core.Logic.{◌⊎◌, inl, inr}
use mathlib.Core.Path.{◌≡◌}
use mathlib.Core.Bool.{Bool, false, ◌||◌}
use mathlib.Core.List.{List, [], ◌∷◌, ◌++◌, map}
use native.Mathlib.Omega.{arith}

module _ {ℓ} {A : Type ℓ} where
  abbrev pub length : List A → ℕ
  length [] = 0
  length (x ∷ xs) = suc (length xs)

  abbrev pub drop : ℕ → List A → List A
  drop zero xs = xs
  drop (suc n) [] = []
  drop (suc n) (x ∷ xs) = drop n xs

  abbrev pub take : ℕ → List A → List A
  take zero xs = []
  take (suc n) [] = []
  take (suc n) (x ∷ xs) = x ∷ take n xs

  pub length-append : (xs ys : List A) → length (xs ++ ys) ≡ length xs + length ys
  length-append [] ys = omega arith
  length-append (x ∷ xs) ys = omega (arith, length-append xs ys)

  -- The library's `any` cannot be unfolded.
  abbrev pub any : (A → Bool) → List A → Bool
  any p [] = false
  any p (x ∷ xs) = p x || any p xs

-- A predicate by recursion computes to tuples, which the tactics read and build.
abbrev pub All {ℓ κ} : {A : Type ℓ} → (A → Type κ) → List A → Type κ
All holds [] = Unit
All holds (u ∷ us) = holds u × All holds us

module _ {ℓ κ} {A : Type ℓ} (P : A → Type κ) where
  pub All-append : (us vs : List A) → All P us → All P vs → All P (us ++ vs)
  All-append [] vs done rest = rest
  All-append (u ∷ us) vs (first, done) rest = (first, All-append us vs done rest)

-- Some element satisfies the predicate.
abbrev pub Some {ℓ} : {A : Type ℓ} → (A → Type 0) → List A → Type 0
Some holds [] = ⊥
Some holds (u ∷ us) = holds u ⊎ Some holds us

module _ {ℓ} {A : Type ℓ} (P : A → Type 0) where
  pub Some-left : (us vs : List A) → Some P us → Some P (us ++ vs)
  Some-left [] vs h = absurd h
  Some-left (u ∷ us) vs (inl p) = inl p
  Some-left (u ∷ us) vs (inr h) = inr (Some-left us vs h)

  pub Some-right : (us vs : List A) → Some P vs → Some P (us ++ vs)
  Some-right [] vs h = h
  Some-right (u ∷ us) vs h = inr (Some-right us vs h)

  -- If a function keeps what satisfies P.
  pub Some-map :
      (g : A → A) (us : List A) → ((u : A) → P u → P (g u)) → Some P us → Some P (map g us)
  Some-map g [] k h = absurd h
  Some-map g (u ∷ us) k (inl p) = inl (k u p)
  Some-map g (u ∷ us) k (inr h) = inr (Some-map g us k h)

-- A predicate that follows from two that hold of all elements.
pub All-zip {ℓ κ} :
    {A : Type ℓ} (P Q R : A → Type κ) (us : List A)
    → ((u : A) → P u → Q u → R u)
    → All P us
    → All Q us
    → All R us
All-zip P Q R [] k p q = tt
All-zip P Q R (u ∷ us) k p q = (k u p.0 q.0, All-zip P Q R us k p.1 q.1)

pub All-map {ℓ κ} :
    {A : Type ℓ} (P Q : A → Type κ) (us : List A) → ((u : A) → P u → Q u) → All P us → All Q us
All-map P Q us k p = All-zip P P Q us (λ u a b. k u a) p p

pub Some-all {ℓ} :
    {A : Type ℓ} (P Q : A → Type 0) (us : List A) → ((u : A) → P u → Q u) → Some P us → Some Q us
Some-all P Q [] k h = absurd h
Some-all P Q (u ∷ us) k (inl p) = inl (k u p)
Some-all P Q (u ∷ us) k (inr h) = inr (Some-all P Q us k h)
