-- ===== src/Prelude/Lists.antt =====
-- Lists measured by native numbers, and predicates on them by recursion.
use Prim.Native.Nat.{ℕ, zero, suc, ◌+◌, ◌≤◌}
use mathlib.Core.Path.{◌≡◌, refl, ap, ◌∙◌}
use mathlib.Core.Logic.{◌⊎◌, inl, inr}
use mathlib.Core.List.{List, [], ◌∷◌, ◌++◌}
use native.Mathlib.Omega.{arith}

module _ {ℓ} {A : Type ℓ} where
  abbrev pub length : List A → ℕ
  length [] = 0
  length (x ∷ xs) = suc (length xs)

  pub length-append : (xs ys : List A) → length (xs ++ ys) ≡ length xs + length ys
  length-append [] ys = omega arith
  length-append (x ∷ xs) ys = omega (arith, length-append xs ys)

-- A predicate that holds of every element; it computes to a tuple.
abbrev pub All {ℓ κ} : {A : Type ℓ} → (A → Type κ) → List A → Type κ
All P [] = Unit
All P (x ∷ xs) = P x × All P xs

module _ {ℓ} {A : Type ℓ} where
  abbrev pub take : ℕ → List A → List A
  take zero xs = []
  take (suc n) [] = []
  take (suc n) (x ∷ xs) = x ∷ take n xs

  pub append_assoc : (xs ys zs : List A) → (xs ++ ys) ++ zs ≡ xs ++ (ys ++ zs)
  append_assoc [] ys zs = refl
  append_assoc (x ∷ xs) ys zs = ap {B = List A} (λ r. x ∷ r) (append_assoc xs ys zs)

  -- The front of an append lies in its first part, or takes all of it.
  pub take-append_left : (n : ℕ) (xs ys : List A) → n ≤ length xs → take n (xs ++ ys) ≡ take n xs
  take-append_left zero xs ys h = refl
  take-append_left (suc n) [] ys h = absurd (omega arith)
  take-append_left (suc n) (x ∷ xs) ys h =
      ap {B = List A} (λ r. x ∷ r) (take-append_left n xs ys (omega arith))

  pub take-append_right :
      (n : ℕ) (xs ys : List A) → take (length xs + n) (xs ++ ys) ≡ xs ++ take n ys
  take-append_right n [] ys = ap (λ k. take k ys) (omega arith)
  take-append_right n (x ∷ xs) ys =
      ap {B = List A} (λ k. take k (x ∷ (xs ++ ys))) {x = suc (length xs) + n}
        {y = suc (length xs + n)} (omega arith)
      ∙ ap {B = List A} (λ r. x ∷ r) (take-append_right n xs ys)

  pub length-take : (n : ℕ) (xs : List A) → n ≤ length xs → length (take n xs) ≡ n
  length-take zero xs h = refl
  length-take (suc n) [] h = absurd (omega arith)
  length-take (suc n) (x ∷ xs) h = ap suc (length-take n xs (omega arith))

  pub take_all : (xs : List A) → take (length xs) xs ≡ xs
  take_all [] = refl
  take_all (x ∷ xs) = ap {B = List A} (λ r. x ∷ r) (take_all xs)

  pub append_nil : (xs : List A) → xs ++ [] ≡ xs
  append_nil [] = refl
  append_nil (x ∷ xs) = ap {B = List A} (λ r. x ∷ r) (append_nil xs)

  pub List-cases : (xs : List A) → (xs ≡ []) ⊎ ((x : A) × (rest : List A) × (xs ≡ x ∷ rest))
  List-cases [] = inl refl
  List-cases (x ∷ rest) = inr (x, rest, refl)
