-- ===== src/Core/Lobby/Occupancy.antt =====
-- core/lobby.go: the loop of Claim, and the number of entries of a map over the slots.
use fraglands.Prelude.{
  ℕ, zero, suc, ◌+◌, ◌<◌, ◌≤◌, String, ◌≡◌, ◌≢◌, inl, inr, none, some, List, [], ◌∷◌, nat_eq, arith,
  Option-cases, length,
}
use fraglands.Prelude.Dict.{
  Dict, get, lookup, without, IsUnique, lookup-without, length-without, without-IsUnique,
}
use fraglands.Core.Lobby.{find_free}

module _ {V : Type 0} where
  -- Where every key below `n` is bound, there are at least `n` entries.
  all_bound-length :
      (n : ℕ) (l : List (ℕ × V)) → IsUnique l → ((i : ℕ) → i < n → lookup i l ≢ none) → n ≤ length l
  all_bound-length zero l u h = omega arith
  all_bound-length (suc n) l u h = elim (Option-cases (lookup n l)) [
    | inl e ↦ absurd (h n (omega arith) e)
    | inr (v, e) ↦ omega (
      arith,
      length-without n l v u e,
      all_bound-length n (without n l) (without-IsUnique n l u)
          (λ i lt x. h i (omega arith) (ground (arith, lookup-without n i l))),
    )
  ]

  -- Where every bound key is below `n`, there are at most `n` entries.
  pub length-le_of_below :
      (n : ℕ) (l : List (ℕ × V))
      → IsUnique l
      → ((i : ℕ) (v : V) → lookup i l ≡ some v → i < n)
      → length l ≤ n
  length-le_of_below zero [] u h = omega arith
  length-le_of_below zero ((k, v) ∷ l) u h =
      absurd (unfold lookup in omega (arith, h k v (ground arith)))
  length-le_of_below (suc n) l u h = elim (Option-cases (lookup n l)) [
    | inl e ↦ omega (arith, length-le_of_below n l u (λ i v x. ground (arith, h i v)))
    | inr (v, e) ↦ omega (
      arith,
      length-without n l v u e,
      length-le_of_below n (without n l) (without-IsUnique n l u)
          (λ i w x. ground (arith, lookup-without n i l, h i w)),
    )
  ]

-- What the loop finds is the lowest free slot of its range.
pub find_free_lowest :
    (rounds slot : ℕ) (slots : Dict ℕ String) (s : ℕ)
    → find_free rounds slot slots ≡ some s
    → (get slots s ≡ none)
      × (slot ≤ s)
      × (s < slot + rounds)
      × ((i : ℕ) → slot ≤ i → i < s → get slots i ≢ none)
unfolding find_free
find_free_lowest zero slot slots s h = ground arith
find_free_lowest (suc rounds) slot slots s h = elim (Option-cases (get slots slot)) [
  | inl e ↦ (ground arith, ground arith, ground arith, λ i p q. ground arith)
  | inr (a, e) ↦
      let (free, low, high, before) = find_free_lowest rounds (suc slot) slots s (ground arith) in
      (free, omega arith, omega arith, λ i p q. ground (arith, before i))
]

-- Where the loop finds nothing, every slot of its range is taken.
pub find_free-none :
    (rounds slot : ℕ) (slots : Dict ℕ String)
    → find_free rounds slot slots ≡ none
    → (i : ℕ) → slot ≤ i
    → i < slot + rounds
    → get slots i ≢ none
unfolding find_free
find_free-none zero slot slots h i p q = absurd (omega arith)
find_free-none (suc rounds) slot slots h i p q = ground (
  arith,
  find_free-none rounds (suc slot) slots,
  find_free-none rounds (suc slot) slots (ground arith) i,
)

-- A lobby with fewer entries than slots has a free slot, so the loop finds one.
pub find_free-ne-none :
    (capacity : ℕ) (slots : Dict ℕ String)
    → IsUnique slots.entries
    → length slots.entries < capacity
    → find_free capacity 0 slots ≢ none
unfolding get
find_free-ne-none capacity slots u h e = omega (
  arith,
  all_bound-length capacity slots.entries u
      (λ i lt. find_free-none capacity 0 slots e i (omega arith) (omega arith)),
)
