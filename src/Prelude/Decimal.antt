-- ===== src/Prelude/Decimal.antt =====
-- The decimal form of a number, as `%d` and strconv.FormatUint print it.
use Prim.Native.Nat.{ℕ, zero, suc, ◌/◌, ◌%◌, ◌<◌, ◌≤◌}
use Prim.Native.String.{String, ◌++◌, count}
use mathlib.Core.Path.{◌≡◌, refl, ap, sym, ◌∙◌}
use mathlib.Core.Logic.{inl, inr}
use native.Mathlib.Omega.{arith}
use text.Mathlib.Text.{◌==◌}
use text.Mathlib.TextLemmas.{append_inj, length-append}
use fraglands.Prelude.Tests.{ltb, if◌then◌else◌, Bool-cases}

digit : ℕ → String
digit zero = "0"
digit (suc zero) = "1"
digit (suc (suc zero)) = "2"
digit (suc (suc (suc zero))) = "3"
digit (suc (suc (suc (suc zero)))) = "4"
digit (suc (suc (suc (suc (suc zero))))) = "5"
digit (suc (suc (suc (suc (suc (suc zero)))))) = "6"
digit (suc (suc (suc (suc (suc (suc (suc zero))))))) = "7"
digit (suc (suc (suc (suc (suc (suc (suc (suc zero)))))))) = "8"
digit _ = "9"

-- The value of a digit.
value : String → ℕ
value s =
    if s == "0"
    then 0
    else if s == "1"
    then 1
    else if s == "2"
    then 2
    else if s == "3"
    then 3
    else if s == "4"
    then 4
    else if s == "5"
    then 5
    else if s == "6"
    then 6
    else if s == "7"
    then 7
    else if s == "8"
    then 8
    else 9

value-digit : (n : ℕ) → n < 10 → value (digit n) ≡ n
unfolding value digit
value-digit zero h = refl
value-digit (suc zero) h = refl
value-digit (suc (suc zero)) h = refl
value-digit (suc (suc (suc zero))) h = refl
value-digit (suc (suc (suc (suc zero)))) h = refl
value-digit (suc (suc (suc (suc (suc zero))))) h = refl
value-digit (suc (suc (suc (suc (suc (suc zero)))))) h = refl
value-digit (suc (suc (suc (suc (suc (suc (suc zero))))))) h = refl
value-digit (suc (suc (suc (suc (suc (suc (suc (suc zero)))))))) h = refl
value-digit (suc (suc (suc (suc (suc (suc (suc (suc (suc n))))))))) h = unfold digit in omega arith

count-digit : (n : ℕ) → count (digit n) ≡ 1
unfolding digit
count-digit zero = refl
count-digit (suc zero) = refl
count-digit (suc (suc zero)) = refl
count-digit (suc (suc (suc zero))) = refl
count-digit (suc (suc (suc (suc zero)))) = refl
count-digit (suc (suc (suc (suc (suc zero))))) = refl
count-digit (suc (suc (suc (suc (suc (suc zero)))))) = refl
count-digit (suc (suc (suc (suc (suc (suc (suc zero))))))) = refl
count-digit (suc (suc (suc (suc (suc (suc (suc (suc zero)))))))) = refl
count-digit (suc (suc (suc (suc (suc (suc (suc (suc (suc n))))))))) = refl

-- With fuel for the digits; `n < fuel` is enough.
decimal_fuel : ℕ → ℕ → String
unfolding digit
decimal_fuel zero n = ""
decimal_fuel (suc f) n =
    let rest = decimal_fuel f (n / 10) ++ digit (n % 10) in if ltb n 10 then digit n else rest

unfoldable pub decimal : ℕ → String
unfolding decimal_fuel
decimal n = decimal_fuel (suc n) n

decimal_fuel_small : (f n : ℕ) → n < 10 → decimal_fuel (suc f) n ≡ digit n
unfolding decimal_fuel
decimal_fuel_small f n h = elim (Bool-cases (ltb n 10)) [
  | inl e ↦ rw e
  | inr e ↦ absurd (ground arith)
]

decimal_fuel_large :
    (f n : ℕ) → 10 ≤ n → decimal_fuel (suc f) n ≡ decimal_fuel f (n / 10) ++ digit (n % 10)
unfolding decimal_fuel
decimal_fuel_large f n h = elim (Bool-cases (ltb n 10)) [
  | inl e ↦ absurd (ground arith)
  | inr e ↦ rw e
]

count-decimal_fuel : (f n : ℕ) → 1 ≤ count (decimal_fuel (suc f) n)
count-decimal_fuel f n = elim (Bool-cases (ltb n 10)) [
  | inl e ↦ rw (decimal_fuel_small f n (ground arith)) (omega (arith, count-digit n))
  | inr e ↦ rw (decimal_fuel_large f n (ground arith)) (
      omega (arith, length-append (decimal_fuel f (n / 10)) (digit (n % 10)), count-digit (n % 10)))
]

digit_inj : (a b : ℕ) → a < 10 → b < 10 → digit a ≡ digit b → a ≡ b
digit_inj a b h k e = omega (arith, value-digit a h, value-digit b k, ap value e)

-- A number of one digit and one of several have no common form.
small-ne-large :
    (f g n m : ℕ)
    → n < 10
    → 10 ≤ m
    → m < suc (suc g)
    → ¬ (decimal_fuel (suc f) n ≡ decimal_fuel (suc (suc g)) m)
small-ne-large f g n m h k l e = omega (
  arith,
  ap count e,
  ap count (decimal_fuel_small f n h),
  ap count (decimal_fuel_large (suc g) m k),
  length-append (decimal_fuel (suc g) (m / 10)) (digit (m % 10)),
  count-digit n,
  count-digit (m % 10),
  count-decimal_fuel g (m / 10),
)

decimal_fuel_inj : (f g n m : ℕ) → n < f → m < g → decimal_fuel f n ≡ decimal_fuel g m → n ≡ m
decimal_fuel_inj zero g n m h k e = absurd (omega arith)
decimal_fuel_inj (suc f) zero n m h k e = absurd (omega arith)
decimal_fuel_inj (suc f) (suc g) n m h k e = elim (Bool-cases (ltb n 10)) [
  | inl a ↦ elim (Bool-cases (ltb m 10)) [
    | inl b ↦
        digit_inj n m (ground arith) (ground arith)
          (sym (decimal_fuel_small f n (ground arith)) ∙ e ∙ decimal_fuel_small g m (ground arith))
    | inr b ↦ absurd (one_many f g n m (ground arith) (ground arith) k e)
  ]
  | inr a ↦ elim (Bool-cases (ltb m 10)) [
    | inl b ↦ absurd (one_many g f m n (ground arith) (ground arith) h (sym e))
    | inr b ↦
        let eq =
          sym (decimal_fuel_large f n (ground arith)) ∙ e ∙ decimal_fuel_large g m (ground arith) in
        let same : count (decimal_fuel f (n / 10)) ≡ count (decimal_fuel g (m / 10)) = omega (
          arith,
          ap count eq,
          length-append (decimal_fuel f (n / 10)) (digit (n % 10)),
          length-append (decimal_fuel g (m / 10)) (digit (m % 10)),
          count-digit (n % 10),
          count-digit (m % 10),
        ) in
        let (heads, lasts) = append_inj eq same in
        omega (
          arith,
          decimal_fuel_inj f g (n / 10) (m / 10) (ground arith) (ground arith) heads,
          digit_inj (n % 10) (m % 10) (omega arith) (omega arith) lasts,
        )
  ]
]
  where
    one_many :
        (f' g' n' m' : ℕ)
        → n' < 10
        → 10 ≤ m'
        → m' < suc g'
        → ¬ (decimal_fuel (suc f') n' ≡ decimal_fuel (suc g') m')
    one_many f' zero n' m' p q r x = omega arith
    one_many f' (suc g') n' m' p q r x = small-ne-large f' g' n' m' p q r x

-- Two numbers with one decimal form are equal.
pub decimal_inj : (n m : ℕ) → decimal n ≡ decimal m → n ≡ m
unfolding decimal
decimal_inj n m e = decimal_fuel_inj (suc n) (suc m) n m (omega arith) (omega arith) e
