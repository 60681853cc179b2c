-- ===== src/Prelude/Dict.antt =====
-- Go's maps, as association lists. Keys are compared through their `Eq` instance.
use fraglands.Prelude.Tests.{Eq, ◌==◌, if◌then◌else◌}
use fraglands.Prelude.Lists.{length}
use Prim.Native.Nat.{ℕ, suc}
use mathlib.Core.Path.{◌≡◌, refl, ap}
use mathlib.Core.Option.{Option, none, some}
use mathlib.Core.List.{List, [], ◌∷◌}
use native.Mathlib.Omega.{arith}

pub record Dict {ℓ κ} (K : Type ℓ) (V : Type κ) : Type (ℓ ⊔ κ) where
  pub entries : List (K × V)

abbrev pub empty {ℓ κ} : {K : Type ℓ} {V : Type κ} → Dict K V
empty = record { entries = [] }

abbrev pub size {ℓ κ} : {K : Type ℓ} {V : Type κ} → Dict K V → ℕ
size d = length d.entries

module _ {ℓ κ} {K : Type ℓ} {V : Type κ} ⦃e : Eq K⦄ where
  unfoldable pub lookup : K → List (K × V) → Option V
  lookup key [] = none
  lookup key ((k, v) ∷ rest) = if k == key then some v else lookup key rest

  unfoldable pub without : K → List (K × V) → List (K × V)
  without key [] = []
  without key ((k, v) ∷ rest) =
      let kept = without key rest in if k == key then kept else (k, v) ∷ kept

  -- d[k]
  unfoldable pub get : Dict K V → K → Option V
  unfolding lookup
  get d k = lookup k d.entries

  -- delete(d, k)
  unfoldable pub delete : Dict K V → K → Dict K V
  unfolding without
  delete d k = record { entries = without k d.entries }

  -- d[k] = v
  unfoldable pub put : Dict K V → K → V → Dict K V
  unfolding without
  put d k v = record { entries = (k, v) ∷ without k d.entries }

  pub lookup-without :
      (key other : K) (l : List (K × V))
      → lookup other (without key l) ≡ (if key == other then none else lookup other l)
  unfolding lookup without
  lookup-without key other [] = ground arith
  lookup-without key other ((k, v) ∷ rest) = ground (
    arith,
    e.beq_iff key other,
    e.beq_iff k key,
    e.beq_iff k other,
    lookup-without key other rest,
  )

  pub get-delete :
      (d : Dict K V) (k j : K) → get (delete d k) j ≡ (if k == j then none else get d j)
  unfolding get delete
  get-delete d k j = lookup-without k j d.entries

  pub get-put :
      (d : Dict K V) (k j : K) (v : V) → get (put d k v) j ≡ (if k == j then some v else get d j)
  unfolding get put lookup
  get-put d k j v = ground (arith, lookup-without k j d.entries)

  -- No key stands twice, as in any map that `put` and `delete` built.
  abbrev pub IsUnique : List (K × V) → Type κ
  IsUnique [] = Unit
  IsUnique ((k, v) ∷ l) = (lookup k l ≡ none) × IsUnique l

  pub without-IsUnique : (k : K) (l : List (K × V)) → IsUnique l → IsUnique (without k l)
  unfolding lookup without
  without-IsUnique k [] u = tt
  without-IsUnique k ((i, v) ∷ l) u = ground (arith, without-IsUnique k l, lookup-without k i l)

  pub put-IsUnique :
      (d : Dict K V) (k : K) (v : V) → IsUnique d.entries → IsUnique (put d k v).entries
  unfolding put
  put-IsUnique d k v u = (
    ground (arith, lookup-without k k d.entries, (e.beq_iff k k).1 refl),
    without-IsUnique k d.entries u,
  )

  pub delete-IsUnique : (d : Dict K V) (k : K) → IsUnique d.entries → IsUnique (delete d k).entries
  unfolding delete
  delete-IsUnique d k u = without-IsUnique k d.entries u

  -- Taking a bound key out of a map without repeated keys makes it one shorter.
  pub without_absent : (k : K) (l : List (K × V)) → lookup k l ≡ none → without k l ≡ l
  unfolding lookup without
  without_absent k [] h = refl
  without_absent k ((i, v) ∷ l) h = ground (arith, without_absent k l)

  pub size-put_absent :
      (d : Dict K V) (k : K) (v : V) → get d k ≡ none → size (put d k v) ≡ suc (size d)
  unfolding get put
  size-put_absent d k v h = ap (λ l. suc (length l)) (without_absent k d.entries h)

  pub length-without :
      (k : K) (l : List (K × V)) (v : V)
      → IsUnique l
      → lookup k l ≡ some v
      → suc (length (without k l)) ≡ length l
  unfolding lookup without
  length-without k [] v u h = ground arith
  length-without k ((i, w) ∷ l) v u h =
      ground (arith, length-without k l v, without_absent i l, e.beq_iff i k)

pub get-empty {ℓ κ} : {K : Type ℓ} {V : Type κ} ⦃e : Eq K⦄ (k : K) → get (empty {V = V}) k ≡ none
unfolding get lookup
get-empty k = refl

pub size-delete {ℓ κ} :
    {K : Type ℓ} {V : Type κ} ⦃e : Eq K⦄ (d : Dict K V) (k : K) (v : V)
    → IsUnique d.entries
    → get d k ≡ some v
    → suc (size (delete d k)) ≡ size d
unfolding get delete
size-delete d k v u h = length-without k d.entries v u h

pub ruleset dict_laws = (get-empty, get-delete, get-put)
