-- ===== src/Core/Lobby/Claims.antt =====
-- The invariant of a lobby, and what Claim and Release do.
use fraglands.Prelude.{
  ℕ, ◌<◌, ◌≤◌, String, ◌≡◌, ◌≢◌, refl, sym, subst, leb, ◌⊎◌, inl, inr, Option, none, some, ◌==◌,
  nat_eq, string_eq, eq_iff, arith, Option-cases, Bool-cases, length,
}
use fraglands.Prelude.Int.{ℤ}
use fraglands.Prelude.Dict.{
  get, put, delete, IsUnique, get-put, get-delete, get-empty, put-IsUnique, delete-IsUnique,
}
use fraglands.Core.Errors.{CoreError, Result, ok, err, lobby_full, invalid_account, no_slot_claimed}
use fraglands.Core.Lobby.{Lobby, new, find_free, claim, claim_new, release}
use fraglands.Core.Lobby.Occupancy.{find_free_lowest, find_free-ne-none, length-le_of_below}

-- The two maps of a lobby are inverse to each other, over the slots below the capacity.
pub record Inv (l : Lobby) : Type 0 where
  pub unique : IsUnique l.slots.entries
  pub held :
      (a : String) (s : ℕ)
      → get l.by_account a ≡ some s
      → (get l.slots s ≡ some a) × (s < l.capacity)
  pub holder : (s : ℕ) (a : String) → get l.slots s ≡ some a → get l.by_account a ≡ some s

pub new-Inv : (id : String) (capacity : ℤ) (l : Lobby) → new id capacity ≡ ok l → Inv l
unfolding new
new-Inv id capacity l h = record {
  unique = ground arith;
  held = λ a s x. ground (arith, get-empty {V = ℕ} a);
  holder = λ s a x. ground (arith, get-empty {V = String} s);
}

-- A claim is refused as full, keeps the slot that is held, or takes the lowest free slot.
pub data Claimed (l : Lobby) (a : String) (m : Lobby) : Result CoreError ℕ → Type 0 where
  invalid : (e : CoreError) → a ≡ "" → m ≡ l → e ≢ lobby_full → Claimed l a m (err e)
  keeps : (s : ℕ) → get l.by_account a ≡ some s → m ≡ l → Claimed l a m (ok s)
  full :
      get l.by_account a ≡ none
      → l.capacity ≤ length l.slots.entries
      → m ≡ l
      → Claimed l a m (err lobby_full)
  takes :
      (s : ℕ)
      → get l.by_account a ≡ none
      → get l.slots s ≡ none
      → s < l.capacity
      → ((i : ℕ) → i < s → get l.slots i ≢ none)
      → m ≡ record l { slots = put l.slots s a; by_account = put l.by_account a s }
      → Claimed l a m (ok s)

claim_new-Claimed :
    (l : Lobby) (a : String)
    → Inv l
    → get l.by_account a ≡ none
    → Claimed l a (claim_new l a).0 (claim_new l a).1
unfolding claim_new
claim_new-Claimed l a v none_held = elim (Bool-cases (leb l.capacity (length l.slots.entries))) [
  | inl e ↦ rw e (full none_held (ground arith) refl)
  | inr e ↦ rw e (elim (Option-cases (find_free l.capacity 0 l.slots)) [
    | inl n ↦ absurd (find_free-ne-none l.capacity l.slots v.unique (ground arith) n)
    | inr (s, f) ↦
        let (free, _, high, before) = find_free_lowest l.capacity 0 l.slots s f in
        rw f (takes s none_held free (omega arith) (λ i lt. before i (omega arith) lt) refl)
  ])
]

pub claim-Claimed : (l : Lobby) (a : String) → Inv l → Claimed l a (claim l a).0 (claim l a).1
unfolding claim
claim-Claimed l a v = elim (Bool-cases (a == "")) [
  | inl e ↦ rw e (invalid invalid_account (ground (arith, eq_iff a "")) refl (λ x. cc))
  | inr e ↦ rw e (elim (Option-cases (get l.by_account a)) [
    | inl n ↦ rw n (claim_new-Claimed l a v n)
    | inr (s, h) ↦ rw h (keeps s h refl)
  ])
]

takes-Inv :
    (l : Lobby) (a : String) (s : ℕ)
    → Inv l
    → get l.by_account a ≡ none
    → get l.slots s ≡ none
    → s < l.capacity
    → Inv (record l { slots = put l.slots s a; by_account = put l.by_account a s })
takes-Inv l a s v none_held free below = record {
  unique = put-IsUnique l.slots s a v.unique;
  held = λ b t h.
      ground (arith, get-put l.by_account a b s, get-put l.slots s t a, eq_iff a b, v.held b t);
  holder = λ t b h.
      ground (arith, get-put l.by_account a b s, get-put l.slots s t a, eq_iff a b, v.holder t b);
}

Claimed-Inv : {l m : Lobby} {a : String} {r : Result CoreError ℕ} → Claimed l a m r → Inv l → Inv m
Claimed-Inv (invalid e _ q _) v = subst Inv (sym q) v
Claimed-Inv (keeps s _ q) v = subst Inv (sym q) v
Claimed-Inv (full _ _ q) v = subst Inv (sym q) v
Claimed-Inv {l} {a} (takes s n f b _ q) v = subst Inv (sym q) (takes-Inv l a s v n f b)

-- Claim keeps the two maps inverse to each other.
pub claim-Inv : (l : Lobby) (a : String) → Inv l → Inv (claim l a).0
claim-Inv l a v = Claimed-Inv (claim-Claimed l a v) v

-- A release that is refused changes nothing; otherwise the account held a slot, and both go.
pub data Released (l : Lobby) (a : String) (m : Lobby) : Option CoreError → Type 0 where
  refuses :
      (e : CoreError) → (a ≡ "") ⊎ (get l.by_account a ≡ none) → m ≡ l → Released l a m (some e)
  frees :
      (s : ℕ)
      → get l.by_account a ≡ some s
      → m ≡ record l { by_account = delete l.by_account a; slots = delete l.slots s }
      → Released l a m none

pub release-Released : (l : Lobby) (a : String) → Released l a (release l a).0 (release l a).1
unfolding release
release-Released l a = elim (Bool-cases (a == "")) [
  | inl e ↦ rw e (refuses invalid_account (inl (ground (arith, eq_iff a ""))) refl)
  | inr e ↦ rw e (elim (Option-cases (get l.by_account a)) [
    | inl n ↦ rw n (refuses no_slot_claimed (inr n) refl)
    | inr (s, h) ↦ rw h (frees s h refl)
  ])
]

frees-Inv :
    (l : Lobby) (a : String) (s : ℕ)
    → Inv l
    → get l.by_account a ≡ some s
    → Inv (record l { by_account = delete l.by_account a; slots = delete l.slots s })
frees-Inv l a s v e = record {
  unique = delete-IsUnique l.slots s v.unique;
  held = λ b t h. ground (
    arith,
    get-delete l.by_account a b,
    get-delete l.slots s t,
    eq_iff a b,
    v.held b t,
    v.held a s,
  );
  holder = λ t b h.
      ground (arith, get-delete l.by_account a b, get-delete l.slots s t, eq_iff a b, v.holder t b);
}

-- So does Release.
pub release-Inv : (l : Lobby) (a : String) → Inv l → Inv (release l a).0
release-Inv l a v = go (release-Released l a)
  where
    go : {m : Lobby} {r : Option CoreError} → Released l a m r → Inv m
    go (refuses e _ q) = subst Inv (sym q) v
    go (frees s h q) = subst Inv (sym q) (frees-Inv l a s v h)

-- The number of entries never passes the capacity.
pub occupied-le-capacity : (l : Lobby) → Inv l → length l.slots.entries ≤ l.capacity
unfolding get
occupied-le-capacity l v =
    length-le_of_below l.capacity l.slots.entries v.unique
      (λ i a h. (v.held a i (v.holder i a h)).1)
