-- ===== src/Core/Lobby/Slots.antt =====
-- core/lobby.go: the lobby as its callers see it.
use fraglands.Prelude.{
  ℕ, suc, ◌<◌, ◌≤◌, String, ◌≡◌, ◌≢◌, ◌↔◌, refl, subst, ap, inl, inr, Option, none, some, List, [],
  ◌∷◌, ◌==◌, nat_eq, string_eq, if◌then◌else◌, arith, beq_self,
}
use fraglands.Prelude.Int.{ℤ}
use fraglands.Prelude.Dict.{get, get-put, get-delete, size, size-put_absent, size-delete}
use fraglands.Core.Errors.{CoreError, Result, ok, err, lobby_full}
use fraglands.Core.Lobby.{Lobby, new, claim, release, slot, occupied}
use fraglands.Core.Lobby.Claims.{
  Inv, new-Inv, Claimed, invalid, keeps, full, takes, claim-Claimed, claim-Inv, Released, refuses,
  frees, release-Released, release-Inv, occupied-le-capacity,
}

-- Claim is refused as full exactly when the account holds no slot and every slot is taken: the
-- refusal behind the loop is never reached with a free slot left.
pub claim_full_iff :
    (l : Lobby) (a : String)
    → Inv l
    → a ≢ ""
    → ((claim l a).1 ≡ err lobby_full) ↔ ((slot l a ≡ none) × (occupied l ≡ l.capacity))
claim_full_iff l a v named =
    (go₁ (claim-Claimed l a v), go₂ (claim-Claimed l a v) (claim-Inv l a v))
  where
    go₁ :
        {m : Lobby} {r : Result CoreError ℕ}
        → Claimed l a m r
        → r ≡ err lobby_full
        → (slot l a ≡ none) × (occupied l ≡ l.capacity)
    go₁ (invalid e empty _ ne) h = absurd (named empty)
    go₁ (keeps s _ _) h = cc
    go₁ (full n c _) h = (n, omega (arith, occupied-le-capacity l v))
    go₁ (takes s _ _ _ _ _) h = cc

    go₂ :
        {m : Lobby} {r : Result CoreError ℕ}
        → Claimed l a m r
        → Inv m
        → (slot l a ≡ none) × (occupied l ≡ l.capacity)
        → r ≡ err lobby_full
    go₂ (invalid e empty _ ne) w h = absurd (named empty)
    go₂ (keeps s e _) w h = cc (e, h.0)
    go₂ (full n c _) w h = refl
    go₂ {m} (takes s n f b before q) w h = absurd (
        omega (
          arith,
          occupied-le-capacity m w,
          h.1,
          size-put_absent l.slots s a f,
          ap (λ (x : Lobby). size x.slots) q,
          ap (λ (x : Lobby). x.capacity) q,
        ))

-- A claim by an account that holds no slot, where it succeeds, gives the lowest free slot, and
-- changes no other account's slot.
pub claim_lowest :
    (l : Lobby) (a : String) (s : ℕ)
    → Inv l
    → slot l a ≡ none
    → (claim l a).1 ≡ ok s
    → (s < l.capacity)
      × (get l.slots s ≡ none)
      × ((i : ℕ) → i < s → get l.slots i ≢ none)
      × ((b : String) → slot (claim l a).0 b ≡ (if a == b then some s else slot l b))
      × (occupied (claim l a).0 ≡ suc (occupied l))
claim_lowest l a s v n h = go (claim-Claimed l a v) h
  where
    go :
        {m : Lobby} {r : Result CoreError ℕ}
        → Claimed l a m r
        → r ≡ ok s
        → (s < l.capacity)
          × (get l.slots s ≡ none)
          × ((i : ℕ) → i < s → get l.slots i ≢ none)
          × ((b : String) → slot m b ≡ (if a == b then some s else slot l b))
          × (occupied m ≡ suc (occupied l))
    go (invalid e empty _ ne) x = cc
    go (keeps t e _) x = absurd (ground arith)
    go (full _ c _) x = cc
    go {m} (takes t _ f b before q) x =
        let e : t ≡ s = ground arith in
        subst
          (λ k.
            (k < l.capacity)
            × (get l.slots k ≡ none)
            × ((i : ℕ) → i < k → get l.slots i ≢ none)
            × ((b : String) → slot m b ≡ (if a == b then some k else slot l b))
            × (occupied m ≡ suc (occupied l)))
          e
          (
            b,
            f,
            before,
            rw q (λ c. get-put l.by_account a c t),
            rw q (size-put_absent l.slots t a f),
          )

-- Release of a held slot frees just that slot and that account's claim.
pub release_frees :
    (l : Lobby) (a : String) (s : ℕ)
    → Inv l
    → a ≢ ""
    → slot l a ≡ some s
    → ((release l a).1 ≡ none)
      × (get (release l a).0.slots s ≡ none)
      × ((b : String) → slot (release l a).0 b ≡ (if a == b then none else slot l b))
      × (suc (occupied (release l a).0) ≡ occupied l)
release_frees l a s v named h = go (release-Released l a)
  where
    go :
        {m : Lobby} {r : Option CoreError}
        → Released l a m r
        → (r ≡ none)
          × (get m.slots s ≡ none)
          × ((b : String) → slot m b ≡ (if a == b then none else slot l b))
          × (suc (occupied m) ≡ occupied l)
    go (refuses e (inl empty) q) = absurd (named empty)
    go (refuses e (inr n) q) = absurd (ground arith)
    go (frees t f q) =
        let e : t ≡ s = ground arith in
        rw (q, e)
          (
            refl,
            rw get-delete (rw beq_self),
            (λ b. get-delete l.by_account a b),
            size-delete l.slots s a v.unique (v.held a s h).0,
          )

-- The calls of a lobby, in the order in which they take its mutex.
pub data Call : Type 0 where
  claims releases : String → Call

unfoldable pub run : Lobby → List Call → Lobby
run l [] = l
run l (claims a ∷ cs) = run (claim l a).0 cs
run l (releases a ∷ cs) = run (release l a).0 cs

run-Inv : (l : Lobby) (cs : List Call) → Inv l → Inv (run l cs)
unfolding run
run-Inv l [] v = v
run-Inv l (claims a ∷ cs) v = run-Inv (claim l a).0 cs (claim-Inv l a v)
run-Inv l (releases a ∷ cs) v = run-Inv (release l a).0 cs (release-Inv l a v)

-- After any calls on a new lobby no two accounts hold one slot, every held slot is in range, and
-- no more slots are taken than there are.
pub run_exclusive :
    (id : String) (capacity : ℤ) (l : Lobby) (cs : List Call) (a b : String) (s : ℕ)
    → new id capacity ≡ ok l
    → slot (run l cs) a ≡ some s
    → (slot (run l cs) b ≡ some s → a ≡ b)
      × (s < (run l cs).capacity)
      × (occupied (run l cs) ≤ (run l cs).capacity)
run_exclusive id capacity l cs a b s h x =
    let v = run-Inv l cs (new-Inv id capacity l h) in
    (
      (λ y. ground (arith, (v.held a s x).0, (v.held b s y).0)),
      (v.held a s x).1,
      occupied-le-capacity (run l cs) v,
    )
