-- ===== src/Core/Grant/Linked.antt =====
-- core/grant.go: the index of the preparations and the records, in a history from empty maps.
use fraglands.Prelude.{
  ℕ, String, ◌≡◌, ◌≢◌, sym, subst, ◌∙◌, ap, inl, inr, none, some, List, arith, eq_iff, string_eq,
  ◌==◌, Option-cases, Bool-cases, if◌then◌else◌,
}
use fraglands.Prelude.Dict.{get, empty, get-put, get-empty}
use fraglands.Core.Grant.{Authority, GrantRecord, ReplayGrant, Crypto, revoke}
use fraglands.Core.Grant.Verify.{IsMinted, fresh_record}
use fraglands.Core.Grant.History.{
  Event, Effect, binds, spends, leaves, ignores, voids, Reach, here, next, Step-Effect,
  Effect-Keeps, Keeps,
}

-- The index of the preparations and the records belong together.
abbrev pub IsLinked : Authority → Type 0
IsLinked a =
    (p t : String)
    → get a.by_preparation p ≡ some t
    → (rec : GrantRecord) × (get a.grants t ≡ some rec) × (rec.preparation_id ≡ p)

Keeps-IsLinked :
    (a b : Authority)
    → b.by_preparation ≡ a.by_preparation
    → Keeps a.grants b.grants
    → IsLinked a
    → IsLinked b
Keeps-IsLinked a b same k l p t h =
    let (rec, stored, owned) = l p t (subst (λ d. get d p ≡ some t) same h) in
    let (rec', stored', follows) = k t rec stored in (rec', stored', follows.0 ∙ owned)

binds-IsLinked :
    (now : ℕ) (a b : Authority) (p o r : String) (g : ReplayGrant)
    → IsMinted now a p o r g b
    → Keeps a.grants b.grants
    → IsLinked a
    → IsLinked b
binds-IsLinked now a b p o r g m k l q t h = elim (Bool-cases (p == q)) [
  | inl same ↦ (
    fresh_record g,
    rw m.stored
        (ground (arith, index q, get-put a.grants g.token t (fresh_record g), eq_iff g.token t, h)),
    ground (arith, m.bound, eq_iff p q),
  )
  | inr other ↦
      let (rec, stored, owned) = l q t (ground (arith, index q, h)) in
      let (rec', stored', follows) = k t rec stored in (rec', stored', follows.0 ∙ owned)
]
  where
    index :
        (j : String)
        → get b.by_preparation j ≡ (if p == j then some g.token else get a.by_preparation j)
    index j = rw m.indexed (get-put a.by_preparation p j g.token)

Effect-IsLinked : {a b : Authority} {e : Event} → Effect a b e → IsLinked a → IsLinked b
Effect-IsLinked {a} {b} (binds now p o r g m fresh) l =
    binds-IsLinked now a b p o r g m (Effect-Keeps {a = a} {b = b} (binds now p o r g m fresh)) l
Effect-IsLinked {a} {b} (spends now req rec met e) l =
    Keeps-IsLinked a b (ap (λ (x : Authority). x.by_preparation) e)
      (Effect-Keeps {a = a} {b = b} (spends now req rec met e)) l
Effect-IsLinked {a} {b} (leaves x e) l = subst IsLinked (sym e) l
Effect-IsLinked {a} {b} (ignores p e) l = subst IsLinked (sym e) l
Effect-IsLinked {a} {b} (voids p t rec i s u e) l =
    Keeps-IsLinked a b (ap (λ (x : Authority). x.by_preparation) e)
      (Effect-Keeps {a = a} {b = b} (voids p t rec i s u e)) l

abbrev pub IsEmpty : Authority → Type 0
IsEmpty a = (a.grants ≡ empty) × (a.by_preparation ≡ empty)

pub Reach-IsLinked :
    (c : Crypto) {a b : Authority} {es : List Event} → IsLinked a → Reach c a es b → IsLinked b
Reach-IsLinked c l here = l
Reach-IsLinked c l (next r st) = Effect-IsLinked (Step-Effect c st) (Reach-IsLinked c l r)

pub IsEmpty-IsLinked : (a : Authority) → IsEmpty a → IsLinked a
IsEmpty-IsLinked a e p t h =
    absurd (ground (arith, ap (λ d. get d p) e.1, get-empty {V = String} p))

-- Revoke never reads a missing record, whatever has happened since the authority was built.
pub revoke_never_panics :
    (c : Crypto) (start a : Authority) (es : List Event) (p : String)
    → IsEmpty start
    → Reach c start es a
    → revoke a p ≢ none
unfolding revoke
revoke_never_panics c start a es p e r h = elim (Option-cases (get a.by_preparation p)) [
  | inl n ↦ ground arith
  | inr (t, i) ↦
      let (rec, stored, _) = Reach-IsLinked c (IsEmpty-IsLinked start e) r p t i in ground arith
]
