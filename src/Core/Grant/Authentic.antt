-- ===== src/Core/Grant/Authentic.antt =====
-- core/grant.go: where the records of an authority come from, in a history from empty maps.
use fraglands.Prelude.{
  ℕ, ◌<◌, String, ◌≡◌, refl, ap, inl, inr, true, none, some, List, [], ◌∷◌, arith, eq_iff,
  string_eq, ◌==◌, Bool-cases, if◌then◌else◌,
}
use mathlib.Core.List.{Memᴰ}
use fraglands.Prelude.Dict.{Dict, get, put, get-put, get-empty}
use fraglands.Core.Grant.{Authority, GrantRecord, ReplayGrant, ReplayRequest, Crypto, verify}
use fraglands.Core.Grant.Verify.{IsMinted, fresh_record, verify_sound}
use fraglands.Core.Grant.History.{
  Event, minted, accepted, refused, revoked, Effect, binds, spends, leaves, ignores, voids, Reach,
  here, next, Step-Effect, Follows,
}
use fraglands.Core.Grant.Linked.{IsEmpty}

-- The record of a token goes back to the mint of that token.
abbrev Origin : List Event → String → GrantRecord → Type 0
Origin es t rec =
    (now : ℕ) × (g : ReplayGrant) × Memᴰ (minted now g) es
    × (g.token ≡ t)
    × (g.preparation_id ≡ rec.preparation_id)
    × (g.owner_account_id ≡ rec.owner_account_id)
    × (g.replay_id ≡ rec.replay_id)
    × (g.expires ≡ rec.expires)

abbrev Originates : List Event → Dict String GrantRecord → Type 0
Originates es d = (t : String) (rec : GrantRecord) → get d t ≡ some rec → Origin es t rec

Origin-older :
    (e : Event) (es : List Event) (t : String) (rec : GrantRecord)
    → Origin es t rec
    → Origin (e ∷ es) t rec
Origin-older e es t rec (now, g, m, rest, r1, r2, r3, r4) =
    (now, g, Memᴰ.tail m, rest, r1, r2, r3, r4)

-- Marking a stored record keeps its origin.
put-Originates :
    (es : List Event) (d : Dict String GrantRecord) (k : String) (v v' : GrantRecord)
    → Originates es d
    → get d k ≡ some v
    → Follows v v'
    → Originates es (put d k v')
put-Originates es d k v v' o h f t rec e = elim (Bool-cases (k == t)) [
  | inl same ↦
      let (now, g, m, r0, r1, r2, r3, r4) = o k v h in
      let x : v' ≡ rec = ground (arith, get-put d k t v', e) in
      (
        now,
        g,
        m,
        ground (arith, eq_iff k t),
        ground (arith, f),
        ground (arith, f),
        ground (arith, f),
        ground (arith, f),
      )
  | inr other ↦ o t rec (ground (arith, get-put d k t v', e))
]

older-Originates :
    (e : Event) (es : List Event) (d : Dict String GrantRecord)
    → Originates es d
    → Originates (e ∷ es) d
older-Originates e es d o t rec h = Origin-older e es t rec (o t rec h)

binds-Originates :
    (es : List Event) (now : ℕ) (a b : Authority) (p o r : String) (g : ReplayGrant)
    → IsMinted now a p o r g b
    → Originates es a.grants
    → Originates (minted now g ∷ es) b.grants
binds-Originates es now a b p o r g m og t rec h = elim (Bool-cases (g.token == t)) [
  | inl same ↦
      let x : fresh_record g ≡ rec = ground (arith, stored t, h) in
      (
        now,
        g,
        Memᴰ.head refl,
        ground (arith, eq_iff g.token t),
        ground arith,
        ground arith,
        ground arith,
        ground arith,
      )
  | inr other ↦ Origin-older (minted now g) es t rec (og t rec (ground (arith, stored t, h)))
]
  where
    stored :
        (j : String)
        → get b.grants j ≡ (if g.token == j then some (fresh_record g) else get a.grants j)
    stored j = rw m.stored (get-put a.grants g.token j (fresh_record g))

Effect-Originates :
    (es : List Event) {a b : Authority} {e : Event}
    → Effect a b e
    → Originates es a.grants
    → Originates (e ∷ es) b.grants
Effect-Originates es {a} {b} (binds now p o r g m fresh) og =
    binds-Originates es now a b p o r g m og
Effect-Originates es {a} (spends now req rec met e) o = rw e (
    older-Originates (accepted now req) es (put a.grants req.grant (record rec { used = true })) (
      put-Originates es a.grants req.grant rec (record rec { used = true }) o met.stored
        (refl, refl, refl, refl, (λ _. refl), (λ x. x))))
Effect-Originates es {a} (leaves x e) o = rw e (older-Originates (refused x) es a.grants o)
Effect-Originates es {a} (ignores p e) o = rw e (older-Originates (revoked p) es a.grants o)
Effect-Originates es {a} (voids p t rec i s u e) o = rw e (
    older-Originates (revoked p) es (put a.grants t (record rec { revoked = true })) (
      put-Originates es a.grants t rec (record rec { revoked = true }) o s
        (refl, refl, refl, refl, (λ x. x), (λ _. refl))))

Reach-Originates :
    (c : Crypto) {a b : Authority} {es : List Event}
    → Originates [] a.grants
    → Reach c a es b
    → Originates es b.grants
Reach-Originates c o here = o
Reach-Originates c o (next {es} r st) =
    Effect-Originates es (Step-Effect c st) (Reach-Originates c o r)

-- A request that is accepted presents a grant that was minted before for just that preparation and
-- that replay, and that has not expired.
pub accepted_was_minted :
    (c : Crypto) (start a : Authority) (es : List Event) (now : ℕ) (req : ReplayRequest)
    → IsEmpty start
    → Reach c start es a
    → (verify now a req).1 ≡ none
    → (issued : ℕ) × (g : ReplayGrant) × Memᴰ (minted issued g) es
      × (g.token ≡ req.grant)
      × (g.preparation_id ≡ req.preparation_id)
      × (g.replay_id ≡ req.replay_id)
      × (now < g.expires)
accepted_was_minted c start a es now req e r h =
    let (rec, met, _) = verify_sound now a req h in
    let nothing : Originates [] start.grants =
      λ t rec' s. absurd (ground (arith, ap (λ d. get d t) e.0, get-empty {V = GrantRecord} t)) in
    let (issued, g, m, tok, r0, r1, r2, r3) =
      Reach-Originates c nothing r req.grant rec met.stored in
    (
      issued,
      g,
      m,
      tok,
      ground (arith, met.same_preparation),
      ground (arith, met.same_replay),
      omega (arith, met.early, r3),
    )
