-- ===== src/Core/Grant/History.antt =====
-- Histories of an authority: any interleaving of mints, verifications and revocations. Each method
-- runs under the authority's lock, so a history is a sequence of whole calls.
use fraglands.Prelude.{
  ℕ, suc, String, ◌≡◌, refl, sym, ◌∙◌, subst, ap, true, false, Option, none, some, List, [], ◌∷◌,
  arith, eq_iff, string_eq, ◌⊎◌, ◌==◌, Option-cases, Bool-cases, inl, inr, if◌then◌else◌,
}
use fraglands.Prelude.Dict.{Dict, get, put, get-put}
use fraglands.Core.Errors.{CoreError, ok, err}
use fraglands.Core.Grant.{
  Authority, GrantRecord, ReplayGrant, ReplayRequest, Crypto, verify, revoke, mint,
}
use fraglands.Core.Grant.Verify.{
  IsRedeemable, IsMinted, fresh_record, verify_sound, verify_refused, mint-IsMinted, mint_refused,
}

pub data Event : Type 0 where
  minted : ℕ → ReplayGrant → Event
  accepted : ℕ → ReplayRequest → Event
  refused : CoreError → Event
  revoked : String → Event

-- One call. A new token is new: 32 random bytes do not repeat, nor does base64 of them.
pub data Step (c : Crypto) (a b : Authority) : Event → Type 0 where
  mints :
      (random : Option (List ℕ)) (now : ℕ) (p o r : String) (g : ReplayGrant)
      → mint c random now a p o r ≡ (b, ok g)
      → get a.grants g.token ≡ none
      → Step c a b (minted now g)
  fails :
      (random : Option (List ℕ)) (now : ℕ) (p o r : String) (e : CoreError)
      → mint c random now a p o r ≡ (b, err e)
      → Step c a b (refused e)
  accepts :
      (now : ℕ) (req : ReplayRequest) → verify now a req ≡ (b, none) → Step c a b (accepted now req)
  rejects :
      (now : ℕ) (req : ReplayRequest) (e : CoreError)
      → verify now a req ≡ (b, some e)
      → Step c a b (refused e)
  revokes : (p : String) → revoke a p ≡ some b → Step c a b (revoked p)

-- The newest event stands first.
pub data Reach (c : Crypto) (start : Authority) : List Event → Authority → Type 0 where
  here : Reach c start [] start
  next :
      {es : List Event} {a b : Authority} {e : Event}
      → Reach c start es a
      → Step c a b e
      → Reach c start (e ∷ es) b

-- The grant is spent: it was used or revoked.
abbrev pub IsSpent : Authority → String → Type 0
IsSpent a t =
    (rec : GrantRecord) × (get a.grants t ≡ some rec) × ((rec.used ≡ true) ⊎ (rec.revoked ≡ true))

-- What a call leaves of the record of a token: it is the same, or is now spent.
abbrev pub Follows : GrantRecord → GrantRecord → Type 0
Follows rec rec' =
    (rec'.preparation_id ≡ rec.preparation_id)
    × (rec'.owner_account_id ≡ rec.owner_account_id)
    × (rec'.replay_id ≡ rec.replay_id)
    × (rec'.expires ≡ rec.expires)
    × (rec.used ≡ true → rec'.used ≡ true)
    × (rec.revoked ≡ true → rec'.revoked ≡ true)

Follows-refl : (rec : GrantRecord) → Follows rec rec
Follows-refl rec = (refl, refl, refl, refl, λ h. h, λ h. h)

-- The grants of `b` hold every record of the grants of `a`, or one that follows it.
abbrev pub Keeps : Dict String GrantRecord → Dict String GrantRecord → Type 0
Keeps d d' =
    (t : String) (rec : GrantRecord)
    → get d t ≡ some rec
    → (rec' : GrantRecord) × (get d' t ≡ some rec') × Follows rec rec'

put-Keeps :
    (d : Dict String GrantRecord) (k : String) (v v' : GrantRecord)
    → get d k ≡ some v
    → Follows v v'
    → Keeps d (put d k v')
put-Keeps d k v v' h f t rec e = elim (Bool-cases (k == t)) [
  | inl same ↦ (v', rw get-put (rw same), subst (λ x. Follows x v') (ground (arith, eq_iff k t)) f)
  | inr other ↦ (rec, rw get-put (rw other e), Follows-refl rec)
]

put_fresh-Keeps :
    (d : Dict String GrantRecord) (k : String) (v : GrantRecord)
    → get d k ≡ none
    → Keeps d (put d k v)
put_fresh-Keeps d k v h t rec e = elim (Bool-cases (k == t)) [
  | inl same ↦ absurd (ground (arith, eq_iff k t))
  | inr other ↦ (rec, rw get-put (rw other e), Follows-refl rec)
]

-- What a call does to the authority, without the code of the call.
pub data Effect (a b : Authority) : Event → Type 0 where
  binds :
      (now : ℕ) (p o r : String) (g : ReplayGrant)
      → IsMinted now a p o r g b
      → get a.grants g.token ≡ none
      → Effect a b (minted now g)
  spends :
      (now : ℕ) (req : ReplayRequest) (rec : GrantRecord)
      → IsRedeemable now a req rec
      → b ≡ record a { grants = put a.grants req.grant (record rec { used = true }) }
      → Effect a b (accepted now req)
  leaves : (e : CoreError) → b ≡ a → Effect a b (refused e)
  ignores : (p : String) → b ≡ a → Effect a b (revoked p)
  voids :
      (p t : String) (rec : GrantRecord)
      → get a.by_preparation p ≡ some t
      → get a.grants t ≡ some rec
      → rec.used ≡ false
      → b ≡ record a { grants = put a.grants t (record rec { revoked = true }) }
      → Effect a b (revoked p)

revoke-Effect : (a b : Authority) (p : String) → revoke a p ≡ some b → Effect a b (revoked p)
unfolding revoke
revoke-Effect a b p h = elim (Option-cases (get a.by_preparation p)) [
  | inl e ↦ ignores p (ground arith)
  | inr (t, e) ↦ elim (Option-cases (get a.grants t)) [
    | inl e' ↦ absurd (ground arith)
    | inr (rec, e') ↦ elim (Bool-cases rec.used) [
      | inl u ↦ ignores p (ground arith)
      | inr u ↦ voids p t rec e e' u (ground arith)
    ]
  ]
]

pub Step-Effect : (c : Crypto) {a b : Authority} {e : Event} → Step c a b e → Effect a b e
Step-Effect c {a} {b} (mints random now p o r g h fresh) =
    binds now p o r g
      (subst (IsMinted now a p o r g) (ap (λ m. m.0) h)
        (mint-IsMinted c random now a p o r g (ap (λ m. m.1) h)))
      fresh
Step-Effect c {a} (fails random now p o r e h) =
    leaves e (sym (ap (λ m. m.0) h) ∙ mint_refused c random now a p o r e (ap (λ m. m.1) h))
Step-Effect c {a} (accepts now req h) =
    let (rec, met, eq) = verify_sound now a req (ap (λ m. m.1) h) in
    spends now req rec met (sym (ap (λ m. m.0) h) ∙ eq)
Step-Effect c {a} (rejects now req e h) =
    leaves e (sym (ap (λ m. m.0) h) ∙ (verify_refused now a req e (ap (λ m. m.1) h)).0)
Step-Effect c {a} {b} (revokes p h) = revoke-Effect a b p h

pub Effect-Keeps : {a b : Authority} {e : Event} → Effect a b e → Keeps a.grants b.grants
Effect-Keeps {a} (binds now p o r g m fresh) =
    rw m.stored (put_fresh-Keeps a.grants g.token (fresh_record g) fresh)
Effect-Keeps {a} (spends now req rec h e) = rw e (
    put-Keeps a.grants req.grant rec (record rec { used = true }) h.stored
      (refl, refl, refl, refl, (λ _. refl), (λ x. x)))
Effect-Keeps (leaves x e) = rw e (λ t rec h. (rec, h, Follows-refl rec))
Effect-Keeps (ignores p e) = rw e (λ t rec h. (rec, h, Follows-refl rec))
Effect-Keeps {a} (voids p t rec _ h _ e) = rw e (
    put-Keeps a.grants t rec (record rec { revoked = true }) h
      (refl, refl, refl, refl, (λ x. x), (λ _. refl)))

pub Keeps-IsSpent :
    (a b : Authority) (t : String) → Keeps a.grants b.grants → IsSpent a t → IsSpent b t
Keeps-IsSpent a b t k (rec, h, spent) =
    let (rec', h', follows) = k t rec h in (rec', h', ground arith)

pub Reach-IsSpent :
    (c : Crypto) {a b : Authority} {es : List Event} (t : String)
    → IsSpent a t
    → Reach c a es b
    → IsSpent b t
Reach-IsSpent c t s here = s
Reach-IsSpent c t s (next {a = m} {b = n} r st) =
    Keeps-IsSpent m n t (Effect-Keeps (Step-Effect c st)) (Reach-IsSpent c t s r)

-- How often a token was accepted.
abbrev pub times_accepted : String → List Event → ℕ
times_accepted t [] = 0
times_accepted t (accepted now req ∷ es) =
    if req.grant == t then suc (times_accepted t es) else times_accepted t es
times_accepted t (_ ∷ es) = times_accepted t es
