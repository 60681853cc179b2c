-- ===== src/Core/Grant/OneUse.antt =====
-- core/grant.go: the acceptances and revocations of one token over a history.
use fraglands.Prelude.{
  ℕ, ◌≤◌, ◌<◌, String, ◌≡◌, ◌≢◌, refl, sym, subst, inl, inr, true, none, some, List, ◌∷◌, arith,
  eq_iff, string_eq, beq_self, ◌==◌, Option-cases, Bool-cases,
}
use fraglands.Prelude.Dict.{get, get-put}
use fraglands.Core.Grant.{Authority, ReplayRequest, Crypto, verify, revoke}
use fraglands.Core.Grant.Verify.{verify_sound}
use fraglands.Core.Grant.History.{
  Event, minted, accepted, Effect, spends, Reach, here, next, IsSpent, Step-Effect, Effect-Keeps,
  Keeps-IsSpent, Reach-IsSpent, times_accepted,
}

-- The token of an accepted request is spent, and was not spent before.
accepted_spends :
    (a b : Authority) (now : ℕ) (req : ReplayRequest)
    → Effect a b (accepted now req)
    → IsSpent b req.grant × ¬ IsSpent a req.grant
accepted_spends a b now req (spends _ _ rec h e) = (
  (record rec { used = true }, rw e (rw get-put (rw beq_self)), inl refl),
  λ s. ground (arith, h.stored, s),
)

-- At most one acceptance so far, and after one the token is spent.
abbrev OnceSpent : String → List Event → Authority → Type 0
OnceSpent t es a = (times_accepted t es ≤ 1) × (0 < times_accepted t es → IsSpent a t)

Effect-OnceSpent :
    (a b : Authority) (t : String) (es : List Event) (e : Event)
    → Effect a b e
    → OnceSpent t es a
    → (0 < times_accepted t es → IsSpent b t)
    → OnceSpent t (e ∷ es) b
Effect-OnceSpent a b t es (accepted now req) f (once, spent) kept =
    elim (Bool-cases (req.grant == t)) [
      | inl same ↦
          let (after, before) = accepted_spends a b now req f in
          let e : req.grant ≡ t = ground (arith, eq_iff req.grant t) in
          let first : ¬ (0 < times_accepted t es) =
            λ h. before (subst (IsSpent a) (sym e) (spent h)) in
          rw same (omega arith, λ _. subst (IsSpent b) e after)
      | inr other ↦ rw other (once, kept)
    ]
Effect-OnceSpent a b t es (minted now g) f (once, spent) kept = (once, kept)
Effect-OnceSpent a b t es _ f (once, spent) kept = (once, kept)

Reach-OnceSpent :
    (c : Crypto) {a b : Authority} {es : List Event} (t : String)
    → Reach c a es b
    → OnceSpent t es b
Reach-OnceSpent c t here = (omega arith, λ h. absurd (omega arith))
Reach-OnceSpent c t (next {es} {a} {b} {e} r st) =
    let (once, spent) = Reach-OnceSpent c t r in
    let f = Step-Effect c st in
    Effect-OnceSpent a b t es e f (once, spent)
      (λ h. Keeps-IsSpent a b t (Effect-Keeps f) (spent h))

-- In any history of an authority, from any state, a token is accepted at most once.
pub accepted_at_most_once :
    (c : Crypto) (start a : Authority) (es : List Event) (t : String)
    → Reach c start es a
    → times_accepted t es ≤ 1
accepted_at_most_once c start a es t r = (Reach-OnceSpent c t r).0

spent_refuses :
    (a : Authority) (now : ℕ) (req : ReplayRequest)
    → IsSpent a req.grant
    → (verify now a req).1 ≢ none
spent_refuses a now req s h =
    let (rec, met, _) = verify_sound now a req h in ground (arith, met.stored, s)

revoke-IsSpent :
    (a b : Authority) (p t : String)
    → get a.by_preparation p ≡ some t
    → revoke a p ≡ some b
    → IsSpent b t
unfolding revoke
revoke-IsSpent a b p t i h = elim (Option-cases (get a.grants t)) [
  | inl e ↦ absurd (ground arith)
  | inr (rec, e) ↦ elim (Bool-cases rec.used) [
    | inl u ↦ (rec, ground arith, inl u)
    | inr u ↦ (
      record rec { revoked = true },
      ground (arith, get-put a.grants t t (record rec { revoked = true }), eq_iff t t),
      inr refl,
    )
  ]
]

-- After Revoke for a preparation, no later request with its token is accepted, whatever happens
-- between.
pub revoked_forever :
    (c : Crypto) (a b d : Authority) (p : String) (es : List Event) (now : ℕ) (req : ReplayRequest)
    → get a.by_preparation p ≡ some req.grant
    → revoke a p ≡ some b
    → Reach c b es d
    → (verify now d req).1 ≢ none
revoked_forever c a b d p es now req i h r =
    spent_refuses d now req (Reach-IsSpent c req.grant (revoke-IsSpent a b p req.grant i h) r)
