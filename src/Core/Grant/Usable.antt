-- ===== src/Core/Grant/Usable.antt =====
-- core/grant.go: a grant between its mint and its expiry.
use text.Mathlib.TextLemmas.{append-eq-nil_iff}
use fraglands.Prelude.{
  ℕ, ◌+◌, ◌<◌, String, ◌≡◌, ◌≢◌, refl, sym, subst, ap, Bool, true, false, Option, none, some, List,
  [], ◌∷◌, arith, eq_iff, string_eq, beq_self, ◌==◌, if◌then◌else◌,
}
use fraglands.Prelude.Dict.{get, get-put}
use fraglands.Core.Errors.{ok}
use fraglands.Core.Grant.{Authority, GrantRecord, ReplayGrant, Crypto, verify, mint, token_of}
use fraglands.Core.Grant.Verify.{IsMinted, fresh_record, verify_complete, mint-IsMinted}
use fraglands.Core.Grant.History.{
  Event, minted, accepted, refused, revoked, Effect, binds, spends, leaves, ignores, voids, Reach,
  here, next, mints, Step-Effect, times_accepted,
}
use fraglands.Core.Grant.Linked.{IsLinked, IsEmpty, IsEmpty-IsLinked, Reach-IsLinked}

-- No Revoke for the preparation.
abbrev pub never_revoked : String → List Event → Bool
never_revoked p [] = true
never_revoked p (revoked q ∷ es) = if q == p then false else never_revoked p es
never_revoked p (_ ∷ es) = never_revoked p es

-- One call that does not touch the grant leaves its record.
Effect-untouched :
    (es : List Event) (a b : Authority) (e : Event) (t : String) (rec : GrantRecord)
    → Effect a b e
    → IsLinked a
    → get a.grants t ≡ some rec
    → times_accepted t (e ∷ es) ≡ 0
    → never_revoked rec.preparation_id (e ∷ es) ≡ true
    → get b.grants t ≡ some rec
Effect-untouched es a b (minted n g) t rec (binds _ p o r _ m fresh) l s u v =
    rw m.stored
      (ground (arith, get-put a.grants g.token t (fresh_record g), eq_iff g.token t, fresh, s))
Effect-untouched es a b (accepted n req) t rec (spends _ _ old met e) l s u v =
    rw e (ground (arith, get-put a.grants req.grant t (record old { used = true })))
Effect-untouched es a b (refused x) t rec (leaves _ e) l s u v = rw e s
Effect-untouched es a b (revoked p) t rec (ignores _ e) l s u v = rw e s
Effect-untouched es a b (revoked p) t rec (voids _ k old i k_stored unused e) l s u v = rw e (
    ground (
      arith,
      get-put a.grants k t (record old { revoked = true }),
      eq_iff k t,
      eq_iff p rec.preparation_id,
      l p k i,
    ))

untouched-tail :
    (e : Event) (es : List Event) (t p : String)
    → times_accepted t (e ∷ es) ≡ 0
    → never_revoked p (e ∷ es) ≡ true
    → (times_accepted t es ≡ 0) × (never_revoked p es ≡ true)
untouched-tail e es t p u v = ground arith

Reach-untouched :
    (c : Crypto) (a : Authority) {b : Authority} {es : List Event} (t : String) (rec : GrantRecord)
    → Reach c a es b
    → IsLinked a
    → get a.grants t ≡ some rec
    → times_accepted t es ≡ 0
    → never_revoked rec.preparation_id es ≡ true
    → get b.grants t ≡ some rec
Reach-untouched c a t rec here l s u v = s
Reach-untouched c a t rec (next {es} {a = m} {b} {e} r st) l s u v =
    let (u', v') = untouched-tail e es t rec.preparation_id u v in
    Effect-untouched es m b e t rec (Step-Effect c st) (Reach-IsLinked c l r)
      (Reach-untouched c a t rec r l s u' v') u v

-- A token is never the empty text, which Verify refuses: it holds a dot.
token_of-ne-nil :
    (c : Crypto) (a : Authority) (bytes : List ℕ) (p o r : String) (expires : ℕ)
    → token_of c a bytes p o r expires ≢ ""
unfolding token_of
token_of-ne-nil c a bytes p o r expires h =
    let dot = append-eq-nil_iff.0 (append-eq-nil_iff.0 h).1 in cc (dot.0)

mint-token-ne-nil :
    (c : Crypto) (random : Option (List ℕ)) (now : ℕ) (a b : Authority) (p o r : String)
    (g : ReplayGrant)
    → mint c random now a p o r ≡ (b, ok g)
    → g.token ≢ ""
unfolding mint
mint-token-ne-nil c none now a b p o r g h n = ground arith
mint-token-ne-nil c (some bytes) now a b p o r g h n =
    ground (arith, token_of-ne-nil c a bytes p o r (now + a.ttl))

-- A grant that was minted in a history of a new authority, and since then neither accepted nor
-- revoked, is accepted for its preparation and its replay at any time before it expires.
pub minted_is_usable :
    (c : Crypto) (start a b d : Authority) (before after : List Event) (random : Option (List ℕ))
    (issued now : ℕ) (p o r : String) (g : ReplayGrant)
    → IsEmpty start
    → Reach c start before a
    → mint c random issued a p o r ≡ (b, ok g)
    → get a.grants g.token ≡ none
    → Reach c b after d
    → times_accepted g.token after ≡ 0
    → never_revoked p after ≡ true
    → now < issued + a.ttl
    → (verify now d (record { preparation_id = p; replay_id = r; grant = g.token })).1 ≡ none
minted_is_usable c start a b d before after random issued now p o r g e r₁ h fresh r₂ u v early =
    verify_complete now d _ (fresh_record g) (record {
      presented = mint-token-ne-nil c random issued a b p o r g h;
      stored =
          Reach-untouched c b g.token (fresh_record g) r₂ linked
            (rw m.stored (rw get-put (rw beq_self))) u (rw m.bound.0 v);
      same_preparation = sym m.bound.0;
      same_replay = sym m.bound.2;
      live = refl;
      unused = refl;
      early = omega (arith, m.expiry);
    })
  where
    m : IsMinted issued a p o r g b
    m =
        subst (IsMinted issued a p o r g) (ap (λ x. x.0) h)
          (mint-IsMinted c random issued a p o r g (ap (λ x. x.1) h))

    linked : IsLinked b
    linked =
        Reach-IsLinked c (IsEmpty-IsLinked start e) (next r₁ (mints random issued p o r g h fresh))
