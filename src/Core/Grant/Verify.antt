-- ===== src/Core/Grant/Verify.antt =====
-- What one call of Verify, Mint or Revoke does.
use fraglands.Prelude.{
  ℕ, ◌+◌, ◌<◌, String, ◌≡◌, ◌≢◌, true, false, Option, none, some, List, arith, eq_iff, string_eq,
  beq_self, ◌↔◌, ◌==◌, Option-cases, inl, inr,
}
use fraglands.Prelude.Dict.{get, put, get-put}
use fraglands.Core.Errors.{CoreError, ok, err, is_grant_refusal, grant_already_minted}
use fraglands.Core.Grant.{Authority, GrantRecord, ReplayGrant, ReplayRequest, Crypto, verify, mint}

-- What a request must meet to be accepted: an independent statement of the contract.
pub record IsRedeemable (now : ℕ) (a : Authority) (req : ReplayRequest) (rec : GrantRecord)
    : Type 0 where
  pub presented : req.grant ≢ ""
  pub stored : get a.grants req.grant ≡ some rec
  pub same_preparation : req.preparation_id ≡ rec.preparation_id
  pub same_replay : req.replay_id ≡ rec.replay_id
  pub live : rec.revoked ≡ false
  pub unused : rec.used ≡ false
  pub early : now < rec.expires

-- The three comparisons of a request with the record of its grant.
abbrev Tests : ReplayRequest → GrantRecord → Type 0
Tests req rec =
    (((req.grant == "") ≡ true) ↔ (req.grant ≡ ""))
    × (((req.preparation_id == rec.preparation_id) ≡ true)
        ↔ (req.preparation_id ≡ rec.preparation_id))
    × (((req.replay_id == rec.replay_id) ≡ true) ↔ (req.replay_id ≡ rec.replay_id))

Tests-hold : (req : ReplayRequest) (rec : GrantRecord) → Tests req rec
Tests-hold req rec = (eq_iff _ _, eq_iff _ _, eq_iff _ _)

-- An accepted request met the contract, and the acceptance is recorded in its grant and nowhere else.
pub verify_sound :
    (now : ℕ) (a : Authority) (req : ReplayRequest)
    → (verify now a req).1 ≡ none
    → (rec : GrantRecord) × IsRedeemable now a req rec
      × ((verify now a req).0
          ≡ record a { grants = put a.grants req.grant (record rec { used = true }) })
unfolding verify
verify_sound now a req h = elim (Option-cases (get a.grants req.grant)) [
  | inl e ↦ absurd (ground arith)
  | inr (rec, e) ↦ (rec, ground (arith, Tests-hold req rec), ground (arith, Tests-hold req rec))
]

pub verify_complete :
    (now : ℕ) (a : Authority) (req : ReplayRequest) (rec : GrantRecord)
    → IsRedeemable now a req rec
    → (verify now a req).1 ≡ none
unfolding verify
verify_complete now a req rec h = ground (arith, Tests-hold req rec)

-- A refused request changes nothing, and the refusal is one of the five that IsGrantRefusal knows.
pub verify_refused :
    (now : ℕ) (a : Authority) (req : ReplayRequest) (e : CoreError)
    → (verify now a req).1 ≡ some e
    → ((verify now a req).0 ≡ a) × (is_grant_refusal e ≡ true)
unfolding verify is_grant_refusal
verify_refused now a req e h = ground arith

-- The record that a grant is minted with.
abbrev pub fresh_record : ReplayGrant → GrantRecord
fresh_record g = record {
  preparation_id = g.preparation_id;
  owner_account_id = g.owner_account_id;
  replay_id = g.replay_id;
  expires = g.expires;
  used = false;
  revoked = false;
}

-- A grant that Mint returns is bound to what it was asked for, and is what the authority stores.
pub record IsMinted (now : ℕ) (a : Authority) (p o r : String) (g : ReplayGrant) (b : Authority)
    : Type 0 where
  pub complete : (p ≢ "") × (o ≢ "") × (r ≢ "")
  pub bound : (g.preparation_id ≡ p) × (g.owner_account_id ≡ o) × (g.replay_id ≡ r)
  pub expiry : g.expires ≡ now + a.ttl
  pub first : get a.by_preparation p ≡ none
  pub stored : b.grants ≡ put a.grants g.token (fresh_record g)
  pub indexed : b.by_preparation ≡ put a.by_preparation p g.token

module _ (c : Crypto) where
  -- A mint that fails changes nothing.
  pub mint_refused :
      (random : Option (List ℕ)) (now : ℕ) (a : Authority) (p o r : String) (e : CoreError)
      → (mint c random now a p o r).1 ≡ err e
      → (mint c random now a p o r).0 ≡ a
  unfolding mint
  mint_refused random now a p o r e h = ground arith

  pub mint-IsMinted :
      (random : Option (List ℕ)) (now : ℕ) (a : Authority) (p o r : String) (g : ReplayGrant)
      → (mint c random now a p o r).1 ≡ ok g
      → IsMinted now a p o r g (mint c random now a p o r).0
  unfolding mint
  mint-IsMinted random now a p o r g h = ground (arith, eq_iff p "", eq_iff o "", eq_iff r "")

  -- A preparation has one grant: a second mint for it is refused.
  pub mint_twice :
      (random random' : Option (List ℕ)) (now later : ℕ) (a : Authority) (p o r o' r' : String)
      (g : ReplayGrant)
      → (mint c random now a p o r).1 ≡ ok g
      → (o' ≢ "")
      → (r' ≢ "")
      → (mint c random' later (mint c random now a p o r).0 p o' r').1 ≡ err grant_already_minted
  mint_twice random random' now later a p o r o' r' g h ho hr =
      let m = mint-IsMinted random now a p o r g h in
      let b = (mint c random now a p o r).0 in
      let taken : get b.by_preparation p ≡ some g.token = rw m.indexed (rw get-put (rw beq_self)) in
      unfold mint in ground (arith, m.complete, taken, eq_iff p "", eq_iff o' "", eq_iff r' "")
