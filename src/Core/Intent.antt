-- ===== src/Core/Intent.antt =====
-- core/join-intent.go: a one-use intent to join a revision on a process generation.
use fraglands.Prelude.{
  ℕ, suc, ◌≤◌, String, ◌≡◌, ◌≢◌, refl, Bool, true, false, not, Option, none, some, List, [], ◌∷◌,
  ◌==◌, nat_eq, string_eq, eq_iff, if◌then◌else◌, arith,
}
use fraglands.Core.Errors.{
  CoreError, intent_already_used, revision_mismatch, generation_mismatch, steam_id_already_bound,
}

pub record JoinIntent : Type 0 where
  pub id : String
  pub account_id : String
  pub steam_id : ℕ
  pub revision_id : String
  pub generation : ℕ
  pub used : Bool

-- NewJoinIntent
abbrev pub new : String → String → ℕ → String → ℕ → JoinIntent
new id account steam revision generation = record {
  id = id;
  account_id = account;
  steam_id = steam;
  revision_id = revision;
  generation = generation;
  used = false;
}

-- Consume
unfoldable pub consume : JoinIntent → String → ℕ → ℕ → JoinIntent × Option CoreError
consume j revision generation steam =
    if j.used
    then (j, some intent_already_used)
    else if not (j.revision_id == revision)
    then (j, some revision_mismatch)
    else if not (j.generation == generation)
    then (j, some generation_mismatch)
    else if not (j.steam_id == steam)
    then (j, some steam_id_already_bound)
    else (record j { used = true }, none)

-- A presentation of an intent: the revision, the generation and the Steam identity.
pub record Presented : Type 0 where
  pub revision_id : String
  pub generation : ℕ
  pub steam_id : ℕ

-- The number of presentations, in this order, that are accepted.
pub accepted_count : JoinIntent → List Presented → ℕ
accepted_count j [] = 0
accepted_count j (p ∷ ps) =
    let (j', e) = consume j p.revision_id p.generation p.steam_id in
    let rest = accepted_count j' ps in elim e [ none ↦ suc rest | some _ ↦ rest ]

used_accepts_none : (j : JoinIntent) (ps : List Presented) → j.used ≡ true → accepted_count j ps ≡ 0
unfolding accepted_count consume
used_accepts_none j [] h = refl
used_accepts_none j (p ∷ ps) h = ground (arith, used_accepts_none j ps)

-- Whatever is presented, and however often, an intent is accepted at most once.
pub consumed_at_most_once : (j : JoinIntent) (ps : List Presented) → accepted_count j ps ≤ 1
unfolding accepted_count consume
consumed_at_most_once j [] = omega arith
consumed_at_most_once j (p ∷ ps) =
    ground (arith, consumed_at_most_once j ps, used_accepts_none (record j { used = true }) ps)

-- Consume accepts exactly an unused intent presented with its own revision, generation and Steam
-- identity; it then marks it used, and a refusal leaves it as it was.
pub consume_exact :
    (j : JoinIntent) (revision : String) (generation steam : ℕ)
    → let (j', e) = consume j revision generation steam in
      (e ≡ none
        → (j.used ≡ false)
          × (j.revision_id ≡ revision)
          × (j.generation ≡ generation)
          × (j.steam_id ≡ steam)
          × (j' ≡ record j { used = true }))
      × (e ≢ none → j' ≡ j)
      × (j.used ≡ false
          → j.revision_id ≡ revision
          → j.generation ≡ generation
          → j.steam_id ≡ steam
          → e ≡ none)
unfolding consume
consume_exact j revision generation steam = ground (arith, eq_iff j.revision_id revision)
