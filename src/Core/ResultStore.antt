-- ===== src/Core/ResultStore.antt =====
-- core/result.go: the private results, one for each account, process generation and attempt.
mod Tests
use fraglands.Prelude.{
  ℕ, String, ◌≡◌, ◌≢◌, ◌↔◌, refl, sym, subst, ◌∙◌, Bool, true, false, ◌&&◌, Option, none, some,
  List, [], ◌∷◌, Eq, ◌==◌, nat_eq, string_eq, eq_iff, nat_beq_iff, beq_self, Option-cases,
  Bool-cases, inl, inr, if◌then◌else◌, arith,
}
use fraglands.Prelude.Dict.{Dict, empty, get, put, get-put}
use fraglands.Core.Errors.{
  CoreError, Result, ok, err, nil_result, result_already_accepted, no_result,
}

pub record AttemptResult : Type 0 where
  pub id : String
  pub account_id : String
  pub revision_id : String
  pub process_generation : ℕ
  pub attempt_generation : ℕ
  pub replay_id : String
  pub takeover_tick : ℕ

-- resultKey
pub record ResultKey : Type 0 where
  pub account_id : String
  pub process_generation : ℕ
  pub attempt_generation : ℕ

abbrev pub key_beq : ResultKey → ResultKey → Bool
key_beq k j =
    k.account_id == j.account_id
    && (k.process_generation == j.process_generation
        && k.attempt_generation == j.attempt_generation)

pub key_beq_iff : (k j : ResultKey) → (key_beq k j ≡ true) ↔ (k ≡ j)
key_beq_iff k j = ground (arith, eq_iff k.account_id j.account_id)

instance abbrev pub key_eq : Eq ResultKey
key_eq = record { beq = key_beq; beq_iff = key_beq_iff }

pub record ResultStore : Type 0 where
  pub results : Dict ResultKey AttemptResult

-- NewResultStore
abbrev pub new : ResultStore
new = record { results = empty }

abbrev pub key_of : AttemptResult → ResultKey
key_of r = record {
  account_id = r.account_id;
  process_generation = r.process_generation;
  attempt_generation = r.attempt_generation;
}

-- Accept; `none` is a nil result.
unfoldable pub accept : ResultStore → Option AttemptResult → ResultStore × Option CoreError
accept s none = (s, some nil_result)
accept s (some r) = elim (get s.results (key_of r)) [
  | some _ ↦ (s, some result_already_accepted)
  | none ↦ (record { results = put s.results (key_of r) r }, none)
]

-- Lookup
unfoldable pub lookup : ResultStore → String → ℕ → ℕ → Result CoreError AttemptResult
lookup s account process attempt =
    elim (get s.results (record {
      account_id = account;
      process_generation = process;
      attempt_generation = attempt;
    })) [ none ↦ err no_result | some r ↦ ok r ]

-- What the store holds of a key after Accept: what it held, or the result if it held nothing.
pub get-accept :
    (s : ResultStore) (r : AttemptResult) (k : ResultKey)
    → get (accept s (some r)).0.results k ≡ (elim (get s.results k) [
      | some old ↦ some old
      | none ↦ if key_of r == k then some r else none
    ])
unfolding accept
get-accept s r k = ground (arith, get-put s.results (key_of r) k r, key_beq_iff (key_of r) k)

pub accept_all : ResultStore → List AttemptResult → ResultStore
accept_all s [] = s
accept_all s (r ∷ rs) = accept_all (accept s (some r)).0 rs

held-accept_all :
    (s : ResultStore) (rs : List AttemptResult) (k : ResultKey) (old : AttemptResult)
    → get s.results k ≡ some old
    → get (accept_all s rs).results k ≡ some old
unfolding accept_all
held-accept_all s [] k old h = h
held-accept_all s (r ∷ rs) k old h =
    held-accept_all (accept s (some r)).0 rs k old (ground (arith, get-accept s r k))

pub lookup-held :
    (s : ResultStore) (r : AttemptResult)
    → get s.results (key_of r) ≡ some r
    → lookup s r.account_id r.process_generation r.attempt_generation ≡ ok r
unfolding lookup
lookup-held s r h = ground arith

accept-held :
    (s : ResultStore) (again old : AttemptResult) (k : ResultKey)
    → key_of again ≡ k
    → get s.results k ≡ some old
    → accept s (some again) ≡ (s, some result_already_accepted)
unfolding accept
accept-held s again old k same h =
    let x : get s.results (key_of again) ≡ some old =
      subst (λ j. get s.results j ≡ some old) (sym same) h in
    ground arith

-- A result that is accepted stays the one that Lookup returns for its account, process generation
-- and attempt generation, whatever is offered later; a second result for them is refused.
pub accepted_stays :
    (s : ResultStore) (r : AttemptResult) (later : List AttemptResult) (again : AttemptResult)
    → (accept s (some r)).1 ≡ none
    → key_of again ≡ key_of r
    → let t = accept_all (accept s (some r)).0 later in
      (lookup t r.account_id r.process_generation r.attempt_generation ≡ ok r)
      × (accept t (some again) ≡ (t, some result_already_accepted))
accepted_stays s r later again h same =
    let kept = held-accept_all (accept s (some r)).0 later (key_of r) r (stored h) in
    (
      lookup-held (accept_all (accept s (some r)).0 later) r kept,
      accept-held (accept_all (accept s (some r)).0 later) again r (key_of r) same kept,
    )
  where
    stored : (accept s (some r)).1 ≡ none → get (accept s (some r)).0.results (key_of r) ≡ some r
    stored x =
        unfold accept in
        ground (arith, get-put s.results (key_of r) (key_of r) r, key_beq_iff (key_of r) (key_of r))
