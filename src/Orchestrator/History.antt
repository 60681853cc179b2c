-- ===== src/Orchestrator/History.antt =====
-- The histories of an orchestrator: its handlers in any order, and what each does to the intents and
-- the admissions.
use fraglands.Prelude.{
  ℕ, suc, String, ◌≡◌, refl, subst, ◌⊎◌, inl, inr, Bool, true, false, Option, none, some, List,
  ◌==◌, string_eq, nat_eq, arith, Option-cases, Bool-cases,
}
use fraglands.Prelude.Dict.{get, put}
use fraglands.Core.Errors.{Result, ok, err}
use fraglands.Core.Account.{Account}
use fraglands.Core.Grant.{Crypto}
use fraglands.Core.Lease.{ServerParticipant, commit_lease, commit_if}
use fraglands.Core.Intent.{JoinIntent, consume}
use fraglands.Core.ResultStore.{AttemptResult}
use fraglands.Core.Scenario.{Revision}
use fraglands.Core.Preparation.{Preparation}
use fraglands.Orchestrator.{OrchestratorError, AllocatedProcess, Orchestrator, admission_key_eq}
use fraglands.Orchestrator.Scenario.{prepare, run_preparer, cancel_preparation}
use fraglands.Orchestrator.Claim.{claim, release, invite, claim_authorized, claim_slot}
use fraglands.Orchestrator.Join.{
  JoinTarget, intent_id, store_intent, issue_join_intent, admit, consume_join_intent,
}
use fraglands.Orchestrator.Server.{
  ServerAuthority, accept_result_fenced, commit_result, store_result,
}

-- One handler.
pub data Step (c : Crypto) (o t : Orchestrator) : Type 0 where
  prepares :
      (random : Option (List ℕ)) (now : ℕ) (p : Option Account) (replay : String)
      (lead_in takeover : ℕ)
      → (prepare c random now o p replay lead_in takeover).0 ≡ t
      → Step c o t
  runs :
      (preparer : Preparation → Preparation)
      (allocate : Option Revision → Result String AllocatedProcess) (id : String)
      → run_preparer preparer allocate o id ≡ some t
      → Step c o t
  cancels :
      (p : Option Account) (id : String) (e : Option OrchestratorError)
      → cancel_preparation o p id ≡ some (t, e)
      → Step c o t
  claims : (p : Option Account) (id : String) → (claim o p id).0 ≡ t → Step c o t
  releases : (p : Option Account) (id : String) → (release o p id).0 ≡ t → Step c o t
  invites :
      (random : Option String) (now : ℕ) (p : Option Account) (id account : String)
      → (invite random now o p id account).0 ≡ t
      → Step c o t
  redeems :
      (now : ℕ) (p : Option Account) (id token : String)
      → (claim_authorized now o p id token).0 ≡ t
      → Step c o t
  issues :
      (p : Option Account) (id : String) (r : Result OrchestratorError JoinTarget)
      → issue_join_intent o p id ≡ some (t, r)
      → Step c o t
  consumes :
      (p : Option ServerParticipant) (id revision : String) (steam : ℕ)
      → (consume_join_intent o p id revision steam).0 ≡ t
      → Step c o t
  accepts :
      (fence : Bool) (servers : ServerAuthority) (p : Option ServerParticipant)
      (r : Option AttemptResult)
      → (accept_result_fenced fence servers o p r).0 ≡ t
      → Step c o t

pub data Reach (c : Crypto) (start : Orchestrator) : Orchestrator → Type 0 where
  here : Reach c start start
  next : {o t : Orchestrator} → Reach c start o → Step c o t → Reach c start t

-- The intents, their counter and the admissions are as before.
abbrev Same : Orchestrator → Orchestrator → Type 0
Same o t = (t.intents ≡ o.intents) × (t.admissions ≡ o.admissions) × (t.intent_seq ≡ o.intent_seq)

-- What a handler does to the intents and the admissions.
pub data Effect (o t : Orchestrator) : Type 0 where
  leaves : Same o t → Effect o t
  adds :
      (j : JoinIntent)
      → t.intents ≡ put o.intents (intent_id (suc o.intent_seq)) j
      → t.admissions ≡ o.admissions
      → t.intent_seq ≡ suc o.intent_seq
      → Effect o t
  admits :
      (id : String) (j : JoinIntent)
      → get o.intents id ≡ some j
      → j.used ≡ false
      → t.intents ≡ put o.intents id (record j { used = true })
      → t.admissions
        ≡ put o.admissions
            (record { account_id = j.account_id; process_generation = j.generation })
            (record {
              account_id = j.account_id;
              revision_id = j.revision_id;
              process_generation = j.generation;
            })
      → t.intent_seq ≡ o.intent_seq
      → Effect o t

Same-prepare :
    (c : Crypto) (random : Option (List ℕ)) (now : ℕ) (o : Orchestrator) (p : Option Account)
    (replay : String) (lead_in takeover : ℕ)
    → Same o (prepare c random now o p replay lead_in takeover).0
unfolding prepare
Same-prepare c random now o none replay lead_in takeover = (refl, refl, refl)
Same-prepare c random now o (some p) replay lead_in takeover = ground arith

Same-run :
    (preparer : Preparation → Preparation)
    (allocate : Option Revision → Result String AllocatedProcess) (o t : Orchestrator) (id : String)
    → run_preparer preparer allocate o id ≡ some t
    → Same o t
unfolding run_preparer
Same-run preparer allocate o t id h = ground arith

Same-cancel :
    (o t : Orchestrator) (p : Option Account) (id : String) (e : Option OrchestratorError)
    → cancel_preparation o p id ≡ some (t, e)
    → Same o t
unfolding cancel_preparation
Same-cancel o t none id e h = ground arith
Same-cancel o t (some p) id e h = ground arith

Same-claim : (o : Orchestrator) (p : Option Account) (id : String) → Same o (claim o p id).0
unfolding claim claim_slot
Same-claim o none id = (refl, refl, refl)
Same-claim o (some p) id = ground arith

Same-release : (o : Orchestrator) (p : Option Account) (id : String) → Same o (release o p id).0
unfolding release
Same-release o none id = (refl, refl, refl)
Same-release o (some p) id = ground arith

Same-invite :
    (random : Option String) (now : ℕ) (o : Orchestrator) (p : Option Account) (id account : String)
    → Same o (invite random now o p id account).0
unfolding invite
Same-invite random now o none id account = (refl, refl, refl)
Same-invite random now o (some p) id account = ground arith

Same-redeem :
    (now : ℕ) (o : Orchestrator) (p : Option Account) (id token : String)
    → Same o (claim_authorized now o p id token).0
unfolding claim_authorized claim_slot
Same-redeem now o none id token = (refl, refl, refl)
Same-redeem now o (some p) id token = ground arith

Same-accept :
    (fence : Bool) (servers : ServerAuthority) (o : Orchestrator) (p : Option ServerParticipant)
    (r : Option AttemptResult)
    → Same o (accept_result_fenced fence servers o p r).0
unfolding accept_result_fenced commit_result store_result commit_lease commit_if
Same-accept fence servers o none r = (refl, refl, refl)
Same-accept fence servers o (some p) none = (refl, refl, refl)
Same-accept fence servers o (some p) (some r) = ground arith

issue-Effect :
    (o t : Orchestrator) (p : Option Account) (id : String)
    (r : Result OrchestratorError JoinTarget)
    → issue_join_intent o p id ≡ some (t, r)
    → (Same o t)
      ⊎ ((j : JoinIntent) × (t.intents ≡ put o.intents (intent_id (suc o.intent_seq)) j)
          × (t.admissions ≡ o.admissions)
          × (t.intent_seq ≡ suc o.intent_seq))
unfolding issue_join_intent store_intent
issue-Effect o t none id r h = inl (ground arith)
issue-Effect o t (some p) id (err e) h = inl (ground arith)
issue-Effect o t (some p) id (ok target) h =
    inr (target.intent, ground arith, ground arith, ground arith)

consume-Effect :
    (o : Orchestrator) (p : Option ServerParticipant) (id revision : String) (steam : ℕ)
    → Effect o (consume_join_intent o p id revision steam).0
unfolding consume_join_intent admit consume
consume-Effect o none id revision steam = leaves (refl, refl, refl)
consume-Effect o (some p) id revision steam = elim (Option-cases (get o.intents id)) [
  | inl e ↦ leaves (ground arith)
  | inr (j, e) ↦ elim (Option-cases (admit o id j revision p.process_generation steam).1) [
    | inl done ↦ elim (Bool-cases (j.generation == p.process_generation)) [
      | inl same ↦ admits id j e (ground arith) (ground arith) (ground arith) (ground arith)
      | inr other ↦ leaves (ground arith)
    ]
    | inr (x, failed) ↦ leaves (ground arith)
  ]
]

pub Step-Effect : (c : Crypto) {o t : Orchestrator} → Step c o t → Effect o t
Step-Effect c {o} (prepares random now p replay l k h) =
    leaves (subst (Same o) h (Same-prepare c random now o p replay l k))
Step-Effect c {o} {t} (runs preparer allocate id h) = leaves (Same-run preparer allocate o t id h)
Step-Effect c {o} {t} (cancels p id e h) = leaves (Same-cancel o t p id e h)
Step-Effect c {o} (claims p id h) = leaves (subst (Same o) h (Same-claim o p id))
Step-Effect c {o} (releases p id h) = leaves (subst (Same o) h (Same-release o p id))
Step-Effect c {o} (invites random now p id a h) =
    leaves (subst (Same o) h (Same-invite random now o p id a))
Step-Effect c {o} (redeems now p id token h) =
    leaves (subst (Same o) h (Same-redeem now o p id token))
Step-Effect c {o} {t} (issues p id r h) = elim (issue-Effect o t p id r h) [
  | inl same ↦ leaves same
  | inr (j, a, b, d) ↦ adds j a b d
]
Step-Effect c {o} (consumes p id revision steam h) =
    subst (Effect o) h (consume-Effect o p id revision steam)
Step-Effect c {o} (accepts fence servers p r h) =
    leaves (subst (Same o) h (Same-accept fence servers o p r))
