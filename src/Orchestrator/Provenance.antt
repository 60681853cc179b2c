-- ===== src/Orchestrator/Provenance.antt =====
-- orchestrator/join.go and orchestrator/scenario.go: the one use of an intent, and the origin of an
-- accepted result, over a history.
use fraglands.Prelude.{
  ℕ, String, ◌≡◌, ◌≢◌, refl, subst, inl, inr, Bool, true, Option, none, some, List, string_eq,
  nat_eq, eq_iff, beq_self, arith, Option-cases,
}
use fraglands.Prelude.Dict.{get, get-put}
use fraglands.Core.Grant.{Crypto, Authority}
use fraglands.Core.Lease.{ServerParticipant}
use fraglands.Core.Intent.{JoinIntent, consume}
use fraglands.Core.ResultStore.{AttemptResult}
use fraglands.Orchestrator.{Admission, Orchestrator, ReplaySource, admission_key_eq, initial}
use fraglands.Orchestrator.Join.{admit, consume_join_intent}
use fraglands.Orchestrator.Server.{ServerAuthority, accept_result_fenced}
use fraglands.Orchestrator.History.{Reach, here, next, consumes, Step-Effect}
use fraglands.Orchestrator.Intents.{HasJoined, Inv, initial-Inv, used_stays, Reach-Inv}

-- The participant, and the admission of the result's account on its generation and its revision.
abbrev Admitted : Orchestrator → Option ServerParticipant → AttemptResult → Type 0
Admitted o p r =
    (q : ServerParticipant) × (p ≡ some q)
    × (q.process_generation ≡ r.process_generation)
    × (a : Admission) × (get o.admissions
          (record { account_id = r.account_id; process_generation = r.process_generation })
        ≡ some a)
    × (a.revision_id ≡ r.revision_id)

accept-Admitted :
    (fence : Bool) (servers : ServerAuthority) (o : Orchestrator) (p : Option ServerParticipant)
    (r : AttemptResult)
    → (accept_result_fenced fence servers o p (some r)).1 ≡ none
    → Admitted o p r
unfolding accept_result_fenced
accept-Admitted fence servers o none r h = absurd (ground arith)
accept-Admitted fence servers o (some q) r h =
    elim (Option-cases (
      get o.admissions
        (record { account_id = r.account_id; process_generation = q.process_generation }))) [
          | inl e ↦ absurd (ground arith)
          | inr (a, e) ↦ (
            q,
            refl,
            ground arith,
            a,
            ground arith,
            ground (arith, eq_iff a.revision_id r.revision_id),
          )
        ]

-- In any history of an orchestrator, AcceptResult succeeds only for a participant whose own
-- generation is the result's, and only when a join intent of the result's account was consumed for
-- just that generation and that revision.
pub accepted-HasJoined :
    (c : Crypto) (sources : List ReplaySource) (grants : Authority) (o : Orchestrator)
    (fence : Bool) (servers : ServerAuthority) (p : Option ServerParticipant) (r : AttemptResult)
    → Reach c (initial sources grants) o
    → (accept_result_fenced fence servers o p (some r)).1 ≡ none
    → ((q : ServerParticipant) × (p ≡ some q) × (q.process_generation ≡ r.process_generation))
      × HasJoined o r.account_id r.process_generation r.revision_id
accepted-HasJoined c sources grants o fence servers p r reach h =
    let (q, is, gen, a, stored, rev) = accept-Admitted fence servers o p r h in
    let v = Reach-Inv c (initial-Inv sources grants) reach in
    ((q, is, gen), subst (HasJoined o r.account_id r.process_generation) rev (v.joined _ a stored))

consumed_used :
    (o : Orchestrator) (p : Option ServerParticipant) (id revision : String) (steam : ℕ)
    → (consume_join_intent o p id revision steam).1 ≡ none
    → (j : JoinIntent) × (get (consume_join_intent o p id revision steam).0.intents id ≡ some j)
      × (j.used ≡ true)
unfolding consume_join_intent admit consume
consumed_used o none id revision steam h = absurd (ground arith)
consumed_used o (some p) id revision steam h = elim (Option-cases (get o.intents id)) [
  | inl e ↦ absurd (ground arith)
  | inr (j, e) ↦ (
    record j { used = true },
    ground (arith, get-put o.intents id id (record j { used = true }), beq_self id),
    refl,
  )
]

Reach-used :
    (c : Crypto) {o t : Orchestrator} (id : String) (j : JoinIntent)
    → Reach c o t
    → Inv o
    → get o.intents id ≡ some j
    → j.used ≡ true
    → get t.intents id ≡ some j
Reach-used c id j here v h u = h
Reach-used c id j (next r st) v h u =
    used_stays id j (Step-Effect c st) (Reach-Inv c v r) (Reach-used c id j r v h u) u

used_refused :
    (o : Orchestrator) (p : Option ServerParticipant) (id revision : String) (steam : ℕ)
    (j : JoinIntent)
    → get o.intents id ≡ some j
    → j.used ≡ true
    → (consume_join_intent o p id revision steam).1 ≢ none
unfolding consume_join_intent admit consume
used_refused o none id revision steam j h u e = ground arith
used_refused o (some p) id revision steam j h u e = ground arith

-- After ConsumeJoinIntent has accepted an intent, it never accepts that intent again, whatever
-- handlers run in between and whoever presents it.
pub intent_admits_once :
    (c : Crypto) (sources : List ReplaySource) (grants : Authority) (o t : Orchestrator)
    (p q : Option ServerParticipant) (id revision again : String) (steam steam' : ℕ)
    → Reach c (initial sources grants) o
    → (consume_join_intent o p id revision steam).1 ≡ none
    → Reach c (consume_join_intent o p id revision steam).0 t
    → (consume_join_intent t q id again steam').1 ≢ none
intent_admits_once c sources grants o t p q id revision again steam steam' r h r' =
    let (j, stored, used) = consumed_used o p id revision steam h in
    let w = Reach-Inv c (initial-Inv sources grants) (next r (consumes p id revision steam refl)) in
    used_refused t q id again steam' j (Reach-used c id j r' w stored used) used
