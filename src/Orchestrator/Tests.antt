-- ===== src/Orchestrator/Tests.antt =====
-- The orchestrator on concrete calls.
use fraglands.Prelude.{
  ℕ, suc, ◌<◌, String, ◌≡◌, ◌≢◌, ◌↔◌, ◌⊎◌, refl, true, false, Option, none, some, List, [], ◌∷◌,
  length, arith, string_eq, nat_eq, eq_iff,
}
use fraglands.Prelude.Decimal.{decimal}
use fraglands.Prelude.Dict.{empty, get, put}
use fraglands.Core.Errors.{revision_mismatch, Result, ok, err}
use fraglands.Core.Account.{Account}
use fraglands.Core.Grant.{Crypto, Authority, ReplayRequest, mint, token_of, verify, revoke}
use fraglands.Core.Lease.{ServerParticipant, LeaseAuthority}
use fraglands.Core.Lobby.{Lobby, slot}
use fraglands.Core.Intent.{JoinIntent}
use fraglands.Core.ResultStore.{AttemptResult, accept}
use fraglands.Core.Facts.{Revision, preview}
use fraglands.Core.Preparation.{Preparation, ready, cancelled, terminal}
use fraglands.Orchestrator.{
  OrchestratorError, forbidden, unknown_preparation, unadmitted_account, ambiguous_admission,
  core_error, AllocatedProcess, Admission, AdmissionKey, Invitation, Orchestrator, initial,
  admission_key_eq,
}
use fraglands.Orchestrator.Scenario.{
  prepare, is_source, owner_of, preparation, cancel_preparation, run_preparer,
}
use fraglands.Orchestrator.Claim.{claim, release, claim_authorized}
use fraglands.Orchestrator.Join.{JoinTarget, intent_id, issue_join_intent, consume_join_intent}
use fraglands.Orchestrator.Attribution.{admitted_account_for}
use fraglands.Orchestrator.Attribution.Unique.{accounts, any_on, attributes_exactly}
use fraglands.Orchestrator.Server.{
  unfenced, by_credential, accept_result_fenced, accept_result, commit_result, store_result,
}
use fraglands.Orchestrator.History.{Reach, here, next, prepares, runs, claims, issues, consumes}
use fraglands.Orchestrator.Intents.{HasJoined}
use fraglands.Orchestrator.Provenance.{accepted-HasJoined, intent_admits_once}
use fraglands.Orchestrator.Access.{
  HasSlot, LacksAccess, outsider_refused, IsInvited, Refused, redeemed_once, cancelled_for_good,
  issued_exactly,
}
use fraglands.Orchestrator.Fencing.{revoked_stores_nothing}

abbrev toy : Crypto
toy = record { bytes = λ _. []; encode = λ _. "e"; hmac = λ k m. k }

abbrev grants : Authority
grants = record { ttl = 60; key = []; grants = empty; by_preparation = empty }

abbrev o₀ : Orchestrator
o₀ = initial (record { id = "r"; label = "R" } ∷ []) grants

abbrev ann : Account
ann = record { id = "ann"; steam_id = 5; display_name = "Ann" }

abbrev bob : Account
bob = record { id = "bob"; steam_id = 6; display_name = "Bob" }

-- Ann's preparation, ready, with a ready process and a slot.
abbrev o₁ : Orchestrator
o₁ = (prepare toy (some []) 10 o₀ (some ann) "r" 0 100).0

outsider_refused_example :
    let (after_claim, slot) = claim o₁ (some bob) "prep-1" in
    let (after_release, error) = release o₁ (some bob) "prep-1" in
    (LacksAccess o₁ "bob" "prep-1" → (after_claim ≡ o₁) × (after_release ≡ o₁))
    × ((get o₁.lobbies "prep-1" ≢ none)
        → ((slot ≡ err forbidden) ↔ LacksAccess o₁ "bob" "prep-1")
          × ((error ≡ some forbidden) ↔ LacksAccess o₁ "bob" "prep-1"))
    × ((get o₁.preparations "prep-1" ≢ none)
        → (preparation o₁ (some bob) "prep-1" ≡ err forbidden) ↔ LacksAccess o₁ "bob" "prep-1")
    × ((get o₁.lobbies "prep-1" ≡ none)
        → (slot ≡ err unknown_preparation) × (error ≡ some unknown_preparation))
    × ((get o₁.preparations "prep-1" ≡ none)
        → preparation o₁ (some bob) "prep-1" ≡ err unknown_preparation)
outsider_refused_example = outsider_refused o₁ bob "prep-1"

abbrev invitation : Invitation
invitation = record {
  token = "t";
  prep_id = "prep-1";
  account_id = "bob";
  expires = 50;
  used = false;
}

abbrev invited : Orchestrator
invited = record o₁ { invites = put empty "t" invitation }

bob_is_not_ann : owner_of invited "prep-1" ≢ "bob"
unfolding get prepare is_source mint decimal put
bob_is_not_ann e =
    let x : false ≡ true = (eq_iff (owner_of invited "prep-1") "bob").1 e in ground (arith, x)

redeemed_once_example :
    let (t, r) = claim_authorized 20 invited (some bob) "prep-1" "t" in
    ((t ≡ invited) × Refused r)
    ⊎ ((i : Invitation) × IsInvited 20 invited "bob" "prep-1" "t" i
        × (get t.invites "t" ≡ some (record i { used = true }))
        × (owner_of invited "prep-1" ≢ "bob"
            → let (t', r') = claim_authorized 30 t (some bob) "prep-1" "t" in
              (t' ≡ t) × Refused r'))
redeemed_once_example = redeemed_once 20 30 invited bob bob "prep-1" "prep-1" "t" bob_is_not_ann

abbrev request : ReplayRequest
request = record { preparation_id = "prep-1"; replay_id = "r"; grant = "e.e" }

abbrev cancelled_o : Option (Orchestrator × Option OrchestratorError)
cancelled_o = cancel_preparation o₁ (some ann) "prep-1"

abbrev the_state : Option (Orchestrator × Option OrchestratorError) → Orchestrator
the_state none = o₀
the_state (some (t, _)) = t

cancelled_for_good_example :
    (owner_of o₁ "prep-1" ≡ "ann")
    × ((prep : Preparation) × (get o₁.preparations "prep-1" ≡ some prep)
        × (terminal prep.state ≡ false)
        × (get (the_state cancelled_o).preparations "prep-1"
            ≡ some (record prep { state = cancelled; revision = none; failure = none })))
    × ((verify 20 (the_state cancelled_o).grants request).1 ≢ none)
unfolding cancel_preparation get prepare is_source mint decimal put
    fraglands.Core.Preparation.mark_cancelled revoke token_of
cancelled_for_good_example =
    cancelled_for_good toy o₁ (the_state cancelled_o) ann "prep-1" (the_state cancelled_o).grants []
      20 request refl refl fraglands.Core.Grant.History.here

abbrev revision : Revision
revision = record {
  id = "v";
  replay_id = "r";
  lead_in_start_tick = 0;
  takeover_tick = 100;
  fidelity = preview;
  omissions = [];
}

abbrev makes_ready : Preparation → Preparation
makes_ready p = record p { state = ready; revision = some revision }

abbrev ready_preparation : Preparation
ready_preparation = makes_ready (
    fraglands.Core.Preparation.new "prep-1" "r" 0 100 (
      some (record {
        preparation_id = "prep-1";
        owner_account_id = "ann";
        replay_id = "r";
        expires = 70;
        token = "e.e";
      })))

abbrev process : AllocatedProcess
process = record { generation = 3; connect_address = "a"; ready = true; evidence = "e" }

abbrev allocates : Option Revision → Result String AllocatedProcess
allocates r = ok process

-- Ann's preparation becomes ready, and she claims a slot.
abbrev the_run : Option Orchestrator → Orchestrator
the_run none = o₀
the_run (some t) = t

abbrev o₂ : Orchestrator
o₂ = the_run (run_preparer makes_ready allocates o₁ "prep-1")

abbrev o₃ : Orchestrator
o₃ = (claim o₂ (some ann) "prep-1").0

issued_exactly_example :
    ((process : AllocatedProcess)
      → ann.steam_id ≢ 0
      → ready_preparation.state ≡ ready
      → get o₃.alloc_failures "prep-1" ≡ none
      → get o₃.processes "prep-1" ≡ some process
      → process.ready ≡ true
      → HasSlot o₃ "ann" "prep-1"
      → (t : Orchestrator) × (target : JoinTarget) × (issue_join_intent o₃ (some ann) "prep-1"
          ≡ some (t, ok target))
        × (get t.intents (intent_id (suc o₃.intent_seq)) ≡ some target.intent)
        × (target.intent.used ≡ false)
        × (target.intent.account_id ≡ "ann")
        × (target.intent.steam_id ≡ 5)
        × (target.intent.revision_id ≡ "v")
        × (target.intent.generation ≡ process.generation))
    × ((t : Orchestrator) (target : JoinTarget)
        → issue_join_intent o₃ (some ann) "prep-1" ≡ some (t, ok target)
        → (ann.steam_id ≢ 0)
          × (ready_preparation.state ≡ ready)
          × (get o₃.alloc_failures "prep-1" ≡ none)
          × (get o₃.processes "prep-1" ≡ some target.process)
          × (target.process.ready ≡ true)
          × HasSlot o₃ "ann" "prep-1")
unfolding get put prepare is_source mint decimal token_of run_preparer claim
    fraglands.Core.Lobby.new
issued_exactly_example = issued_exactly o₃ ann "prep-1" ready_preparation revision refl refl

-- She asks for an intent, and the server of generation 3 consumes it.
abbrev the_issue : Option (Orchestrator × Result OrchestratorError JoinTarget) → Orchestrator
the_issue none = o₀
the_issue (some (t, _)) = t

abbrev the_answer :
    Option (Orchestrator × Result OrchestratorError JoinTarget)
    → Result OrchestratorError JoinTarget
the_answer none = err forbidden
the_answer (some (_, r)) = r

abbrev o₄ : Orchestrator
o₄ = the_issue (issue_join_intent o₃ (some ann) "prep-1")

abbrev server : ServerParticipant
server = record { id = "server"; process_generation = 3 }

abbrev o₅ : Orchestrator
o₅ = (consume_join_intent o₄ (some server) "intent-1" "v" 5).0

history₄ : Reach toy o₀ o₄
unfolding get put prepare is_source mint decimal token_of run_preparer claim
    fraglands.Core.Lobby.new issue_join_intent fraglands.Core.Lobby.claim
    fraglands.Core.Lobby.find_free
history₄ =
    next
      (next
        (next (next here (prepares (some []) 10 (some ann) "r" 0 100 refl))
          (runs makes_ready allocates "prep-1" refl))
        (claims (some ann) "prep-1" refl))
      (issues (some ann) "prep-1" (the_answer (issue_join_intent o₃ (some ann) "prep-1")) refl)

history₅ : Reach toy o₀ o₅
history₅ = next history₄ (consumes (some server) "intent-1" "v" 5 refl)

abbrev attempt : AttemptResult
attempt = record {
  id = "1";
  account_id = "ann";
  revision_id = "v";
  process_generation = 3;
  attempt_generation = 1;
  replay_id = "r";
  takeover_tick = 100;
}

accepted-HasJoined_example :
    ((q : ServerParticipant) × (some server ≡ some q) × (q.process_generation ≡ 3))
    × HasJoined o₅ "ann" 3 "v"
unfolding accept_result_fenced get consume_join_intent issue_join_intent claim run_preparer prepare
    is_source mint decimal put fraglands.Core.Lobby.new fraglands.Core.Lobby.claim
    fraglands.Core.Lobby.find_free fraglands.Core.Intent.consume accept
accepted-HasJoined_example =
    accepted-HasJoined toy (record { id = "r"; label = "R" } ∷ []) grants o₅ false unfenced
      (some server) attempt history₅ refl

intent_admits_once_example : (consume_join_intent o₅ (some server) "intent-1" "v" 5).1 ≢ none
unfolding consume_join_intent get issue_join_intent claim run_preparer prepare is_source mint
    decimal put fraglands.Core.Lobby.new fraglands.Core.Lobby.claim fraglands.Core.Lobby.find_free
    fraglands.Core.Intent.consume
intent_admits_once_example =
    intent_admits_once toy (record { id = "r"; label = "R" } ∷ []) grants o₄ o₅ (some server)
      (some server) "intent-1" "v" "v" 5 5 history₄ refl here

attributes_exactly_example :
    let r = admitted_account_for o₅ 3 "v" in
    let accs = accounts 3 "v" o₅.admissions.entries in
    ((account : String) → (r ≡ ok account) ↔ (accs ≡ account ∷ []))
    × ((r ≡ err unadmitted_account) ↔ (any_on 3 o₅.admissions.entries ≡ false))
    × ((r ≡ err (core_error revision_mismatch))
        ↔ ((accs ≡ []) × (any_on 3 o₅.admissions.entries ≡ true)))
    × ((r ≡ err ambiguous_admission) ↔ (1 < length accs))
attributes_exactly_example = attributes_exactly o₅ 3 "v"

-- A lease authority whose lease for generation 3 was issued and revoked.
abbrev encode_first : List ℕ → String
encode_first [] = ""
encode_first (n ∷ _) = decimal n

abbrev leased : LeaseAuthority
leased = (fraglands.Core.Lease.grant_lease fraglands.Core.Lease.new "server" 3 "7").0

lease_history :
    fraglands.Core.Lease.Invariant.Reach encode_first fraglands.Core.Lease.new
      (fraglands.Core.Lease.Invariant.issued 3 ∷ [])
      leased
unfolding fraglands.Core.Lease.issue_lease fraglands.Core.Lease.new_credential get
    fraglands.Core.Lease.new fraglands.Core.Lease.grant_lease decimal
lease_history = fraglands.Core.Lease.Invariant.next fraglands.Core.Lease.Invariant.here (
    fraglands.Core.Lease.Invariant.issues (some (7 ∷ []) ∷ []) "server" 3
      (record { participant_id = "server"; generation = 3; version = 1; credential = "7" }) refl)

revoked_stores_nothing_example :
    ((accept_result
        (by_credential (fraglands.Core.Lease.revoke leased 3))
        o₅
        (some server)
        (some attempt)).0
      ≡ o₅)
    × ((accept_result
          (by_credential (fraglands.Core.Lease.revoke leased 3))
          o₅
          (some server)
          (some attempt)).1
        ≢ none)
unfolding fraglands.Orchestrator.Server.lease_committer
revoked_stores_nothing_example =
    revoked_stores_nothing encode_first (by_credential (fraglands.Core.Lease.revoke leased 3))
      leased (fraglands.Core.Lease.revoke leased 3) (fraglands.Core.Lease.Invariant.issued 3 ∷ [])
      [] o₅ (some server) attempt lease_history fraglands.Core.Lease.Invariant.here refl refl
