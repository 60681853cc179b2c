-- ===== src/Orchestrator/Join.antt =====
-- orchestrator/join.go: one-use join intents, and the admission that a consumed intent records.
use Prim.Native.String.{◌++◌ as ◌⧺◌}
use fraglands.Prelude.{
  ℕ, suc, String, Bool, true, false, not, Option, none, some, ◌==◌, string_eq, nat_eq,
  if◌then◌else◌,
}
use fraglands.Prelude.Decimal.{decimal}
use fraglands.Prelude.Dict.{get, put}
use fraglands.Core.Errors.{no_slot_claimed, preparation_not_ready, Result, ok, err}
use fraglands.Core.Account.{Account}
use fraglands.Core.Lobby.{Lobby, slot}
use fraglands.Core.Intent.{JoinIntent, consume}
use fraglands.Core.Lease.{ServerParticipant}
use fraglands.Core.Scenario.{Revision}
use fraglands.Core.Preparation.{State, ready}
use fraglands.Orchestrator.{
  OrchestratorError, unknown_preparation, unknown_intent, process_not_ready, unauthenticated,
  no_steam_identity, wrong_process_generation, allocation_error, core_error, AllocatedProcess,
  Orchestrator, admission_key_eq,
}
use fraglands.Orchestrator.Scenario.{PreparationStatus, status_of}

abbrev pub intent_id : ℕ → String
intent_id seq = "intent-" ⧺ decimal seq

-- JoinTarget
pub record JoinTarget : Type 0 where
  pub process : AllocatedProcess
  pub intent : JoinIntent

unfoldable pub is_ready : State → Bool
is_ready ready = true
is_ready _ = false

-- Whether the lobby, if there is one, has no slot of the account.
unfoldable pub lacks_slot : Option Lobby → String → Bool
lacks_slot none account = false
lacks_slot (some lobby) account = elim (slot lobby account) [ none ↦ true | some _ ↦ false ]

-- The checks of IssueJoinIntent on the status: the process, and the revision. A preparation that is
-- ready has a revision; `none` is the panic of reading the ID of a nil revision.
unfoldable pub check_status :
    PreparationStatus → String → Option (Result OrchestratorError (AllocatedProcess × Revision))
unfolding is_ready lacks_slot
check_status s account =
    if not (is_ready s.preparation.state)
    then some (err (core_error preparation_not_ready))
    else elim s.allocation_failure [
      | some reason ↦ some (err (allocation_error reason))
      | none ↦ elim s.process [
        | none ↦ some (err process_not_ready)
        | some process ↦
            if not process.ready
            then some (err process_not_ready)
            else if lacks_slot s.lobby account
            then some (err (core_error no_slot_claimed))
            else elim s.preparation.revision [
              | none ↦ none
              | some revision ↦ some (ok (process, revision))
            ]
      ]
    ]

-- The end of IssueJoinIntent: the next intent ID, and the intent under it.
unfoldable pub store_intent :
    Orchestrator → Account → AllocatedProcess → Revision → Orchestrator × JoinTarget
store_intent o principal process revision =
    let id = intent_id (suc o.intent_seq) in
    let intent =
      fraglands.Core.Intent.new id principal.id principal.steam_id revision.id process.generation in
    (
      record o { intent_seq = suc o.intent_seq; intents = put o.intents id intent },
      record { process = process; intent = intent },
    )

-- IssueJoinIntent
unfoldable pub issue_join_intent :
    Orchestrator
    → Option Account
    → String
    → Option (Orchestrator × Result OrchestratorError JoinTarget)
unfolding check_status store_intent
issue_join_intent o none id = some (o, err unauthenticated)
issue_join_intent o (some principal) id =
    if principal.steam_id == 0
    then some (o, err no_steam_identity)
    else elim (get o.preparations id) [
      | none ↦ some (o, err unknown_preparation)
      | some prep ↦ elim (check_status (status_of o id prep) principal.id) [
        | none ↦ none
        | some (err e) ↦ some (o, err e)
        | some (ok (process, revision)) ↦
            let (t, target) = store_intent o principal process revision in some (t, ok target)
      ]
    ]

-- The part of ConsumeJoinIntent for an intent of the participant's generation.
unfoldable pub admit :
    Orchestrator → String → JoinIntent → String → ℕ → ℕ → Orchestrator × Option OrchestratorError
admit o id intent revision generation steam =
    let (j, e) = consume intent revision generation steam in
    elim e [
      | some x ↦ (o, some (core_error x))
      | none ↦ (
        record o {
          intents = put o.intents id j;
          admissions =
              put o.admissions
                (record { account_id = j.account_id; process_generation = j.generation })
                (record {
                  account_id = j.account_id;
                  revision_id = j.revision_id;
                  process_generation = j.generation;
                });
        },
        none,
      )
    ]

-- ConsumeJoinIntent
unfoldable pub consume_join_intent :
    Orchestrator
    → Option ServerParticipant
    → String
    → String
    → ℕ
    → Orchestrator × Option OrchestratorError
unfolding admit
consume_join_intent o none id revision steam = (o, some unauthenticated)
consume_join_intent o (some participant) id revision steam = elim (get o.intents id) [
  | none ↦ (o, some unknown_intent)
  | some intent ↦
      if not (intent.generation == participant.process_generation)
      then (o, some wrong_process_generation)
      else admit o id intent revision participant.process_generation steam
]
