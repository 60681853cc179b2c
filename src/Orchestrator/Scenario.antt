-- ===== src/Orchestrator/Scenario.antt =====
-- orchestrator/scenario.go: preparations, from the request to the allocated process. The handlers
-- that call Revoke of the grant authority are `none` where it panics.
use Prim.Native.String.{◌++◌ as ◌⧺◌}
use fraglands.Prelude.{
  ℕ, suc, String, Bool, true, false, not, Option, none, some, List, [], ◌∷◌, ◌==◌, string_eq,
  if◌then◌else◌,
}
use fraglands.Prelude.Int.{pos}
use fraglands.Prelude.Decimal.{decimal}
use fraglands.Prelude.Dict.{Dict, get, put}
use fraglands.Core.Errors.{CoreError, Result, ok, err}
use fraglands.Core.Account.{Account}
use fraglands.Core.Grant.{Crypto, mint, revoke}
use fraglands.Core.Lobby.{Lobby, slot}
use fraglands.Core.Preparation.{Preparation, State, ready, FailureReason, terminal, mark_cancelled}
use fraglands.Core.Scenario.{Revision}
use fraglands.Orchestrator.{
  OrchestratorError, unknown_replay, unknown_preparation, unauthenticated, forbidden, core_error,
  AllocatedProcess, ReplaySource, Orchestrator,
}

abbrev pub prep_id : ℕ → String
prep_id seq = "prep-" ⧺ decimal seq

-- The loop of Prepare over the catalog.
unfoldable pub is_source : List ReplaySource → String → Bool
is_source [] replay = false
is_source (s ∷ ss) replay = let rest = is_source ss replay in if s.id == replay then true else rest

-- A map of pointers reads nil both for a nil value and for a missing key.
abbrev pub store_lobby : Dict String Lobby → String → Result CoreError Lobby → Dict String Lobby
store_lobby lobbies id (ok lobby) = put lobbies id lobby
store_lobby lobbies id (err _) = lobbies

module _ (c : Crypto) where
  -- Prepare, up to the start of the preparer: `random` and `now` are those of Mint.
  unfoldable pub prepare :
      Option (List ℕ)
      → ℕ
      → Orchestrator
      → Option Account
      → String
      → ℕ
      → ℕ
      → Orchestrator × Result OrchestratorError String
  prepare random now o none replay lead_in takeover = (o, err unauthenticated)
  prepare random now o (some principal) replay lead_in takeover =
      if not (is_source o.sources replay)
      then (o, err unknown_replay)
      else (let id = prep_id (suc o.prep_seq) in
          let (grants, minted) = mint c random now o.grants id principal.id replay in
          let t : Orchestrator = record o { prep_seq = suc o.prep_seq; grants = grants } in
          elim minted [
            | err e ↦ (t, err (core_error e))
            | ok grant ↦ (
              record t {
                preparations =
                    put t.preparations id
                      (fraglands.Core.Preparation.new id replay lead_in takeover (some grant));
                owners = put t.owners id principal.id;
                lobbies =
                    store_lobby t.lobbies id (fraglands.Core.Lobby.new ("lobby-" ⧺ id) (pos 12));
              },
              ok id,
            )
          ])

-- `o.owners[prepID]`, the empty text where the key is missing.
abbrev pub owner_of : Orchestrator → String → String
owner_of o id = elim (get o.owners id) [ none ↦ "" | some a ↦ a ]

-- canViewLocked
unfoldable pub can_view : Orchestrator → String → String → Bool
can_view o account id = if owner_of o id == account then true else elim (get o.lobbies id) [
  | none ↦ false
  | some lobby ↦ elim (slot lobby account) [ none ↦ false | some _ ↦ true ]
]

-- PreparationStatus; `none` is nil.
pub record PreparationStatus : Type 0 where
  pub preparation : Preparation
  pub lobby : Option Lobby
  pub process : Option AllocatedProcess
  pub allocation_failure : Option FailureReason

abbrev pub status_of : Orchestrator → String → Preparation → PreparationStatus
status_of o id prep = record {
  preparation = prep;
  lobby = get o.lobbies id;
  process = get o.processes id;
  allocation_failure = get o.alloc_failures id;
}

-- Preparation
unfoldable pub preparation :
    Orchestrator → Option Account → String → Result OrchestratorError PreparationStatus
unfolding can_view
preparation o none id = err unauthenticated
preparation o (some principal) id = elim (get o.preparations id) [
  | none ↦ err unknown_preparation
  | some prep ↦ if can_view o principal.id id then ok (status_of o id prep) else err forbidden
]

-- The end of runPreparer, for a preparation that the preparer left in a terminal state.
unfoldable pub allocate_process :
    Orchestrator → String → Result String AllocatedProcess → Orchestrator
allocate_process o id (err message) = record o {
  alloc_failures =
      put o.alloc_failures id (record { code = "allocation_failed"; message = message });
}
allocate_process o id (ok process) = record o { processes = put o.processes id process }

is_ready : State → Bool
is_ready ready = true
is_ready _ = false

-- runPreparer, with what the injected preparer makes of the preparation and what the injected
-- allocator answers for the revision. The wait on a preparation that is not terminal ends with the
-- context.
unfoldable pub run_preparer :
    (Preparation → Preparation)
    → (Option Revision → Result String AllocatedProcess)
    → Orchestrator
    → String
    → Option Orchestrator
unfolding allocate_process is_ready terminal
run_preparer preparer allocate o id = elim (get o.preparations id) [
  | none ↦ some o
  | some prep ↦
      let q = preparer prep in
      let t : Orchestrator = record o { preparations = put o.preparations id q } in
      if not (terminal q.state)
      then some t
      else if not (is_ready q.state)
      then elim (revoke o.grants id) [ none ↦ none | some g ↦ some (record t { grants = g }) ]
      else some (allocate_process t id (allocate q.revision))
]

-- The part of CancelPreparation for the owner.
cancel_owned :
    Orchestrator → String → Preparation → Option (Orchestrator × Option OrchestratorError)
cancel_owned o id prep =
    let (q, e) = mark_cancelled prep in
    elim e [
      | some x ↦ some (o, some (core_error x))
      | none ↦ elim (revoke o.grants id) [
        | none ↦ none
        | some g ↦ some (record o { preparations = put o.preparations id q; grants = g }, none)
      ]
    ]

-- CancelPreparation
unfoldable pub cancel_preparation :
    Orchestrator → Option Account → String → Option (Orchestrator × Option OrchestratorError)
unfolding cancel_owned
cancel_preparation o none id = some (o, some unauthenticated)
cancel_preparation o (some principal) id = elim (get o.preparations id) [
  | none ↦ some (o, some unknown_preparation)
  | some prep ↦
      if owner_of o id == principal.id then cancel_owned o id prep else some (o, some forbidden)
]
