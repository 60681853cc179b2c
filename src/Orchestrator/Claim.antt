-- ===== src/Orchestrator/Claim.antt =====
-- orchestrator/claim.go: the slots of a preparation's lobby, and the invitations.
use fraglands.Prelude.{
  ℕ, ◌+◌, ◌*◌, String, Bool, true, false, not, ◌||◌, Option, none, some, ◌==◌, string_eq, ltb,
  if◌then◌else◌,
}
use fraglands.Prelude.Dict.{get, put}
use fraglands.Core.Errors.{invalid_account, Result, ok, err}
use fraglands.Core.Account.{Account}
use fraglands.Core.Lobby.{Lobby}
use fraglands.Orchestrator.{
  OrchestratorError, unknown_preparation, unauthenticated, forbidden, invite_random, core_error,
  Invitation, Orchestrator,
}
use fraglands.Orchestrator.Scenario.{owner_of, can_view}

-- lobby.Claim(principal.ID) on the lobby of a preparation.
unfoldable pub claim_slot :
    Orchestrator → String → Lobby → String → Orchestrator × Result OrchestratorError ℕ
claim_slot o id lobby account =
    let (l, r) = fraglands.Core.Lobby.claim lobby account in
    (
      record o { lobbies = put o.lobbies id l },
      elim r [ ok slot ↦ ok slot | err e ↦ err (core_error e) ],
    )

-- Claim
unfoldable pub claim :
    Orchestrator → Option Account → String → Orchestrator × Result OrchestratorError ℕ
unfolding claim_slot can_view
claim o none id = (o, err unauthenticated)
claim o (some principal) id = elim (get o.lobbies id) [
  | none ↦ (o, err unknown_preparation)
  | some lobby ↦
      if can_view o principal.id id then claim_slot o id lobby principal.id else (o, err forbidden)
]

-- lobby.Release(principal.ID) on the lobby of a preparation.
unfoldable pub release_slot :
    Orchestrator → String → Lobby → String → Orchestrator × Option OrchestratorError
release_slot o id lobby account =
    let (l, e) = fraglands.Core.Lobby.release lobby account in
    (
      record o { lobbies = put o.lobbies id l },
      elim e [ none ↦ none | some x ↦ some (core_error x) ],
    )

-- Release
unfoldable pub release :
    Orchestrator → Option Account → String → Orchestrator × Option OrchestratorError
unfolding release_slot can_view
release o none id = (o, some unauthenticated)
release o (some principal) id = elim (get o.lobbies id) [
  | none ↦ (o, some unknown_preparation)
  | some lobby ↦
      if can_view o principal.id id
      then release_slot o id lobby principal.id
      else (o, some forbidden)
]

-- inviteTTL, in nanoseconds
abbrev pub invite_ttl : ℕ
invite_ttl = 3600 * 1000000000

-- Invite. `random` is the text of the 32 random bytes, `none` where `rand.Read` fails.
unfoldable pub invite :
    Option String
    → ℕ
    → Orchestrator
    → Option Account
    → String
    → String
    → Orchestrator × Result OrchestratorError Invitation
invite random now o none id account = (o, err unauthenticated)
invite random now o (some principal) id account =
    if account == ""
    then (o, err (core_error invalid_account))
    else if not (owner_of o id == principal.id)
    then (o, err forbidden)
    else elim random [
      | none ↦ (o, err invite_random)
      | some token ↦
          let i : Invitation = record {
            token = token;
            prep_id = id;
            account_id = account;
            expires = now + invite_ttl;
            used = false;
          } in
          (record o { invites = put o.invites token i }, ok i)
    ]

-- Whether ClaimAuthorized refuses the invitation that its token names.
unfoldable pub invite_refused : ℕ → Invitation → String → String → Bool
invite_refused now i id account =
    i.used || (not (i.prep_id == id) || (not (i.account_id == account) || ltb i.expires now))

-- The invited path of ClaimAuthorized.
unfoldable pub claim_invited :
    ℕ → Orchestrator → String → Lobby → String → String → Orchestrator × Result OrchestratorError ℕ
unfolding claim_slot invite_refused
claim_invited now o id lobby account token = elim (get o.invites token) [
  | none ↦ (o, err forbidden)
  | some i ↦
      if invite_refused now i id account
      then (o, err forbidden)
      else claim_slot (record o { invites = put o.invites token (record i { used = true }) }) id
          lobby account
]

-- ClaimAuthorized
unfoldable pub claim_authorized :
    ℕ → Orchestrator → Option Account → String → String → Orchestrator × Result OrchestratorError ℕ
unfolding claim_slot claim_invited
claim_authorized now o none id token = (o, err unauthenticated)
claim_authorized now o (some principal) id token = elim (get o.lobbies id) [
  | none ↦ (o, err unknown_preparation)
  | some lobby ↦
      if owner_of o id == principal.id
      then claim_slot o id lobby principal.id
      else claim_invited now o id lobby principal.id token
]

-- IsOwner
unfoldable pub is_owner : Orchestrator → Option Account → String → Bool
is_owner o none id = false
is_owner o (some principal) id = owner_of o id == principal.id
