-- ===== src/Orchestrator/Server.antt =====
-- AcceptResult of orchestrator/scenario.go, orchestrator/debrief.go and orchestrator/server.go: the
-- results, and the lease that fences their commit.
use fraglands.Prelude.{
  ℕ, String, Bool, true, false, not, Option, none, some, ◌==◌, string_eq, nat_eq, if◌then◌else◌,
}
use fraglands.Prelude.Dict.{get}
use fraglands.Core.Errors.{invalid_account, revision_mismatch, Result, ok, err}
use fraglands.Core.Account.{Account}
use fraglands.Core.Lease.{ServerParticipant, LeaseAuthority, commit_lease, commit_credential}
use fraglands.Core.ResultStore.{AttemptResult, accept, lookup}
use fraglands.Orchestrator.{
  OrchestratorError, unauthenticated, wrong_process_generation, unadmitted_account, core_error,
  Orchestrator, admission_key_eq,
}

-- The injected server authority, by the commit interfaces that it implements: none of them, that of
-- generations, or also that of credentials, as the lease authority does.
pub data ServerAuthority : Type 0 where
  unfenced : ServerAuthority
  by_generation by_credential : LeaseAuthority → ServerAuthority

-- leaseCommitter
unfoldable pub lease_committer : ServerAuthority → Option LeaseAuthority
lease_committer unfenced = none
lease_committer (by_generation a) = some a
lease_committer (by_credential a) = some a

-- CommitServerCredential, for a commit on any state
module _ {S : Type 0} where
  unfoldable pub commit_server_credential :
      ServerAuthority
      → String
      → ℕ
      → (S → S × Option OrchestratorError)
      → S
      → S × Option OrchestratorError
  commit_server_credential (by_credential a) credential generation commit s =
      commit_credential core_error a credential generation (some commit) s
  commit_server_credential (by_generation a) credential generation commit s =
      commit_lease core_error a generation (some commit) s
  commit_server_credential unfenced credential generation commit s = commit s

-- The commit closure of acceptResult.
unfoldable pub store_result : AttemptResult → Orchestrator → Orchestrator × Option OrchestratorError
store_result r o =
    let (results, e) = accept o.results (some r) in
    (record o { results = results }, elim e [ none ↦ none | some x ↦ some (core_error x) ])

-- The commit of acceptResult, under the lease where it is fenced.
unfoldable pub commit_result :
    ServerAuthority
    → Bool
    → ℕ
    → AttemptResult
    → Orchestrator
    → Orchestrator × Option OrchestratorError
unfolding store_result lease_committer
commit_result servers false generation r o = store_result r o
commit_result servers true generation r o = elim (lease_committer servers) [
  | none ↦ store_result r o
  | some a ↦ commit_lease core_error a generation (some (store_result r)) o
]

-- acceptResult
unfoldable pub accept_result_fenced :
    Bool
    → ServerAuthority
    → Orchestrator
    → Option ServerParticipant
    → Option AttemptResult
    → Orchestrator × Option OrchestratorError
unfolding commit_result
accept_result_fenced fence servers o none r = (o, some unauthenticated)
accept_result_fenced fence servers o (some participant) none =
    (o, some (core_error invalid_account))
accept_result_fenced fence servers o (some participant) (some r) =
    if r.account_id == ""
    then (o, some (core_error invalid_account))
    else if not (participant.process_generation == r.process_generation)
    then (o, some wrong_process_generation)
    else elim (get o.admissions (record {
      account_id = r.account_id;
      process_generation = participant.process_generation;
    })) [
      | none ↦ (o, some unadmitted_account)
      | some adm ↦
          if not (adm.revision_id == r.revision_id)
          then (o, some (core_error revision_mismatch))
          else commit_result servers fence participant.process_generation r o
    ]

-- AcceptResult and AcceptResultAfterLease
abbrev pub accept_result :
    ServerAuthority
    → Orchestrator
    → Option ServerParticipant
    → Option AttemptResult
    → Orchestrator × Option OrchestratorError
accept_result = accept_result_fenced true

abbrev pub accept_result_after_lease :
    ServerAuthority
    → Orchestrator
    → Option ServerParticipant
    → Option AttemptResult
    → Orchestrator × Option OrchestratorError
accept_result_after_lease = accept_result_fenced false

-- Result
unfoldable pub result :
    Orchestrator → Option Account → ℕ → ℕ → Result OrchestratorError AttemptResult
result o none process attempt = err unauthenticated
result o (some principal) process attempt = elim (lookup o.results principal.id process attempt) [
  | ok r ↦ ok r
  | err e ↦ err (core_error e)
]
