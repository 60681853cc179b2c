-- ===== src/Orchestrator/Fencing.antt =====
-- AcceptResult of orchestrator/scenario.go against the leases of core/server-lease.go.
use fraglands.Prelude.{
  ℕ, String, ◌≡◌, ◌≢◌, refl, inl, inr, Option, none, some, List, ◌==◌, string_eq, nat_eq, arith,
  Bool-cases,
}
use fraglands.Core.Errors.{CoreError}
use fraglands.Core.Lease.{
  LeaseAuthority, ServerParticipant, commit_lease, commit_if, check_generation,
}
use fraglands.Core.Lease.Invariant.{Event, Reach}
use fraglands.Core.Lease.Revoked.{times_issued, revoked_until_reissue}
use fraglands.Core.ResultStore.{AttemptResult}
use fraglands.Orchestrator.{core_error, Orchestrator, admission_key_eq}
use fraglands.Orchestrator.Server.{
  ServerAuthority, lease_committer, accept_result_fenced, accept_result, commit_result,
  store_result,
}

-- AcceptResult leaves the orchestrator as it was where the lease refuses the commit.
refused_leaves :
    (servers : ServerAuthority) (a : LeaseAuthority) (o : Orchestrator)
    (p : Option ServerParticipant) (r : AttemptResult) (e : CoreError)
    → lease_committer servers ≡ some a
    → commit_lease core_error a r.process_generation (some (store_result r)) o
      ≡ (o, some (core_error e))
    → ((accept_result servers o p (some r)).0 ≡ o) × ((accept_result servers o p (some r)).1 ≢ none)
unfolding accept_result_fenced commit_result
refused_leaves servers a o none r e l h = (refl, λ x. ground arith)
refused_leaves servers a o (some p) r e l h =
    elim (Bool-cases (p.process_generation == r.process_generation)) [
      | inl same ↦ (ground arith, λ x. ground arith)
      | inr other ↦ (ground arith, λ x. ground arith)
    ]

-- With a server authority that fences by lease: after Revoke for a process generation, and until the
-- next lease for it, AcceptResult for a result of that generation is refused and changes nothing,
-- whoever submits it.
pub revoked_stores_nothing :
    (encode : List ℕ → String) (servers : ServerAuthority) (a b : LeaseAuthority)
    (before after : List Event) (o : Orchestrator) (p : Option ServerParticipant)
    (r : AttemptResult)
    → Reach encode fraglands.Core.Lease.new before a
    → Reach encode (fraglands.Core.Lease.revoke a r.process_generation) after b
    → times_issued r.process_generation after ≡ 0
    → lease_committer servers ≡ some b
    → ((accept_result servers o p (some r)).0 ≡ o) × ((accept_result servers o p (some r)).1 ≢ none)
revoked_stores_nothing encode servers a b before after o p r h h' u l =
    let (_, (e, refused)) =
      revoked_until_reissue core_error encode a b before after r.process_generation ""
        (store_result r) o h h' u in
    refused_leaves servers b o p r e l refused
