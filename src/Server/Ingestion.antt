-- ===== src/Server/Ingestion.antt =====
-- server/summary-ingestion.go: the gate between the spool artifacts of a server process and the
-- acceptance of results. An Ingest runs to its end without another in between.
pub mod Once
mod Tests
use fraglands.Prelude.{
  ℕ, String, Bool, true, false, not, ◌&&◌, Option, none, some, ◌==◌, nat_eq, string_eq,
  if◌then◌else◌,
}
use fraglands.Prelude.Dict.{Dict, empty, get, put, delete}
use fraglands.Core.Errors.{CoreError, Result, ok, err}
use fraglands.Core.Lease.{ServerParticipant, LeaseAuthority, commit_credential}
use fraglands.Server.Summary.{
  SummaryError, unauthenticated, oversize, duplicate, traversal, identity_mismatch, TerminalSummary,
  Json, is_oversize, parse, is_artifact_name,
}

-- An error of Ingest: a refusal of the gate, or the error of the acceptance.
pub data IngestError (E : Type 0) : Type 0 where
  refused : SummaryError → IngestError E
  lease_error : CoreError → IngestError E
  accept_error : E → IngestError E

pub record IngestRequest (Data : Type 0) : Type 0 where
  pub credential : String
  pub artifact_name : String
  pub payload : Data
  pub expected_generation : ℕ

-- What is injected into a gate: the resolver of credentials, `none` where it refuses, with the lease
-- authority that it commits under if it has that capability; the acceptance callback, on the state of
-- its owner; and the digest of the standard library.
pub record Injected (Data S E : Type 0) : Type 0 where
  pub resolve : String → Option ServerParticipant
  pub committer : Option LeaseAuthority
  pub accept : String → ServerParticipant → TerminalSummary → S → S × Option E
  pub digest : Data → String

-- `g.seenArtifacts[digest]`
unfoldable pub is_seen : Dict String Bool → String → Bool
is_seen seen digest = elim (get seen digest) [ none ↦ false | some b ↦ b ]

module _ {Data S E : Type 0} (J : Json Data) (env : Injected Data S E) where
  -- The refusal of Ingest before the reservation, or the summary.
  unfoldable pub admit_summary :
      Dict String Bool
      → IngestRequest Data
      → ServerParticipant
      → Result SummaryError TerminalSummary
  unfolding is_seen is_oversize
  admit_summary seen req participant =
      if is_oversize (J.size req.payload)
      then err oversize
      else if is_seen seen (env.digest req.payload)
      then err duplicate
      else elim (parse J req.payload) [
        | err e ↦ err e
        | ok s ↦
            if not (is_artifact_name req.artifact_name s.attempt_generation)
            then err traversal
            else if not (req.expected_generation == 0)
                && not (s.server_process_generation == req.expected_generation)
            then err identity_mismatch
            else if not (s.server_process_generation == participant.process_generation)
            then err identity_mismatch
            else ok s
      ]

  lift_accept : (S → S × Option E) → S → S × Option (IngestError E)
  lift_accept commit s =
      let (t, e) = commit s in (t, elim e [ none ↦ none | some x ↦ some (accept_error x) ])

  -- The acceptance, under the credential's lease where the resolver has one.
  unfoldable pub commit_summary :
      String → ServerParticipant → TerminalSummary → S → S × Option (IngestError E)
  unfolding lift_accept
  commit_summary credential participant summary s = elim env.committer [
    | none ↦ lift_accept (env.accept credential participant summary) s
    | some a ↦
        commit_credential lease_error a credential participant.process_generation
          (some (lift_accept (env.accept credential participant summary))) s
  ]

  -- Ingest, on the digests seen and the state of the acceptance.
  unfoldable pub ingest :
      Dict String Bool → IngestRequest Data → S → Dict String Bool × (S × Option (IngestError E))
  unfolding admit_summary commit_summary
  ingest seen req s = elim (env.resolve req.credential) [
    | none ↦ (seen, (s, some (refused unauthenticated)))
    | some participant ↦ elim (admit_summary seen req participant) [
      | err e ↦ (seen, (s, some (refused e)))
      | ok summary ↦
          let reserved = put seen (env.digest req.payload) true in
          let (t, e) = commit_summary req.credential participant summary s in
          elim e [
            | none ↦ (reserved, (t, none))
            | some x ↦ (delete reserved (env.digest req.payload), (t, some x))
          ]
    ]
  ]
