-- ===== src/Server/Ingestion/Tests.antt =====
-- An ingestion gate on a concrete artifact.
use fraglands.Prelude.{ℕ, suc, ◌≤◌, String, ◌≡◌, ◌≢◌, refl, none, some, List, [], ◌∷◌}
use fraglands.Prelude.Dict.{empty, get, put}
use fraglands.Prelude.Decimal.{decimal}
use fraglands.Core.Errors.{CoreError, ok}
use fraglands.Core.Lease.{ServerParticipant}
use fraglands.Server.Summary.{
  SummaryError, TerminalSummary, Json, parse, field_index, decode_field, is_artifact_name,
}
use fraglands.Server.Ingestion.{refused, IngestRequest, Injected, is_seen, ingest}
use fraglands.Server.Ingestion.Once.{IsNamed, times_ingested, ingested_once, ingest_bound}

-- A document is its members; a value is a text and a number.
abbrev Document : Type 0
Document = List (String × (String × ℕ))

abbrev json : Json Document
json = record {
  Value = String × ℕ;
  size = λ d. 300;
  members = λ d. some d;
  as_string = λ v. some v.0;
  as_uint64 = λ v. some v.1;
}

abbrev summary : Document
summary =
    ("version", ("runback-attempt/v1", 0))
    ∷ ("replay_identity", ("r", 0))
    ∷ ("revision", ("v", 0))
    ∷ ("server_process_generation", ("", 3))
    ∷ ("attempt_generation", ("", 1))
    ∷ ("takeover_tick", ("", 100))
    ∷ ("ending", ("secure", 0))
    ∷ ("ended_at_seconds", ("", 20))
    ∷ []

abbrev server : ServerParticipant
server = record { id = "server"; process_generation = 3 }

-- Acceptance counts.
abbrev gate : Injected Document ℕ CoreError
gate = record {
  resolve = λ c. some server;
  committer = none;
  accept = λ c p s n. (suc n, none);
  digest = λ d. "digest";
}

abbrev request : IngestRequest Document
request = record {
  credential = "c";
  artifact_name = "runback_summary_gen1.json";
  payload = summary;
  expected_generation = 3;
}

accepts : (ingest json gate empty request 0).1.1 ≡ none
unfolding ingest get parse field_index decode_field put is_artifact_name decimal
accepts = refl

ingested_once_example : times_ingested json gate "digest" empty 0 (request ∷ request ∷ []) ≤ 1
ingested_once_example = ingested_once json gate "digest" empty 0 (request ∷ request ∷ [])

ingest_bound_example :
    let (seen, (t, e)) = ingest json gate empty request 0 in
    (e ≡ none
      → (p : ServerParticipant) × (s : TerminalSummary) × (some server ≡ some p)
        × (parse json summary ≡ ok s)
        × IsNamed "runback_summary_gen1.json" s.attempt_generation
        × (s.server_process_generation ≡ p.process_generation)
        × (request.expected_generation ≢ 0
            → s.server_process_generation ≡ request.expected_generation)
        × (gate.accept "c" p s 0 ≡ (t, none)))
    × (e ≢ none → (d : String) → is_seen seen d ≡ is_seen empty d)
    × ((x : SummaryError) → e ≡ some (refused x) → t ≡ 0)
ingest_bound_example = ingest_bound json gate empty request 0
