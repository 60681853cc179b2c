-- ===== src/Server/Watcher/Tests.antt =====
-- A watcher on a spool with one file, under two names.
use fraglands.Prelude.{
  ℕ, suc, ◌≤◌, String, ◌≡◌, refl, ◌⊎◌, Bool, true, false, none, some, List, [], ◌∷◌, if◌then◌else◌,
}
use fraglands.Prelude.Dict.{empty, get, put}
use fraglands.Prelude.Decimal.{decimal}
use fraglands.Core.Errors.{CoreError, ok, err}
use fraglands.Server.Supervisor.{ProcessSpec}
use fraglands.Server.Summary.{Json, parse, field_index, decode_field, is_artifact_name}
use fraglands.Server.Ingestion.{Injected, ingest}
use fraglands.Server.Watcher.{
  Watcher, invalid_spec, Host, new_watcher, stop, is_stopped, canonical_summary_name,
  watcher_stopped, watcher_terminal, contents, Entry, Gate, Listing, entries, Spool, is_processed,
  poll_entry, ingest_file, poll_entries, poll_once,
}
use fraglands.Server.Watcher.Once.{
  Action, polls, stops, run, times, logged, name_ingested_once, halted_for_good,
}
use fraglands.Server.Watcher.Outcome.{is_refusal}

-- A document is a number: 1 is a summary of attempt 1 of generation 3.
abbrev json : Json ℕ
json = record {
  Value = String × ℕ;
  size = λ d. 300;
  members = λ d. some (
      ("version", ("runback-attempt/v1", 0))
      ∷ ("replay_identity", ("r", 0))
      ∷ ("revision", ("v", 0))
      ∷ ("server_process_generation", ("", 3))
      ∷ ("attempt_generation", ("", d))
      ∷ ("takeover_tick", ("", 100))
      ∷ ("ending", ("secure", 0))
      ∷ ("ended_at_seconds", ("", 20))
      ∷ []);
  as_string = λ v. some v.0;
  as_uint64 = λ v. some v.1;
}

abbrev injected : Injected ℕ ℕ CoreError
injected = record {
  resolve = λ c. some (record { id = "server"; process_generation = 3 });
  committer = none;
  accept = λ c p s n. (suc n, none);
  digest = λ d. decimal d;
}

abbrev gate : Gate ℕ ℕ CoreError
gate = ingest json injected

abbrev host : Host
host = record {
  supported = true;
  is_abs = λ p. true;
  clean = λ p. p;
  join = λ a b. "/s/gen-3/.quarantine";
  rel = λ a b. some ".quarantine";
  mkdir_all = λ p. true;
}

abbrev spec : ProcessSpec
spec = record { generation = 3; port = 7002; spool_dir = "/s/gen-3" }

abbrev watcher : Watcher
watcher = record {
  spec = spec;
  credential = "c";
  quarantine = "/s/gen-3/.quarantine";
  stopped = false;
  terminal = false;
  processed = empty;
}

makes : new_watcher host spec "c" true ("/s/gen-3/.quarantine" ∷ []) ≡ ok watcher
unfolding new_watcher
makes = refl

escapes :
    new_watcher (record host { rel = λ a b. some "../x" }) spec "c" true ("/x" ∷ [])
    ≡ err invalid_spec
unfolding new_watcher
escapes = refl

abbrev spool : Spool ℕ
spool = record { watcher = watcher; seen = empty; store = 0 }

abbrev file : String → ℕ → Entry ℕ
file name d = record {
  name = name;
  ended_before = false;
  read = contents d;
  ended_after = false;
  moved = true;
}

canonical : canonical_summary_name "runback_summary_gen17.json" ≡ some 17
unfolding canonical_summary_name decimal
canonical = refl

not_canonical : canonical_summary_name "runback_summary_gen1x.json" ≡ none
unfolding canonical_summary_name decimal
not_canonical = refl

abbrev found : Listing ℕ
found = entries (file "notes.txt" 1 ∷ file "runback_summary_gen1.json" 1 ∷ [])

abbrev twice : List (Action ℕ)
twice = polls false found ∷ polls false found ∷ stops ∷ []

stored : (run gate twice spool).store ≡ 1
unfolding poll_once poll_entries canonical_summary_name ingest get parse field_index decode_field
    put is_artifact_name decimal poll_entry ingest_file
stored = refl

abbrev logging : Spool (List String × ℕ)
logging = record { watcher = watcher; seen = empty; store = ([], 0) }

called : times "runback_summary_gen1.json" (run (logged gate) twice logging) ≡ 1
unfolding poll_once poll_entries canonical_summary_name ingest get parse field_index decode_field
    put is_artifact_name decimal poll_entry ingest_file
called = refl

name_ingested_once_example :
    let q = run (logged gate) twice logging in
    (times "runback_summary_gen1.json" q ≤ 1)
    × ((is_processed empty "runback_summary_gen1.json" ≡ true) ⊎ (false ≡ true)
        → times "runback_summary_gen1.json" q ≡ 0)
name_ingested_once_example = name_ingested_once gate "runback_summary_gen1.json" logging twice

abbrev halted : Spool ℕ
halted = record spool { watcher = stop watcher }

halted_for_good_example :
    let q = run gate (polls false found ∷ []) halted in
    (is_stopped q.watcher ≡ true)
    × (q.seen ≡ empty)
    × (q.store ≡ 0)
    × ((ended : Bool) (listing : Listing ℕ)
        → (poll_once gate q ended listing).1
          ≡ some (if q.watcher.stopped then watcher_stopped else watcher_terminal))
unfolding is_stopped stop
halted_for_good_example = halted_for_good gate halted (polls false found ∷ []) refl

-- The document of another attempt under the name is refused.
refuses :
    is_refusal (poll_once gate spool false (entries (file "runback_summary_gen1.json" 2 ∷ []))).1
    ≡ true
unfolding poll_once poll_entries canonical_summary_name ingest get parse field_index decode_field
    put is_artifact_name decimal poll_entry ingest_file
refuses = refl
