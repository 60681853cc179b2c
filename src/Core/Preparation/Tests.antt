-- ===== src/Core/Preparation/Tests.antt =====
-- A preparation on concrete calls.
use fraglands.Prelude.{◌≡◌, ◌≢◌, ◌⊎◌, true, none, some, [], ◌∷◌, nat_eq, string_eq}
use fraglands.Prelude.Dict.{empty}
use fraglands.Core.Errors.{CoreError, ok, err, already_terminal}
use fraglands.Core.Scenario.{
  Facts, Revision, Refusal, refusal_reason, compile, compiled, refused, revision_id,
}
use fraglands.Core.Scenario.Tests.{whole}
use fraglands.Core.Preparation.{
  queued, ready, failed, Preparation, new, transition_error, compile_error, terminal,
}
use fraglands.Core.Preparation.Lifecycle.{marks_cancelled, run}
use fraglands.Core.Preparation.Prepare.{started, prepare_scenario, prepare_scenario_ends}

abbrev facts : Facts
facts = record {
  tick = 100;
  schema_version = 2;
  is_ineligible = true;
  eligibility_reasons = [];
  heroes = [];
  sha256 = "";
  match_id = 7;
}

abbrev fresh : Preparation
fresh = new "p" "r" 95 100 none

-- Another goroutine cancels the preparation while it is compiled.
prepare_scenario_ends_example :
    let out = compile whole 2 facts empty 4 1 (revision_id facts) in
    let (q, r) = prepare_scenario whole 2 fresh (marks_cancelled ∷ []) facts empty 4 1 in
    let between = run (started fresh) (marks_cancelled ∷ []) in
    (fresh.state ≡ queued
      → ((between ≡ started fresh)
          × ((rev : Revision)
              → out ≡ compiled rev
              → (r ≡ ok rev)
                × (q ≡ record fresh { state = ready; revision = some rev; failure = none }))
          × ((x : Refusal)
              → out ≡ refused x
              → (r ≡ err (compile_error x))
                × (q ≡ record fresh {
                  state = failed;
                  revision = none;
                  failure = some (record { code = "compile_refused"; message = refusal_reason x });
                })))
        ⊎ ((terminal between.state ≡ true)
            × (q ≡ between)
            × (r ≡ err (transition_error already_terminal))))
    × (fresh.state ≢ queued → (q ≡ fresh) × ((e : CoreError) × (r ≡ err (transition_error e))))
prepare_scenario_ends_example =
    prepare_scenario_ends whole 2 fresh (marks_cancelled ∷ []) facts empty 4 1
