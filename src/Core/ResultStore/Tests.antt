-- ===== src/Core/ResultStore/Tests.antt =====
-- The result store on concrete results.
use fraglands.Prelude.{◌≡◌, refl, some, [], ◌∷◌, string_eq, nat_eq}
use fraglands.Prelude.Dict.{get}
use fraglands.Core.Errors.{ok, result_already_accepted}
use fraglands.Core.ResultStore.{AttemptResult, new, accept, accept_all, lookup, accepted_stays}

abbrev first : AttemptResult
first = record {
  id = "1";
  account_id = "a";
  revision_id = "v";
  process_generation = 2;
  attempt_generation = 3;
  replay_id = "r";
  takeover_tick = 9;
}

abbrev second : AttemptResult
second = record first { id = "2" }

accepted_stays_example :
    let t = accept_all (accept new (some first)).0 (second ∷ []) in
    (lookup t "a" 2 3 ≡ ok first) × (accept t (some second) ≡ (t, some result_already_accepted))
unfolding accept get
accepted_stays_example = accepted_stays new first (second ∷ []) second refl refl
