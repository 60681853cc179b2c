-- ===== src/Core/Scenario/Tests.antt =====
-- The compiler on concrete facts.
use fraglands.Prelude.{
  ℕ, ◌+◌, ◌/◌, ◌%◌, ◌^◌, ◌<◌, ◌≤◌, ◌≡◌, ◌↔◌, refl, true, false, [], ◌∷◌, ltb, leb, nat_eq,
  string_eq, arith,
}
use fraglands.Prelude.Dict.{get, put}
use fraglands.Core.Scenario.{
  Floats, Reading, Vector, Facts, complete, Revision, field_omission, hero_omissions,
  heroes_omissions, eligibility_omissions, collect_omissions, granted_fidelity, replay_identity_id,
  lead_in_start_tick, compile, compiled, default_capabilities,
}
use fraglands.Core.Scenario.Grade.{Reconstructible, complete_iff}
use fraglands.Core.Scenario.LeadIn.{lead_in_window}

-- Whole numbers in place of the floats.
abbrev pub whole : Floats
whole = record {
  Float = ℕ;
  five = 5;
  ten = 10;
  zero = 0;
  le = leb;
  lt = ltb;
  div = ◌/◌;
  to_uint32 = λ n. n % 2 ^ 32;
  to_uint32_range = λ n. omega arith;
}

abbrev seen : Reading
seen = record { present = true; freshness_ticks = 1; missing_reason = "" }

abbrev seen_vector : Vector
seen_vector = record { x = seen; y = seen; z = seen }

abbrev facts : Facts
facts = record {
  tick = 100;
  schema_version = 2;
  is_ineligible = false;
  eligibility_reasons = [];
  heroes =
      record {
        player_slot = 3;
        position = seen_vector;
        facing = seen_vector;
        velocity = seen_vector;
      }
      ∷ [];
  sha256 = "";
  match_id = 0;
}

abbrev revision : Revision
revision = record {
  id = "v";
  replay_id = "unknown-replay";
  lead_in_start_tick = 95;
  takeover_tick = 100;
  fidelity = complete;
  omissions = [];
}

compiles : compile whole 2 facts default_capabilities 4 1 "v" ≡ compiled revision
unfolding compile replay_identity_id lead_in_start_tick granted_fidelity collect_omissions
    eligibility_omissions heroes_omissions hero_omissions field_omission get default_capabilities
    put
compiles = refl

complete_iff_example :
    ((revision.fidelity ≡ complete) ↔ Reconstructible default_capabilities 4 facts)
    × ((revision.fidelity ≡ complete) ↔ (revision.omissions ≡ []))
complete_iff_example = complete_iff whole 2 facts default_capabilities 4 1 "v" revision compiles

lead_in_window_example :
    let start = lead_in_start_tick whole 100 1 in
    let ticks = whole.to_uint32 (whole.div whole.five 1) in
    (start ≤ 100)
    × (100 ≤ start + ticks)
    × (ticks ≤ 100 → start + ticks ≡ 100)
    × (100 < ticks → start ≡ 0)
    × (start < 2 ^ 32)
lead_in_window_example = lead_in_window whole 100 1 refl (omega arith)
