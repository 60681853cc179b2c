-- ===== src/Server/Summary/Tests.antt =====
-- A summary document, its decoding, and a document with a key twice.
use fraglands.Prelude.{ℕ, String, ◌≡◌, ◌↔◌, refl, some, List, [], ◌∷◌}
use fraglands.Prelude.Dict.{get, put}
use fraglands.Core.Errors.{ok, err}
use fraglands.Server.Summary.{
  malformed, TerminalSummary, Json, field_index, decode_field, visit, parse,
}
use fraglands.Server.Summary.Sound.{Decoded}
use fraglands.Server.Summary.Exact.{parse_exact}

abbrev Document : Type 0
Document = List (String × (String × ℕ))

abbrev json : Json Document
json = record {
  Value = String × ℕ;
  size = λ d. 300;
  members = λ d. some d;
  as_string = λ v. some v.0;
  as_uint64 = λ v. some v.1;
}

abbrev document : Document
document =
    ("ending", ("secure", 0))
    ∷ ("version", ("runback-attempt/v1", 0))
    ∷ ("replay_identity", ("r", 0))
    ∷ ("revision", ("v", 0))
    ∷ ("server_process_generation", ("", 3))
    ∷ ("attempt_generation", ("", 1))
    ∷ ("takeover_tick", ("", 100))
    ∷ ("ended_at_seconds", ("", 20))
    ∷ []

abbrev summary : TerminalSummary
summary = record {
  version = "runback-attempt/v1";
  revision = "v";
  replay_identity = "r";
  attempt_generation = 1;
  server_process_generation = 3;
  takeover_tick = 100;
  ending = "secure";
  ended_at_seconds = 20;
}

decodes : parse json document ≡ ok summary
unfolding parse visit field_index decode_field get put
decodes = refl

twice : parse json (("ending", ("secure", 0)) ∷ document) ≡ err malformed
unfolding parse visit field_index decode_field get put
twice = refl

parse_exact_example : (parse json document ≡ ok summary) ↔ Decoded json document summary
parse_exact_example = parse_exact json document summary
