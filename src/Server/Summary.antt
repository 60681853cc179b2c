-- ===== src/Server/Summary.antt =====
-- server/terminal-summary.go: the terminal summary of an attempt, decoded from a JSON object.
mod Fields
pub mod Sound
pub mod Exact
mod Tests
use Prim.Native.String.{len, slice}
use fraglands.Prelude.{
  ℕ, ◌-◌, ◌^◌, ◌*◌, String, Bool, true, false, not, ◌&&◌, ◌||◌, Option, none, some, List, [], ◌∷◌,
  ◌==◌, nat_eq, string_eq, ltb, leb, if◌then◌else◌,
}
use fraglands.Prelude.Decimal.{decimal}
use fraglands.Prelude.Dict.{Dict, empty, get, put}
use fraglands.Core.Errors.{Result, ok, err}

-- The typed refusals.
pub data SummaryError : Type 0 where
  malformed unknown_version oversize duplicate traversal identity_mismatch unauthenticated :
      SummaryError

pub record TerminalSummary : Type 0 where
  pub version : String
  pub revision : String
  pub replay_identity : String
  pub attempt_generation : ℕ
  pub server_process_generation : ℕ
  pub takeover_tick : ℕ
  pub ending : String
  pub ended_at_seconds : ℕ

-- summaryField
pub data Field : Type 0 where
  version replay_identity revision server_process_generation attempt_generation : Field
  takeover_tick ending ended_at_seconds : Field

-- summaryFieldNames
abbrev pub field_name : Field → String
field_name version = "version"
field_name replay_identity = "replay_identity"
field_name revision = "revision"
field_name server_process_generation = "server_process_generation"
field_name attempt_generation = "attempt_generation"
field_name takeover_tick = "takeover_tick"
field_name ending = "ending"
field_name ended_at_seconds = "ended_at_seconds"

abbrev pub all_fields : List Field
all_fields =
    version ∷ replay_identity ∷ revision ∷ server_process_generation ∷ attempt_generation
    ∷ takeover_tick ∷ ending ∷ ended_at_seconds ∷ []

-- summaryFieldIndex
unfoldable pub field_index : List Field → String → Option Field
field_index [] key = none
field_index (f ∷ fs) key =
    let rest = field_index fs key in if field_name f == key then some f else rest

-- fastjson: the keys and values of a document in their order, `none` where it is not JSON or not an
-- object; and a value as a string or as a uint64, `none` where the accessor returns an error.
pub record Json (Data : Type 0) : Type 1 where
  pub Value : Type 0
  pub size : Data → ℕ
  pub members : Data → Option (List (String × Value))
  pub as_string : Value → Option String
  pub as_uint64 : Value → Option ℕ

abbrev pub zero_summary : TerminalSummary
zero_summary = record {
  version = "";
  revision = "";
  replay_identity = "";
  attempt_generation = 0;
  server_process_generation = 0;
  takeover_tick = 0;
  ending = "";
  ended_at_seconds = 0;
}

-- MaxTerminalSummaryBytes
abbrev pub max_bytes : ℕ
max_bytes = 64 * 1024

-- CheckArtifactSize
unfoldable pub is_oversize : ℕ → Bool
is_oversize size = ltb max_bytes size

-- validEndingNames
unfoldable pub is_ending : String → Bool
is_ending e =
    e == "secure"
    || (e == "abandoned-objective" || (e == "unresolved" || e == "infrastructure-failure"))

module _ {Data : Type 0} (J : Json Data) where
  -- decodeUint32
  unfoldable pub decode_uint32 : J.Value → Option ℕ
  decode_uint32 v = elim (J.as_uint64 v) [
    | none ↦ none
    | some u ↦ if ltb (2 ^ 32 - 1) u then none else some u
  ]

  -- decodeSummaryField; `none` is an error.
  unfoldable pub decode_field : TerminalSummary → Field → J.Value → Option TerminalSummary
  unfolding decode_uint32
  decode_field s version v = elim (J.as_string v) [
    | none ↦ none
    | some x ↦ some (record s { version = x })
  ]
  decode_field s replay_identity v = elim (J.as_string v) [
    | none ↦ none
    | some x ↦ some (record s { replay_identity = x })
  ]
  decode_field s revision v = elim (J.as_string v) [
    | none ↦ none
    | some x ↦ some (record s { revision = x })
  ]
  decode_field s ending v = elim (J.as_string v) [
    | none ↦ none
    | some x ↦ some (record s { ending = x })
  ]
  decode_field s server_process_generation v = elim (J.as_uint64 v) [
    | none ↦ none
    | some x ↦ some (record s { server_process_generation = x })
  ]
  decode_field s attempt_generation v = elim (J.as_uint64 v) [
    | none ↦ none
    | some x ↦ some (record s { attempt_generation = x })
  ]
  decode_field s takeover_tick v = elim (decode_uint32 v) [
    | none ↦ none
    | some x ↦ some (record s { takeover_tick = x })
  ]
  decode_field s ended_at_seconds v = elim (decode_uint32 v) [
    | none ↦ none
    | some x ↦ some (record s { ended_at_seconds = x })
  ]

  -- The visit of the members, with the names seen so far; `none` is a decode error.
  unfoldable pub visit :
      List (String × J.Value)
      → Dict String Bool
      → TerminalSummary
      → Option (Dict String Bool × TerminalSummary)
  visit [] seen s = some (seen, s)
  visit ((key, v) ∷ rest) seen s = elim (field_index all_fields key) [
    | none ↦ none
    | some f ↦ elim (get seen key) [
      | some _ ↦ none
      | none ↦ elim (decode_field s f v) [ none ↦ none | some t ↦ visit rest (put seen key true) t ]
    ]
  ]

  -- Whether a field of the list was not seen.
  unfoldable pub lacks_field : List Field → Dict String Bool → Bool
  lacks_field [] seen = false
  lacks_field (f ∷ fs) seen =
      let rest = lacks_field fs seen in
      elim (get seen (field_name f)) [ none ↦ true | some _ ↦ rest ]

  -- The checks of ParseTerminalSummaryArtifact behind the visit.
  unfoldable pub check_summary :
      Dict String Bool → TerminalSummary → Result SummaryError TerminalSummary
  unfolding lacks_field is_ending
  check_summary seen s =
      if lacks_field all_fields seen
      then err malformed
      else if not (s.version == "runback-attempt/v1")
      then err unknown_version
      else if s.replay_identity == "" || s.revision == ""
      then err malformed
      else if s.server_process_generation == 0 || s.attempt_generation == 0
      then err malformed
      else if not (is_ending s.ending)
      then err malformed
      else ok s

  -- ParseTerminalSummaryArtifact
  unfoldable pub parse : Data → Result SummaryError TerminalSummary
  unfolding visit check_summary is_oversize
  parse payload = if is_oversize (J.size payload) then err oversize else elim (J.members payload) [
    | none ↦ err malformed
    | some ms ↦ elim (visit ms empty zero_summary) [
      | none ↦ err malformed
      | some (seen, s) ↦ check_summary seen s
    ]
  ]

-- strings.HasPrefix and strings.HasSuffix
unfoldable pub has_prefix : String → String → Bool
has_prefix s p = leb (len p) (len s) && slice s 0 (len p) == p

unfoldable pub has_suffix : String → String → Bool
has_suffix s p = leb (len p) (len s) && slice s (len s - len p) (len s) == p

-- ValidateArtifactName; `true` is no error. The slice is that of Go where the prefix and the suffix do
-- not overlap, as these two cannot.
unfoldable pub is_artifact_name : String → ℕ → Bool
unfolding has_prefix has_suffix
is_artifact_name name generation =
    let digits = slice name (len "runback_summary_gen") (len name - len ".json") in
    not (name == "")
    && (has_prefix name "runback_summary_gen"
        && (has_suffix name ".json" && (not (digits == "") && digits == decimal generation)))
