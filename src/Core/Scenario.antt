-- ===== src/Core/Scenario.antt =====
-- core/provider.go and RevisionID of core/prepare.go: the compiler from replay facts to a scenario
-- revision.
pub mod Grade
pub mod LeadIn
pub mod Tests
use Prim.Native.String.{◌++◌ as ◌⧺◌, len, slice}
use fraglands.Prelude.{
  ℕ, ◌+◌, ◌-◌, ◌%◌, ◌<◌, ◌^◌, String, ◌≡◌, Bool, true, false, not, ◌&&◌, ◌||◌, Option, none, some,
  List, [], ◌∷◌, ◌++◌, ◌==◌, nat_eq, string_eq, ltb, if◌then◌else◌,
}
use fraglands.Prelude.Decimal.{decimal}
use fraglands.Prelude.Dict.{Dict, empty, get, put}
pub use fraglands.Core.Facts.{
  OmissionKind, not_observed, stale, unsupported, ineligible, Omission, Capability, Fidelity,
  preview, complete, Revision, Reading, Vector, Hero, Facts, Floats, Capabilities,
}
unfoldable pub use fraglands.Core.Facts.{supported}

-- The body of the loop of heroOmissions for one field: its omission, if it has one.
unfoldable pub field_omission : Capabilities → ℕ → ℕ → String → Reading → Option Omission
unfolding supported
field_omission caps max_freshness player_slot name value =
    let subject = "hero." ⧺ (decimal player_slot ⧺ ("." ⧺ name)) in
    let lacking : Omission = record {
      kind = unsupported;
      subject = subject;
      required = true;
      reason = "runtime cannot apply, observe, verify, and reset this field";
    } in
    if not value.present
    then some (record {
      kind = not_observed;
      subject = subject;
      required = true;
      reason = value.missing_reason;
    })
    else if max_freshness == 0 || ltb max_freshness value.freshness_ticks
    then some (record {
      kind = stale;
      subject = subject;
      required = true;
      reason = "parser evidence is older than the freshness limit";
    })
    else elim (get caps name) [
      | none ↦ some lacking
      | some c ↦ if not (supported c) then some lacking else none
    ]

-- The table of heroOmissions.
abbrev pub hero_fields : Hero → List (String × Reading)
hero_fields h =
    ("position.x", h.position.x)
    ∷ ("position.y", h.position.y)
    ∷ ("position.z", h.position.z)
    ∷ ("facing.x", h.facing.x)
    ∷ ("facing.y", h.facing.y)
    ∷ ("facing.z", h.facing.z)
    ∷ ("velocity.x", h.velocity.x)
    ∷ ("velocity.y", h.velocity.y)
    ∷ ("velocity.z", h.velocity.z)
    ∷ []

abbrev pub append_option : Option Omission → List Omission → List Omission
append_option none out = out
append_option (some o) out = o ∷ out

-- The loop of heroOmissions over its table.
unfoldable pub field_omissions : Capabilities → ℕ → ℕ → List (String × Reading) → List Omission
field_omissions caps max_freshness player_slot [] = []
field_omissions caps max_freshness player_slot ((name, value) ∷ fields) =
    append_option (field_omission caps max_freshness player_slot name value)
      (field_omissions caps max_freshness player_slot fields)

-- heroOmissions
unfoldable pub hero_omissions : Hero → Capabilities → ℕ → List Omission
unfolding field_omissions
hero_omissions h caps max_freshness =
    field_omissions caps max_freshness h.player_slot (hero_fields h)

-- The loop of collectOmissions over the heroes.
unfoldable pub heroes_omissions : List Hero → Capabilities → ℕ → List Omission
heroes_omissions [] caps max_freshness = []
heroes_omissions (h ∷ hs) caps max_freshness =
    hero_omissions h caps max_freshness ++ heroes_omissions hs caps max_freshness

-- `reasons[0]`, or the default where there is none
unfoldable pub first_reason : List String → String
first_reason [] = "replay facts are ineligible for scenario use"
first_reason (r ∷ _) = r

unfoldable pub eligibility_omissions : Facts → List Omission
unfolding first_reason
eligibility_omissions f =
    if f.is_ineligible
    then record {
      kind = ineligible;
      subject = "eligibility";
      required = true;
      reason = first_reason f.eligibility_reasons;
    }
      ∷ []
    else []

-- collectOmissions
unfoldable pub collect_omissions : Facts → Capabilities → ℕ → List Omission
collect_omissions f caps max_freshness =
    eligibility_omissions f ++ heroes_omissions f.heroes caps max_freshness

-- grantedFidelity
unfoldable pub granted_fidelity : List Omission → Fidelity
granted_fidelity [] = complete
granted_fidelity (o ∷ os) = let rest = granted_fidelity os in if o.required then preview else rest

-- replayIdentityID
unfoldable pub replay_identity_id : Facts → String
replay_identity_id f =
    if not (f.sha256 == "")
    then f.sha256
    else if not (f.match_id == 0)
    then "match-" ⧺ decimal f.match_id
    else "unknown-replay"

-- RevisionID of core/prepare.go; `len` and `slice` count bytes, as Go's do.
unfoldable pub revision_id : Facts → String
revision_id f =
    let sha = if ltb 16 (len f.sha256) then slice f.sha256 0 16 else f.sha256 in
    let source =
      if sha == "" && not (f.match_id == 0) then "match-" ⧺ decimal f.match_id else sha in
    let name = if source == "" then "unknown-replay" else source in
    "rev-" ⧺ (name ⧺ ("-" ⧺ decimal f.tick))

-- ErrCompilationRefused, by the branch that raises it; the version found and the one wanted.
pub data Refusal : Type 0 where
  zero_tick no_revision_id no_tick_interval : Refusal
  schema_version : ℕ → ℕ → Refusal

-- ErrCompilationRefused.Reason
unfoldable pub refusal_reason : Refusal → String
refusal_reason zero_tick = "facts tick is zero: no replay moment selected"
refusal_reason (schema_version found wanted) =
    "facts schema version " ⧺ (decimal found ⧺ (" unsupported, want " ⧺ decimal wanted))
refusal_reason no_revision_id = "revision id is empty: the caller must supply one"
refusal_reason no_tick_interval =
    "proven tick interval absent or invalid: lead-in seconds cannot be converted to ticks without provenance"

pub data Outcome : Type 0 where
  compiled : Revision → Outcome
  refused : Refusal → Outcome

-- The difference of two uint32, which wraps around.
sub_uint32 : ℕ → ℕ → ℕ
sub_uint32 x y = (x + (2 ^ 32 - y % 2 ^ 32)) % 2 ^ 32

module _ (F : Floats) where
  -- leadInStartTick
  unfoldable pub lead_in_start_tick : ℕ → F.Float → ℕ
  unfolding sub_uint32
  lead_in_start_tick takeover interval =
      let seconds = if F.lt F.ten F.five then F.ten else F.five in
      let ticks = F.to_uint32 (F.div seconds interval) in
      sub_uint32 takeover (if ltb takeover ticks then takeover else ticks)

-- analysis.RunbackFactsSchemaVersion is a parameter.
module _ (F : Floats) (current_schema : ℕ) where
  -- Compile; the omissions of its outcome are those of the revision.
  unfoldable pub compile : Facts → Capabilities → ℕ → F.Float → String → Outcome
  compile f caps max_freshness interval id =
      if f.tick == 0
      then refused zero_tick
      else if not (f.schema_version == current_schema)
      then refused (schema_version f.schema_version current_schema)
      else if id == ""
      then refused no_revision_id
      else if F.le interval F.zero
      then refused no_tick_interval
      else compiled (record {
        id = id;
        replay_id = replay_identity_id f;
        lead_in_start_tick = lead_in_start_tick F f.tick interval;
        takeover_tick = f.tick;
        fidelity = granted_fidelity (collect_omissions f caps max_freshness);
        omissions = collect_omissions f caps max_freshness;
      })

-- DefaultRunbackCapabilities, as the map that its loop builds.
abbrev kinematic : Capability
kinematic = record {
  apply = true;
  observe = true;
  verify = true;
  reset = true;
  evidence = "replay-derived kinematic field with parser freshness provenance";
}

default_subjects : List String
default_subjects =
    "position.x" ∷ "position.y" ∷ "position.z" ∷ "facing.x" ∷ "facing.y" ∷ "facing.z" ∷ "velocity.x"
    ∷ "velocity.y" ∷ "velocity.z" ∷ []

add_kinematic : Capabilities → List String → Capabilities
add_kinematic caps [] = caps
add_kinematic caps (s ∷ ss) = add_kinematic (put caps s kinematic) ss

unfoldable pub default_capabilities : Capabilities
unfolding default_subjects add_kinematic
default_capabilities = add_kinematic empty default_subjects
