-- ===== src/Core/Facts.antt =====
-- core/fidelity.go, core/scenario-revision.go, the capabilities of core/provider.go, and the fields
-- of the facts record of the package `analysis` of s2replay that the compiler reads. Numbers of type
-- uint32 are ℕ.
use fraglands.Prelude.{ℕ, ◌<◌, ◌^◌, String, Bool, not, ◌&&◌, List, ◌==◌, string_eq}
use fraglands.Prelude.Dict.{Dict}

pub data OmissionKind : Type 0 where
  not_observed stale unsupported ineligible : OmissionKind

pub record Omission : Type 0 where
  pub kind : OmissionKind
  pub subject : String
  pub required : Bool
  pub reason : String

-- CapabilityRequirement
pub record Capability : Type 0 where
  pub apply : Bool
  pub observe : Bool
  pub verify : Bool
  pub reset : Bool
  pub evidence : String

-- CapabilityRequirement.Supported
unfoldable pub supported : Capability → Bool
supported c = c.apply && (c.observe && (c.verify && (c.reset && not (c.evidence == ""))))

pub data Fidelity : Type 0 where
  preview complete : Fidelity

pub record Revision : Type 0 where
  pub id : String
  pub replay_id : String
  pub lead_in_start_tick : ℕ
  pub takeover_tick : ℕ
  pub fidelity : Fidelity
  pub omissions : List Omission

-- analysis.RunbackFloat, without its value, which the compiler does not read
pub record Reading : Type 0 where
  pub present : Bool
  pub freshness_ticks : ℕ
  pub missing_reason : String

-- a [3]RunbackFloat
pub record Vector : Type 0 where
  pub x : Reading
  pub y : Reading
  pub z : Reading

-- analysis.RunbackHero
pub record Hero : Type 0 where
  pub player_slot : ℕ
  pub position : Vector
  pub facing : Vector
  pub velocity : Vector

-- analysis.RunbackFacts; `sha256` and `match_id` are those of its source identity
pub record Facts : Type 0 where
  pub tick : ℕ
  pub schema_version : ℕ
  pub is_ineligible : Bool
  pub eligibility_reasons : List String
  pub heroes : List Hero
  pub sha256 : String
  pub match_id : ℕ

-- The float64 operations of the compiler. The conversion to uint32 yields a uint32, also out of
-- range, where Go leaves the value to the implementation.
pub record Floats : Type 1 where
  pub Float : Type 0
  pub five : Float
  pub ten : Float
  pub zero : Float
  pub le : Float → Float → Bool
  pub lt : Float → Float → Bool
  pub div : Float → Float → Float
  pub to_uint32 : Float → ℕ
  pub to_uint32_range : (f : Float) → to_uint32 f < 2 ^ 32

abbrev pub Capabilities : Type 0
Capabilities = Dict String Capability
