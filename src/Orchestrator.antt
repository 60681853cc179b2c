-- ===== src/Orchestrator.antt =====
-- The package `orchestrator`. Its state is a value; a handler takes it and returns it, and runs to
-- its end without another call between its locked sections. The records that Go reaches through the
-- pointers of its maps live in the maps, and a change of a record is a `put` under its ID. Grants are
-- those of the HMAC authority. A principal is an account, `none` for nil.
pub mod Scenario
pub mod Claim
pub mod Join
pub mod Attribution
pub mod Server
pub mod History
pub mod Intents
pub mod Provenance
pub mod Access
pub mod Fencing
mod Tests
use fraglands.Prelude.{
  ℕ, String, Bool, true, false, not, ◌&&◌, Option, none, some, List, ◌≡◌, ◌↔◌, refl, Eq, ◌==◌,
  nat_eq, string_eq, eq_iff, if◌then◌else◌, arith,
}
use fraglands.Prelude.Dict.{Dict, empty}
use fraglands.Core.Errors.{CoreError, Result, ok, err}
use fraglands.Core.Grant.{Authority}
use fraglands.Core.Lobby.{Lobby}
use fraglands.Core.Intent.{JoinIntent}
use fraglands.Core.ResultStore.{ResultStore}
use fraglands.Core.Preparation.{Preparation, FailureReason}

-- orchestrator/errors.go, the ambiguity of orchestrator/admission.go, the typed error of
-- orchestrator/allocation-error.go, and the errors that are passed on.
pub data OrchestratorError : Type 0 where
  unknown_replay unknown_preparation unknown_intent process_not_ready unauthenticated :
      OrchestratorError
  forbidden no_steam_identity wrong_process_generation unadmitted_account : OrchestratorError
  grant_authority_required ambiguous_admission invite_random : OrchestratorError
  allocation_error : FailureReason → OrchestratorError
  core_error : CoreError → OrchestratorError

-- AllocatedProcess
pub record AllocatedProcess : Type 0 where
  pub generation : ℕ
  pub connect_address : String
  pub ready : Bool
  pub evidence : String

-- AllocatedProcess.MarkReady
unfoldable pub mark_ready : AllocatedProcess → String → AllocatedProcess × Bool
mark_ready p evidence =
    if p.ready then (p, false) else (record p { ready = true; evidence = evidence }, true)

pub record Admission : Type 0 where
  pub account_id : String
  pub revision_id : String
  pub process_generation : ℕ

pub record AdmissionKey : Type 0 where
  pub account_id : String
  pub process_generation : ℕ

abbrev pub admission_key_beq : AdmissionKey → AdmissionKey → Bool
admission_key_beq k j = k.account_id == j.account_id && k.process_generation == j.process_generation

pub admission_key_beq_iff : (k j : AdmissionKey) → (admission_key_beq k j ≡ true) ↔ (k ≡ j)
admission_key_beq_iff k j = ground (arith, eq_iff k.account_id j.account_id)

instance abbrev pub admission_key_eq : Eq AdmissionKey
admission_key_eq = record { beq = admission_key_beq; beq_iff = admission_key_beq_iff }

pub record Invitation : Type 0 where
  pub token : String
  pub prep_id : String
  pub account_id : String
  pub expires : ℕ
  pub used : Bool

-- core/replay-source.go
pub record ReplaySource : Type 0 where
  pub id : String
  pub label : String

-- Orchestrator, less its injected interfaces and its context.
pub record Orchestrator : Type 0 where
  pub prep_seq : ℕ
  pub intent_seq : ℕ
  pub preparations : Dict String Preparation
  pub owners : Dict String String
  pub lobbies : Dict String Lobby
  pub processes : Dict String AllocatedProcess
  pub alloc_failures : Dict String FailureReason
  pub intents : Dict String JoinIntent
  pub admissions : Dict AdmissionKey Admission
  pub invites : Dict String Invitation
  pub results : ResultStore
  pub sources : List ReplaySource
  pub grants : Authority

abbrev pub initial : List ReplaySource → Authority → Orchestrator
initial sources grants = record {
  prep_seq = 0;
  intent_seq = 0;
  preparations = empty;
  owners = empty;
  lobbies = empty;
  processes = empty;
  alloc_failures = empty;
  intents = empty;
  admissions = empty;
  invites = empty;
  results = record { results = empty };
  sources = sources;
  grants = grants;
}

-- NewOrchestrator; the grant authority `none` is nil.
unfoldable pub new : List ReplaySource → Option Authority → Result OrchestratorError Orchestrator
new sources none = err grant_authority_required
new sources (some grants) = ok (initial sources grants)
