-- ===== src/Core/Preparation.antt =====
-- core/scenario-preparation.go and core/prepare.go: the lifecycle of a preparation. Each method runs
-- under the lock of the preparation's state owner; it takes the preparation and returns it. `none`
-- stands for a nil pointer and for a nil error.
pub mod Lifecycle
pub mod Prepare
mod Tests
use fraglands.Prelude.{ℕ, String, Bool, true, false, not, Option, none, some, if◌then◌else◌}
use fraglands.Core.Errors.{
  CoreError, Result, ok, err, nil_revision, nil_reason, already_terminal, cannot_transition,
}
use fraglands.Core.Grant.{ReplayGrant, ReplayRequest}
use fraglands.Core.Scenario.{
  Floats, Facts, Capabilities, Revision, Refusal, refusal_reason, Outcome, compiled, refused,
  compile, revision_id,
}

-- PreparationState
pub data State : Type 0 where
  queued running ready failed cancelled : State

-- PreparationState.Terminal
unfoldable pub terminal : State → Bool
terminal ready = true
terminal failed = true
terminal cancelled = true
terminal _ = false

pub record FailureReason : Type 0 where
  pub code : String
  pub message : String

-- ScenarioPreparation
pub record Preparation : Type 0 where
  pub id : String
  pub replay_id : String
  pub lead_in_start_tick : ℕ
  pub takeover_tick : ℕ
  pub grant : Option ReplayGrant
  pub state : State
  pub revision : Option Revision
  pub failure : Option FailureReason

-- NewScenarioPreparation
abbrev pub new : String → String → ℕ → ℕ → Option ReplayGrant → Preparation
new id replay_id lead_in takeover grant = record {
  id = id;
  replay_id = replay_id;
  lead_in_start_tick = lead_in;
  takeover_tick = takeover;
  grant = grant;
  state = queued;
  revision = none;
  failure = none;
}

-- ReplayRequest
unfoldable pub replay_request : Preparation → Option ReplayRequest
replay_request p = elim p.grant [
  | none ↦ none
  | some g ↦ some (record { preparation_id = p.id; replay_id = p.replay_id; grant = g.token })
]

-- The switch of transition: whether the next state may follow a state that is not terminal.
follows : State → State → Bool
follows running queued = true
follows running _ = false
follows ready running = true
follows ready _ = false
follows failed _ = true
follows cancelled _ = true
follows queued _ = false

-- transition
unfoldable pub transition :
    Preparation → State → Option Revision → Option FailureReason → Preparation × Option CoreError
unfolding terminal follows
transition p next revision failure =
    if terminal p.state
    then (p, some already_terminal)
    else if not (follows next p.state)
    then (p, some cannot_transition)
    else (record p { state = next; revision = revision; failure = failure }, none)

-- MarkRunning
unfoldable pub mark_running : Preparation → Preparation × Option CoreError
unfolding transition
mark_running p = transition p running none none

-- MarkReady
unfoldable pub mark_ready : Preparation → Option Revision → Preparation × Option CoreError
unfolding transition
mark_ready p none = (p, some nil_revision)
mark_ready p (some r) = transition p ready (some r) none

-- MarkFailed
unfoldable pub mark_failed : Preparation → Option FailureReason → Preparation × Option CoreError
unfolding transition
mark_failed p none = (p, some nil_reason)
mark_failed p (some r) = transition p failed none (some r)

-- MarkCancelled
unfoldable pub mark_cancelled : Preparation → Preparation × Option CoreError
unfolding transition
mark_cancelled p = transition p cancelled none none

-- An error of PrepareScenario: one of a transition, or the refusal of the compiler.
pub data PrepareError : Type 0 where
  transition_error : CoreError → PrepareError
  compile_error : Refusal → PrepareError

-- The end of PrepareScenario, once the compiler has answered.
unfoldable pub settle : Preparation → Outcome → Preparation × Result PrepareError Revision
unfolding mark_ready mark_failed
settle p (compiled rev) =
    let (q, e) = mark_ready p (some rev) in
    elim e [ none ↦ (q, ok rev) | some x ↦ (q, err (transition_error x)) ]
settle p (refused r) =
    let (q, e) =
      mark_failed p (some (record { code = "compile_refused"; message = refusal_reason r })) in
    elim e [ none ↦ (q, err (compile_error r)) | some x ↦ (q, err (transition_error x)) ]
