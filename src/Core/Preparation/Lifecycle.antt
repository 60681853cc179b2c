-- ===== src/Core/Preparation/Lifecycle.antt =====
-- core/scenario-preparation.go and core/prepare.go: the lifecycle against its diagram.
use fraglands.Prelude.{
  ℕ, String, ◌≡◌, ◌≢◌, ◌↔◌, ◌⊎◌, inl, inr, refl, true, Option, none, some, List, [], ◌∷◌, arith,
  Option-cases,
}
use fraglands.Core.Errors.{CoreError}
use fraglands.Core.Grant.{ReplayGrant}
use fraglands.Core.Scenario.{Revision, preview}
use fraglands.Core.Preparation.{
  State, queued, running, ready, failed, cancelled, terminal, FailureReason, Preparation, new,
  mark_running, mark_ready, mark_failed, mark_cancelled,
}

-- The diagram of the states.
infix 40 ◌⟶◌
pub data ◌⟶◌ : State → State → Type 0 where
  start : queued ⟶ running
  finish : running ⟶ ready
  fail_queued : queued ⟶ failed
  fail_running : running ⟶ failed
  cancel_queued : queued ⟶ cancelled
  cancel_running : running ⟶ cancelled

-- The methods that change a preparation.
pub data Call : Type 0 where
  marks_running marks_cancelled : Call
  marks_ready : Option Revision → Call
  marks_failed : Option FailureReason → Call

unfoldable pub call : Preparation → Call → Preparation × Option CoreError
unfolding mark_running mark_ready mark_failed mark_cancelled
call p marks_running = mark_running p
call p marks_cancelled = mark_cancelled p
call p (marks_ready r) = mark_ready p r
call p (marks_failed r) = mark_failed p r

-- A preparation carries a revision exactly when it is ready, and a failure exactly when it failed.
pub record Inv (p : Preparation) : Type 0 where
  pub ready_has : p.state ≡ ready → p.revision ≢ none
  pub only_ready : p.state ≢ ready → p.revision ≡ none
  pub failed_has : p.state ≡ failed → p.failure ≢ none
  pub only_failed : p.state ≢ failed → p.failure ≡ none

ruleset edges = (start, finish, fail_queued, fail_running, cancel_queued, cancel_running)

-- A call that is accepted follows the diagram.
call_step : (p : Preparation) (c : Call) → (call p c).1 ≡ none → p.state ⟶ (call p c).0.state
unfolding call
call_step p marks_running h = grind (arith, edges)
call_step p marks_cancelled h = grind (arith, edges)
call_step p (marks_ready r) h = grind (arith, edges)
call_step p (marks_failed r) h = grind (arith, edges)

-- A call that is refused changes nothing.
pub call_refused :
    (p : Preparation) (c : Call) (e : CoreError) → (call p c).1 ≡ some e → (call p c).0 ≡ p
unfolding call
call_refused p c e h = ground arith

call-Inv : (p : Preparation) (c : Call) → Inv p → Inv (call p c).0
unfolding call
call-Inv p marks_running v = ground arith
call-Inv p marks_cancelled v = ground arith
call-Inv p (marks_ready r) v = ground arith
call-Inv p (marks_failed r) v = ground arith

unfoldable pub run : Preparation → List Call → Preparation
run p [] = p
run p (c ∷ cs) = run (call p c).0 cs

run-Inv : (p : Preparation) (cs : List Call) → Inv p → Inv (run p cs)
unfolding run
run-Inv p [] v = v
run-Inv p (c ∷ cs) v = run-Inv (call p c).0 cs (call-Inv p c v)

-- Whatever calls are made on a new preparation, it carries a revision exactly when it is ready and a
-- failure reason exactly when it failed.
pub run_carries :
    (id replay : String) (lead_in takeover : ℕ) (g : Option ReplayGrant) (cs : List Call)
    → let p = run (new id replay lead_in takeover g) cs in
      ((p.state ≡ ready) ↔ (p.revision ≢ none)) × ((p.state ≡ failed) ↔ (p.failure ≢ none))
run_carries id replay lead_in takeover g cs =
    let v = run-Inv (new id replay lead_in takeover g) cs (ground arith) in
    both (run (new id replay lead_in takeover g) cs) v
  where
    both :
        (p : Preparation)
        → Inv p
        → ((p.state ≡ ready) ↔ (p.revision ≢ none)) × ((p.state ≡ failed) ↔ (p.failure ≢ none))
    both p v = (
      (v.ready_has, λ h. ground (arith, v.only_ready)),
      (v.failed_has, λ h. ground (arith, v.only_failed)),
    )

terminal_refuses : (p : Preparation) (c : Call) → terminal p.state ≡ true → (call p c).0 ≡ p
unfolding call terminal
terminal_refuses p c h = ground arith

pub stays : (p : Preparation) (cs : List Call) → terminal p.state ≡ true → run p cs ≡ p
unfolding run
stays p [] h = refl
stays p (c ∷ cs) h = rw (terminal_refuses p c h) (stays p cs h)

-- Every call follows the diagram of the states or is refused and changes nothing; in a terminal
-- state every call is refused, so whatever is called later the preparation stays as it is.
pub call_follows :
    (p : Preparation) (c : Call) (cs : List Call)
    → ((p.state ⟶ (call p c).0.state) ⊎ ((call p c).0 ≡ p))
      × (terminal p.state ≡ true → run p (c ∷ cs) ≡ p)
call_follows p c cs = (step, λ h. stays p (c ∷ cs) h)
  where
    step : (p.state ⟶ (call p c).0.state) ⊎ ((call p c).0 ≡ p)
    step = elim (Option-cases (call p c).1) [
      | inl e ↦ inl (call_step p c e)
      | inr (x, e) ↦ inr (call_refused p c x e)
    ]

-- Each step of the diagram is taken by a call: the lifecycle is exactly the diagram.
pub diagram_taken :
    (p : Preparation) (s : State)
    → p.state ⟶ s
    → (c : Call) × ((call p c).1 ≡ none) × ((call p c).0.state ≡ s)
unfolding call
diagram_taken p s step = take p.state s step refl
  where
    a_revision : Revision
    a_revision = record {
      id = "";
      replay_id = "";
      lead_in_start_tick = 0;
      takeover_tick = 0;
      fidelity = preview;
      omissions = [];
    }

    a_reason : FailureReason
    a_reason = record { code = ""; message = "" }

    take :
        (u t : State)
        → u ⟶ t
        → p.state ≡ u
        → (c : Call) × ((call p c).1 ≡ none) × ((call p c).0.state ≡ t)
    take _ _ start e = (marks_running, ground arith, ground arith)
    take _ _ finish e = (marks_ready (some a_revision), ground arith, ground arith)
    take _ _ fail_queued e = (marks_failed (some a_reason), ground arith, ground arith)
    take _ _ fail_running e = (marks_failed (some a_reason), ground arith, ground arith)
    take _ _ cancel_queued e = (marks_cancelled, ground arith, ground arith)
    take _ _ cancel_running e = (marks_cancelled, ground arith, ground arith)
