-- ===== src/Core/Preparation/Prepare.antt =====
-- core/prepare.go: PrepareScenario. It takes the lock of the preparation once to mark it as running and
-- once more for the end; other goroutines may call the preparation in between.
use fraglands.Prelude.{
  ℕ, ◌≡◌, ◌≢◌, ◌⊎◌, inl, inr, refl, sym, subst, true, none, some, List, [], ◌∷◌, arith, Bool-cases,
}
use fraglands.Core.Errors.{Result, CoreError, ok, err, already_terminal, cannot_transition}
use fraglands.Core.Scenario.{
  Floats, Facts, Capabilities, Revision, Refusal, refusal_reason, compiled, refused, Outcome,
  compile, revision_id,
}
use fraglands.Core.Preparation.{
  queued, running, ready, failed, terminal, Preparation, mark_running, mark_ready, mark_failed,
  mark_cancelled, transition, PrepareError, transition_error, compile_error, settle,
}
use fraglands.Core.Preparation.Lifecycle.{
  Call, marks_running, marks_cancelled, marks_ready, marks_failed, call, run, stays,
}

module _ (F : Floats) (current_schema : ℕ) where
  -- PrepareScenario, with the calls that others make while it compiles; the omissions that it returns
  -- are those of the revision.
  unfoldable pub prepare_scenario :
      Preparation
      → List Call
      → Facts
      → Capabilities
      → ℕ
      → F.Float
      → Preparation × Result PrepareError Revision
  unfolding run
  prepare_scenario p others f caps max_freshness interval =
      let (q, e) = mark_running p in
      elim e [
        | some x ↦ (q, err (transition_error x))
        | none ↦
            settle (run q others)
              (compile F current_schema f caps max_freshness interval (revision_id f))
      ]

-- A running preparation, without a revision and a failure.
abbrev pub started : Preparation → Preparation
started p = record p { state = running; revision = none; failure = none }

call-started :
    (p : Preparation) (c : Call)
    → ((call (started p) c).0 ≡ started p) ⊎ (terminal (call (started p) c).0.state ≡ true)
unfolding call terminal mark_running mark_ready mark_failed mark_cancelled transition
call-started p marks_running = inl (ground arith)
call-started p marks_cancelled = inr (ground arith)
call-started p (marks_ready none) = inl (ground arith)
call-started p (marks_ready (some r)) = inr (ground arith)
call-started p (marks_failed none) = inl (ground arith)
call-started p (marks_failed (some r)) = inr (ground arith)

-- What calls make of a running preparation: nothing, or they end it.
started_or_over :
    (p : Preparation) (cs : List Call)
    → (run (started p) cs ≡ started p) ⊎ (terminal (run (started p) cs).state ≡ true)
unfolding run
started_or_over p [] = inl refl
started_or_over p (c ∷ cs) = elim (call-started p c) [
  | inl same ↦
      subst (λ q. (run q cs ≡ started p) ⊎ (terminal (run q cs).state ≡ true)) (sym same)
        (started_or_over p cs)
  | inr over ↦ inr (rw (stays (call (started p) c).0 cs over) over)
]

settle_over :
    (p : Preparation) (out : Outcome)
    → terminal p.state ≡ true
    → settle p out ≡ (p, err (transition_error already_terminal))
unfolding settle mark_ready mark_failed transition
settle_over p (compiled rev) h = ground arith
settle_over p (refused x) h = ground arith

mark_running-started : (p : Preparation) → p.state ≡ queued → mark_running p ≡ (started p, none)
unfolding mark_running transition terminal
mark_running-started p h = ground arith

mark_running_refused :
    (p : Preparation) → p.state ≢ queued → (e : CoreError) × (mark_running p ≡ (p, some e))
unfolding mark_running transition terminal
mark_running_refused p h = elim (Bool-cases (terminal p.state)) [
  | inl over ↦ (already_terminal, ground arith)
  | inr live ↦ (cannot_transition, ground arith)
]

settle-started :
    (p : Preparation)
    → ((rev : Revision)
        → settle (started p) (compiled rev)
          ≡ (record p { state = ready; revision = some rev; failure = none }, ok rev))
      × ((x : Refusal)
          → settle (started p) (refused x) ≡ (
            record p {
              state = failed;
              revision = none;
              failure = some (record { code = "compile_refused"; message = refusal_reason x });
            },
            err (compile_error x),
          ))
unfolding settle mark_ready mark_failed transition terminal
settle-started p = ((λ rev. ground arith), (λ x. ground arith))

module _ (F : Floats) (current_schema : ℕ) where
  -- PrepareScenario on a queued preparation, whatever others call while it compiles: either these
  -- calls have left the preparation running, and then it ends it, ready with just the revision that
  -- the compiler built, or failed with the one reason of its refusal and no revision; or they have
  -- ended it, and then it leaves it as it is and returns ErrAlreadyTerminal. On a preparation that is
  -- not queued it returns an error and changes nothing.
  pub prepare_scenario_ends :
      (p : Preparation) (others : List Call) (f : Facts) (caps : Capabilities) (max_freshness : ℕ)
      (interval : F.Float)
      → let out = compile F current_schema f caps max_freshness interval (revision_id f) in
        let (q, r) = prepare_scenario F current_schema p others f caps max_freshness interval in
        let between = run (started p) others in
        (p.state ≡ queued
          → ((between ≡ started p)
              × ((rev : Revision)
                  → out ≡ compiled rev
                  → (r ≡ ok rev)
                    × (q ≡ record p { state = ready; revision = some rev; failure = none }))
              × ((x : Refusal)
                  → out ≡ refused x
                  → (r ≡ err (compile_error x))
                    × (q ≡ record p {
                      state = failed;
                      revision = none;
                      failure =
                          some (record { code = "compile_refused"; message = refusal_reason x });
                    })))
            ⊎ ((terminal between.state ≡ true)
                × (q ≡ between)
                × (r ≡ err (transition_error already_terminal))))
        × (p.state ≢ queued → (q ≡ p) × ((e : CoreError) × (r ≡ err (transition_error e))))
  unfolding prepare_scenario
  prepare_scenario_ends p others f caps max interval = (
    (λ queued_p.
        let marked = mark_running-started p queued_p in
        let out = compile F current_schema f caps max interval (revision_id f) in
        elim (started_or_over p others) [
          | inl same ↦ inl (
            same,
            (λ rev compiles. (
              ground (arith, marked, same, compiles, (settle-started p).0 rev),
              ground (arith, marked, same, compiles, (settle-started p).0 rev),
            )),
            (λ x refuses. (
              ground (arith, marked, same, refuses, (settle-started p).1 x),
              ground (arith, marked, same, refuses, (settle-started p).1 x),
            )),
          )
          | inr over ↦
              let settled = settle_over (run (started p) others) out over in
              inr (over, ground (arith, marked, settled), ground (arith, marked, settled))
        ]),
    (λ unqueued.
        let (e, unmarked) = mark_running_refused p unqueued in
        (ground (arith, unmarked), (e, ground (arith, unmarked)))),
  )
