-- ===== src/Server/Hostexec/System/Readiness.antt =====
-- server/hostexec/launcher.go: what the readiness of a launched process proves, and who is woken.
use fraglands.Prelude.{
  ℕ, ◌≡◌, ◌≢◌, ◌↔◌, ◌⊎◌, inl, inr, Bool, true, false, ◌||◌, Option, none, some, List, [], ◌∷◌, ◌==◌,
  arith, Option-cases,
}
use fraglands.Core.Errors.{err}
use fraglands.Server.Supervisor.{terminal, ready}
use fraglands.Server.Hostexec.Buffer.{Bytes}
use fraglands.Server.Hostexec.Process.{
  ReadinessFact, not_ready, new_launched_process, is_some, wait_readiness, record_ready, begin_stop,
  settle, mark_running, mark_crashed, mark_stopped, deliver_artifact, readiness_timeout,
}
use fraglands.Server.Hostexec.System.{
  Settings, System, Event, calls, calls_mark_ready, scans_stdout, line_text, scan_stdout, call,
  step, Reach, begin, next, launched, deliver_stream, reap_step, watch_step, guard, bytes_eq,
  bytes_beq_iff, sees_ready,
}
use fraglands.Server.Hostexec.System.Settled.{Sound, Reach-Sound}

-- No call of the exported MarkReady.
abbrev pub Unmarked : List Event → Type 0
Unmarked [] = Unit
Unmarked (calls (calls_mark_ready _) ∷ es) = ⊥
Unmarked (_ ∷ es) = Unmarked es

tail-Unmarked : (e : Event) (es : List Event) → Unmarked (e ∷ es) → Unmarked es
tail-Unmarked (calls (calls_mark_ready _)) es u = absurd u
tail-Unmarked e es u = u

-- The child has printed the line on stdout, up to trailing returns.
abbrev pub printed : Bytes → List Event → Bool
printed line [] = false
printed line (scans_stdout l ∷ es) = (line_text l == line) || printed line es
printed line (_ ∷ es) = printed line es

-- An optional text, if any, is the line.
abbrev matches : Bytes → Option Bytes → Bool
matches line none = true
matches line (some l) = l == line

abbrev evidence_of : Option ReadinessFact → Option Bytes
evidence_of none = none
evidence_of (some f) = some f.evidence

abbrev Proven : Settings → List Event → System → Type 0
Proven c es s =
    (matches c.ready_line (evidence_of s.process.fact) ≡ true)
    × (is_some s.process.fact ≡ true → printed c.ready_line es ≡ true)
    × (matches c.ready_line s.ready_ch ≡ true)
    × (is_some s.ready_ch ≡ true → printed c.ready_line es ≡ true)
    × (s.process.ready_closed ≡ (is_some s.process.fact || terminal s.process.state))
    × (s.watching ≡ true → s.process.fact ≡ none)

step-Proven :
    (c : Settings) (es : List Event) (e : Event) (s t : System)
    → step c e s ≡ some t
    → Unmarked (e ∷ es)
    → Sound s.process
    → Proven c es s
    → Proven c (e ∷ es) t
unfolding step scan_stdout reap_step watch_step guard call mark_running mark_crashed mark_stopped
    deliver_artifact record_ready begin_stop deliver_stream readiness_timeout settle terminal
    is_some
step-Proven c es e s t q u h p = ground arith

Reach-Proven :
    {c : Settings} {es : List Event} {s : System} → Reach c es s → Unmarked es → Proven c es s
unfolding launched new_launched_process is_some terminal
Reach-Proven begin u = ground arith
Reach-Proven {c} (next {es} {s} {t} e r q) u =
    step-Proven c es e s t q u (Reach-Sound r) (Reach-Proven r (tail-Unmarked e es u))

-- In any history without a call of the exported MarkReady: a recorded readiness fact carries the
-- exact line, which the child has printed; the readiness channel is closed exactly when the fact is
-- recorded or the process is in a terminal state, so that a woken WaitReadiness returns the fact, or
-- ErrNotReady in a terminal state alone; and where the watcher receives a line before the process
-- has ended, it becomes ready with that fact.
pub readiness_exact :
    {c : Settings} {es : List Event} {s : System}
    → Reach c es s
    → Unmarked es
    → let p = s.process in
      ((f : ReadinessFact)
        → p.fact ≡ some f
        → (f.evidence ≡ c.ready_line) × (printed c.ready_line es ≡ true))
      × ((p.ready_closed ≡ true) ↔ ((p.fact ≢ none) ⊎ (terminal p.state ≡ true)))
      × (p.ready_closed ≡ true → wait_readiness true p ≡ err not_ready → terminal p.state ≡ true)
      × ((now : ℕ) (t : System)
          → step c (sees_ready now) s ≡ some t
          → terminal p.state ≡ false
          → (t.process.state ≡ ready)
            × (t.process.fact ≡ some (record { evidence = c.ready_line; recorded_at = now }))
            × (t.process.ready_closed ≡ true))
unfolding is_some wait_readiness terminal step watch_step guard record_ready
readiness_exact {c} {es} {s} r u =
    let h = Reach-Sound r in
    let p = Reach-Proven r u in
    (
      (λ f e. ground (arith, p, e, bytes_beq_iff f.evidence c.ready_line)),
      ground (arith, p),
      ground (arith, p),
      (λ now t q live. elim (Option-cases s.ready_ch) [
        | inl n ↦ absurd (ground (arith, n))
        | inr (line, n) ↦ ground (arith, h, p, q, live, n, bytes_beq_iff line c.ready_line)
      ]),
    )
