-- ===== src/Server/Hostexec/System/Outcome.antt =====
-- server/hostexec/launcher.go: how a launched process ends, and what it delivers, in the histories in
-- which only the package itself moves it.
use fraglands.Prelude.{
  ℕ, ◌≡◌, inl, inr, Bool, true, false, ◌||◌, Option, none, some, List, [], ◌∷◌, arith,
  if◌then◌else◌, Option-cases,
}
use fraglands.Server.Supervisor.{ProcessState, crashed, stopped, terminal}
use fraglands.Server.Hostexec.Process.{
  CrashReason, Exit, exit_reason, new_launched_process, is_some, record_ready, begin_stop, settle,
  mark_running, deliver_artifact, readiness_timeout,
}
use fraglands.Server.Hostexec.System.{
  Settings, System, Event, calls, exits, stops, sees_timeout, settles, scan_stdout, step, Reach,
  begin, next, launched, deliver_stream, reap_step, watch_step, guard, Reaper, exited, marked,
  stdout_delivered, stderr_delivered, finished,
}

-- No call from outside the package but Stop and the waits.
abbrev pub Own : List Event → Type 0
Own [] = Unit
Own (calls _ ∷ es) = ⊥
Own (_ ∷ es) = Own es

pub tail-Own : (e : Event) (es : List Event) → Own (e ∷ es) → Own es
tail-Own (calls _) es u = absurd u
tail-Own e es u = u

-- Whether a Stop was begun, whether and when the readiness wait timed out, and how the child ended.
abbrev pub stop_asked : List Event → Bool
stop_asked [] = false
stop_asked (stops ∷ es) = true
stop_asked (_ ∷ es) = stop_asked es

abbrev pub timed_out : List Event → Option ℕ
timed_out [] = none
timed_out (sees_timeout now ∷ es) = some now
timed_out (_ ∷ es) = timed_out es

abbrev pub exit_of : List Event → Option Exit
exit_of [] = none
exit_of (exits e ∷ es) = some e
exit_of (_ ∷ es) = exit_of es

abbrev pub exit_at : Reaper → Option Exit
exit_at (exited e) = some e
exit_at (marked e) = some e
exit_at (stdout_delivered e) = some e
exit_at (stderr_delivered e) = some e
exit_at _ = none

abbrev pub timeout_reason : Settings → Option ℕ → Option CrashReason
timeout_reason c none = none
timeout_reason c (some now) =
    some (record { code = "readiness_timeout"; message = c.timeout_message; detected_at = now })

abbrev pub is_finished : Reaper → Bool
is_finished finished = true
is_finished _ = false

-- What the handle knows of the history before the reaper is at its end.
abbrev pub Tracked : Settings → List Event → System → Type 0
Tracked c es s =
    (is_finished s.reaper ≡ false
      → (terminal s.process.state ≡ false)
        × (s.process.done ≡ false)
        × (s.process.stop_requested ≡ (stop_asked es || is_some (timed_out es)))
        × (s.process.stop_once ≡ true → s.process.stop_requested ≡ true)
        × (s.process.pending_crash ≡ timeout_reason c (timed_out es))
        × (exit_of es ≡ exit_at s.reaper)
        × (s.watching ≡ true → timed_out es ≡ none))

step-Tracked :
    (c : Settings) (es : List Event) (e : Event) (s t : System)
    → step c e s ≡ some t
    → Own (e ∷ es)
    → Tracked c es s
    → Tracked c (e ∷ es) t
unfolding step scan_stdout reap_step watch_step guard mark_running deliver_artifact record_ready
    begin_stop deliver_stream readiness_timeout settle terminal is_some
step-Tracked c es e s t q u p = ground arith

pub Reach-Tracked :
    {c : Settings} {es : List Event} {s : System} → Reach c es s → Own es → Tracked c es s
unfolding launched new_launched_process terminal is_some
Reach-Tracked begin u = ground arith
Reach-Tracked {c} (next {es} {s} {t} e r q) u =
    step-Tracked c es e s t q u (Reach-Tracked r (tail-Own e es u))

step-done :
    (c : Settings) (es : List Event) (e : Event) (s t : System)
    → step c e s ≡ some t
    → Own (e ∷ es)
    → (is_finished s.reaper ≡ true → (s.process.done ≡ true) × (terminal s.process.state ≡ true))
    → is_finished t.reaper ≡ true
    → (t.process.done ≡ true) × (terminal t.process.state ≡ true)
unfolding step scan_stdout reap_step watch_step guard mark_running deliver_artifact record_ready
    begin_stop deliver_stream readiness_timeout settle terminal is_some
step-done c es e s t q u h f = ground arith

Reach-done :
    {c : Settings} {es : List Event} {s : System}
    → Reach c es s
    → Own es
    → is_finished s.reaper ≡ true
    → (s.process.done ≡ true) × (terminal s.process.state ≡ true)
unfolding launched
Reach-done begin u f = ground arith
Reach-done {c} (next {es} {s} {t} e r q) u f =
    step-done c es e s t q u (Reach-done r (tail-Own e es u)) f

-- How a process ends, by the history of its events alone.
abbrev pub verdict : Settings → List Event → Exit → ℕ → ProcessState × Option CrashReason
verdict c es e now = elim (timed_out es) [
  | some at ↦ (crashed, timeout_reason c (some at))
  | none ↦ if stop_asked es then (stopped, none) else (crashed, some (exit_reason e now))
]

-- Where no code outside the package moves the process but by Stop: it is in a terminal state exactly
-- where the reaper has closed `done`; and the reaper ends it by what has happened until then. A
-- readiness wait that timed out makes it Crashed with that reason, whether or not a Stop was begun;
-- otherwise a begun Stop makes it Stopped; otherwise it is Crashed with the reason of its exit.
pub ends_by_history :
    {c : Settings} {es : List Event} {s : System}
    → Reach c es s
    → Own es
    → (s.process.done ≡ terminal s.process.state)
      × ((now : ℕ) (t : System)
          → step c (settles now) s ≡ some t
          → (e : Exit) × (exit_of es ≡ some e)
            × ((t.process.state, t.process.reason) ≡ verdict c es e now)
            × (t.process.done ≡ true)
            × (t.process.wait_closed ≡ true)
            × (t.process.ready_closed ≡ true))
unfolding step reap_step settle is_some
ends_by_history {c} {es} {s} r u =
    let p = Reach-Tracked r u in
    let d = Reach-done r u in
    (
      ground (arith, p, d),
      (λ now t q. elim (Option-cases (exit_of es)) [
        | inl n ↦ absurd (ground (arith, p, q, n))
        | inr (e, n) ↦ (
          e,
          n,
          ground (arith, p, q, n),
          ground (arith, p, q),
          ground (arith, p, q),
          ground (arith, p, q),
        )
      ]),
    )
