-- ===== src/Server/Hostexec/System/Settled.antt =====
-- server/hostexec/launcher.go: the states that a launched process can be in, and what is settled.
use fraglands.Prelude.{
  ℕ, String, ◌≡◌, ◌≢◌, ◌↔◌, ◌⊎◌, inl, inr, Bool, true, false, none, some, List, ◌∷◌, arith,
  Option-cases, Bool-cases,
}
use fraglands.Server.Supervisor.{
  ProcessState, new_process, launching, running, ready, crashed, stopped, terminal,
}
use fraglands.Server.Hostexec.Buffer.{Bytes, BoundedBuffer}
use fraglands.Server.Hostexec.Process.{
  LaunchedProcess, CrashReason, begin_stop, stop_result, panics, returns, process_crashed,
  crash_error, new_launched_process, settle, enter_terminal, mark_running, mark_ready, mark_crashed,
  mark_stopped, deliver_artifact, record_ready, readiness_timeout,
}
use fraglands.Server.Hostexec.System.{
  Settings, System, scan_stdout, Event, exits, marks_running, delivers_stdout, delivers_stderr,
  settles, sees_ready, sees_timeout, sees_done, stops, calls, scans_stdout, scans_stderr,
  ends_stdout, ends_stderr, finished, Call, call, step, Reach, begin, next, launched,
  deliver_stream, reap_step, watch_step, guard,
}

-- What holds of a handle in between its locked sections.
abbrev pub Sound : LaunchedProcess → Type 0
Sound p =
    (p.state ≢ new_process)
    × (p.state ≡ crashed → p.reason ≢ none)
    × (p.state ≢ crashed → p.reason ≡ none)
    × (p.wait_closed ≡ terminal p.state)
    × (p.state ≡ ready → p.fact ≢ none)
    × ((p.state ≡ launching) ⊎ (p.state ≡ running) → p.fact ≡ none)
    × (terminal p.state ≡ true → p.ready_closed ≡ true)
    × (p.done ≡ true → terminal p.state ≡ true)

mark_running-Sound : (p : LaunchedProcess) → Sound p → Sound (mark_running p).0
unfolding mark_running terminal
mark_running-Sound p h = ground arith

call-Sound : (f : Call) (p : LaunchedProcess) → Sound p → Sound (call f p)
unfolding call mark_running mark_ready mark_crashed mark_stopped deliver_artifact terminal
    enter_terminal
call-Sound f p h = ground arith

record_ready-Sound :
    (line : Bytes) (now : ℕ) (p : LaunchedProcess) → Sound p → Sound (record_ready line now p)
unfolding record_ready terminal
record_ready-Sound line now p h = ground arith

begin_stop-Sound : (p : LaunchedProcess) → Sound p → Sound (begin_stop p).0
unfolding begin_stop terminal
begin_stop-Sound p h = ground arith

deliver_stream-Sound :
    (name : String) (b : BoundedBuffer) (now : ℕ) (p : LaunchedProcess)
    → Sound p
    → Sound (deliver_stream name b now p)
unfolding deliver_stream deliver_artifact terminal
deliver_stream-Sound name b now p h = ground arith

timeout-Sound :
    (m : String) (now : ℕ) (p : LaunchedProcess) → Sound p → Sound (readiness_timeout m now p).0
unfolding readiness_timeout terminal
timeout-Sound m now p h = ground arith

reap_step-Sound :
    (e : Event) (s t : System) → reap_step e s ≡ some t → Sound s.process → Sound t.process
unfolding reap_step guard
reap_step-Sound (exits x) s t q h = ground arith
reap_step-Sound marks_running s t q h = ground (arith, mark_running-Sound s.process h)
reap_step-Sound (delivers_stdout now) s t q h =
    ground (arith, deliver_stream-Sound "stdout.log" s.stdout.buffer now s.process h)
reap_step-Sound (delivers_stderr now) s t q h =
    ground (arith, deliver_stream-Sound "stderr.log" s.stderr.buffer now s.process h)
reap_step-Sound (settles now) s t q h = unfold settle terminal in ground arith
reap_step-Sound e s t q h = ground arith

step-Sound :
    (c : Settings) (e : Event) (s t : System)
    → step c e s ≡ some t
    → Sound s.process
    → Sound t.process
unfolding step scan_stdout watch_step guard
step-Sound c (calls f) s t q h = ground (arith, call-Sound f s.process h)
step-Sound c stops s t q h = ground (arith, begin_stop-Sound s.process h)
step-Sound c (sees_ready now) s t q h = elim (Option-cases s.ready_ch) [
  | inl n ↦ ground (arith, n)
  | inr (line, n) ↦ ground (arith, n, record_ready-Sound line now s.process h)
]
step-Sound c (sees_timeout now) s t q h =
    ground (arith, timeout-Sound c.timeout_message now s.process h)
step-Sound c sees_done s t q h = ground arith
step-Sound c (scans_stdout _) s t q h = ground arith
step-Sound c (scans_stderr _) s t q h = ground arith
step-Sound c (ends_stdout _) s t q h = ground arith
step-Sound c (ends_stderr _) s t q h = ground arith
step-Sound c e s t q h = reap_step-Sound e s t q h

pub Reach-Sound : {c : Settings} {es : List Event} {s : System} → Reach c es s → Sound s.process
unfolding launched new_launched_process terminal
Reach-Sound begin = ground arith
Reach-Sound {c} (next e r q) = step-Sound c e _ _ q (Reach-Sound r)

-- The reaper is at its end where it has closed `done`.
step-done :
    (c : Settings) (e : Event) (s t : System)
    → step c e s ≡ some t
    → (s.process.done ≡ true → s.reaper ≡ finished)
    → t.process.done ≡ true
    → t.reaper ≡ finished
unfolding step scan_stdout reap_step watch_step guard call mark_running mark_ready mark_crashed
    mark_stopped deliver_artifact record_ready begin_stop deliver_stream readiness_timeout
step-done c e s t q h d = ground arith

Reach-done :
    {c : Settings} {es : List Event} {s : System}
    → Reach c es s
    → s.process.done ≡ true
    → s.reaper ≡ finished
unfolding launched new_launched_process
Reach-done begin d = ground arith
Reach-done {c} (next e r q) d = step-done c e _ _ q (Reach-done r) d

-- What a settled process keeps.
abbrev pub Settled : LaunchedProcess → LaunchedProcess → Type 0
Settled p q =
    (q.done ≡ true)
    × (q.state ≡ p.state)
    × (q.reason ≡ p.reason)
    × (q.fact ≡ p.fact)
    × (q.artifacts ≡ p.artifacts)

step-Settled :
    (c : Settings) (e : Event) (s t : System)
    → step c e s ≡ some t
    → terminal s.process.state ≡ true
    → s.process.done ≡ true
    → s.reaper ≡ finished
    → Settled s.process t.process
unfolding step scan_stdout reap_step watch_step guard call mark_running mark_ready mark_crashed
    mark_stopped deliver_artifact record_ready begin_stop deliver_stream readiness_timeout terminal
step-Settled c e s t q h d f = ground arith

-- A sequence of events from one system to another.
pub data Later (c : Settings) (s : System) : System → Type 0 where
  here : Later c s s
  later : {t u : System} (e : Event) → Later c s t → step c e t ≡ some u → Later c s u

extend :
    {c : Settings} {es : List Event} {s t : System}
    → Reach c es s
    → Later c s t
    → (fs : List Event) × Reach c fs t
extend {es = es} r here = (es, r)
extend r (later e l q) = let (fs, u) = extend r l in (e ∷ fs, next e u q)

done_step :
    {c : Settings} {es : List Event} {s t : System} (e : Event)
    → Reach c es s
    → step c e s ≡ some t
    → s.process.done ≡ true
    → Settled s.process t.process
done_step {c} {s = s} {t = t} e r q d =
    step-Settled c e s t q (ground (arith, Reach-Sound r)) d (Reach-done r d)

-- Once the reaper has closed `done`, the process is in a terminal state, and whatever happens
-- afterwards, other calls of the handle included, its state, crash reason, readiness fact and
-- artifacts stay as they are.
pub done_for_good :
    {c : Settings} {es : List Event} {s t : System}
    → Reach c es s
    → s.process.done ≡ true
    → Later c s t
    → (terminal s.process.state ≡ true) × Settled s.process t.process
done_for_good r d here = ground (arith, Reach-Sound r)
done_for_good {c} r d (later e l q) =
    let (fs, u) = extend r l in
    let old = done_for_good r d l in ground (arith, old, done_step e u q)

is_stopped : ProcessState → Bool
is_stopped stopped = true
is_stopped _ = false

-- Stop, in any history. Its first section never dereferences a nil reason; it returns nil exactly
-- from the state Stopped, and ErrCrashed with the recorded code from Crashed. Behind the close of
-- `done` likewise, where these are the only two outcomes.
pub stop_exact :
    {c : Settings} {es : List Event} {s : System}
    → Reach c es s
    → let p = s.process in
      let first = (begin_stop p).1 in
      (first ≢ panics)
      × ((first ≡ returns none) ↔ (p.state ≡ stopped))
      × (p.state ≡ crashed
          → (x : CrashReason) × (p.reason ≡ some x)
            × (first ≡ returns (some (process_crashed (some x.code)))))
      × (p.done ≡ true
          → ((p.state ≡ stopped) × (stop_result p ≡ returns none))
            ⊎ ((p.state ≡ crashed)
                × ((x : CrashReason) × (p.reason ≡ some x)
                    × (stop_result p ≡ returns (some (process_crashed (some x.code)))))))
unfolding begin_stop stop_result crash_error terminal is_stopped
stop_exact {s = s} r =
    let h = Reach-Sound r in
    (
      ground (arith, h),
      ground (arith, h),
      (λ x. elim (Option-cases s.process.reason) [
        | inl n ↦ absurd (ground (arith, h, n))
        | inr (v, n) ↦ (v, n, ground (arith, n))
      ]),
      (λ d. elim (Bool-cases (is_stopped s.process.state)) [
        | inl e ↦ inl (ground (arith, e), ground (arith, e))
        | inr e ↦ elim (Option-cases s.process.reason) [
          | inl n ↦ absurd (ground (arith, h, n, e))
          | inr (v, n) ↦ inr (ground (arith, h, e, d), (v, n, ground (arith, h, n, e, d)))
        ]
      ]),
    )
