-- ===== src/Server/Hostexec/Process.antt =====
-- server/hostexec/launcher.go: LaunchedProcess, the handle of one child. Each method is a locked
-- section, a function of the handle; a channel is whether it is closed, and a clock reading is an
-- argument. The state is one of server/process-state.go.
use Prim.Native.String.{◌++◌ as ◌⧺◌}
use fraglands.Prelude.{
  ℕ, String, Bool, true, false, not, ◌||◌, Option, none, some, List, [], ◌∷◌, ◌++◌, if◌then◌else◌,
}
use fraglands.Prelude.Int.{ℤ, pos, negsuc}
use fraglands.Prelude.Decimal.{decimal}
use fraglands.Core.Errors.{Result, ok, err}
use fraglands.Server.Supervisor.{
  ProcessState, launching, running, ready, crashed, stopped, terminal,
}
use fraglands.Server.Hostexec.Buffer.{Bytes}

-- server/errors.go, the errors of a process, and the end of a context.
pub data ProcessError : Type 0 where
  not_running not_ready already_stopped no_readiness_fact readiness_already_recorded : ProcessError
  context_ended : ProcessError
  -- ErrCrashed, with the code of the crash where the error names one
  process_crashed : Option String → ProcessError

-- server/readiness.go
pub record ReadinessFact : Type 0 where
  pub evidence : Bytes
  pub recorded_at : ℕ

-- server/process.go
pub record CrashReason : Type 0 where
  pub code : String
  pub message : String
  pub detected_at : ℕ

-- server/artifact.go
pub record Artifact : Type 0 where
  pub name : String
  pub payload : Bytes
  pub delivered_at : ℕ

-- The fields of a LaunchedProcess that its mutex guards, and the channels that it closes.
pub record LaunchedProcess : Type 0 where
  pub state : ProcessState
  pub fact : Option ReadinessFact
  pub reason : Option CrashReason
  pub artifacts : List Artifact
  pub stop_requested : Bool
  pub pending_crash : Option CrashReason
  pub wait_closed : Bool
  pub ready_closed : Bool
  pub done : Bool
  pub stop_once : Bool

-- newLaunchedProcess
unfoldable pub new_launched_process : LaunchedProcess
new_launched_process = record {
  state = launching;
  fact = none;
  reason = none;
  artifacts = [];
  stop_requested = false;
  pending_crash = none;
  wait_closed = false;
  ready_closed = false;
  done = false;
  stop_once = false;
}

-- How the child ended: Wait without an error, an ExitError with its code (negative for a signal), or
-- another error of Wait.
pub data Exit : Type 0 where
  clean : Exit
  exit_error : ℤ → Exit
  wait_error : String → Exit

-- exitReasonLocked
unfoldable pub exit_reason : Exit → ℕ → CrashReason
unfolding decimal
exit_reason (exit_error (pos code)) now = record {
  code = "exit_nonzero";
  message = "process exited with code " ⧺ decimal code;
  detected_at = now;
}
exit_reason (exit_error (negsuc _)) now = record {
  code = "signaled";
  message = "process was killed by a signal";
  detected_at = now;
}
exit_reason (wait_error e) now = record {
  code = "exit_unexpected";
  message = "process wait failed: " ⧺ e;
  detected_at = now;
}
exit_reason clean now = record {
  code = "exit_unexpected";
  message = "process exited cleanly without being asked to stop";
  detected_at = now;
}

-- closeReadyChLocked
unfoldable pub close_ready : LaunchedProcess → LaunchedProcess
close_ready p = record p { ready_closed = true }

-- terminalLocked
unfoldable pub enter_terminal :
    ProcessState → Option CrashReason → LaunchedProcess → LaunchedProcess
unfolding close_ready
enter_terminal state reason p =
    close_ready (record p { state = state; reason = reason; wait_closed = true })

is_launching : ProcessState → Bool
is_launching launching = true
is_launching _ = false

is_running : ProcessState → Bool
is_running running = true
is_running _ = false

-- `p.state != Running && p.state != Ready`, negated
unfoldable pub is_accepting : ProcessState → Bool
is_accepting running = true
is_accepting ready = true
is_accepting _ = false

unfoldable pub is_some {ℓ} : {A : Type ℓ} → Option A → Bool
is_some none = false
is_some (some _) = true

-- markReady, of the readiness watcher
unfoldable pub record_ready : Bytes → ℕ → LaunchedProcess → LaunchedProcess
unfolding is_some terminal is_launching is_running close_ready
record_ready line now p =
    if is_some p.fact || terminal p.state
    then p
    else let q : LaunchedProcess =
        if is_launching p.state then record p { state = running } else p in
      if not (is_running q.state)
      then q
      else close_ready
          (record q { fact = some (record { evidence = line; recorded_at = now }); state = ready })

-- readinessTimeout, and whether it kills the group; the message is that of the typed reason.
unfoldable pub readiness_timeout : String → ℕ → LaunchedProcess → LaunchedProcess × Bool
unfolding terminal
readiness_timeout message now p = if terminal p.state then (p, false) else (
  record p {
    pending_crash =
        some (record { code = "readiness_timeout"; message = message; detected_at = now });
    stop_requested = true;
  },
  true,
)

-- What Stop does behind its first locked section: it returns, `panics` where that dereferences a nil
-- reason; it is the first and tears down; or it waits for the first.
pub data StopStart : Type 0 where
  returns : Option ProcessError → StopStart
  panics tears_down waits : StopStart

-- `fmt.Errorf("%w: %s", server.ErrCrashed, reason.Code)`
unfoldable pub crash_error : Option CrashReason → StopStart
crash_error none = panics
crash_error (some reason) = returns (some (process_crashed (some reason.code)))

-- The first locked section of Stop.
unfoldable pub begin_stop : LaunchedProcess → LaunchedProcess × StopStart
unfolding crash_error
begin_stop p = elim p.state [
  | stopped ↦ (p, returns none)
  | crashed ↦ (p, crash_error p.reason)
  | _ ↦
      if p.stop_once
      then (p, waits)
      else (record p { stop_once = true; stop_requested = true }, tears_down)
]

-- The last section of Stop, behind the close of `done`.
unfoldable pub stop_result : LaunchedProcess → StopStart
unfolding crash_error
stop_result p = elim p.state [ stopped ↦ returns none | _ ↦ crash_error p.reason ]

-- The last section of reap.
unfoldable pub settle : Exit → ℕ → LaunchedProcess → LaunchedProcess
unfolding enter_terminal exit_reason
settle exit now p =
    let q : LaunchedProcess = elim p.pending_crash [
      | some r ↦ enter_terminal crashed (some r) p
      | none ↦
          if p.stop_requested
          then enter_terminal stopped none p
          else enter_terminal crashed (some (exit_reason exit now)) p
    ] in
    record q { done = true }

-- Readiness
unfoldable pub readiness : LaunchedProcess → Result ProcessError ReadinessFact
readiness p = elim p.fact [ none ↦ err no_readiness_fact | some f ↦ ok f ]

-- MarkRunning
unfoldable pub mark_running : LaunchedProcess → LaunchedProcess × Option ProcessError
unfolding is_launching
mark_running p =
    if not (is_launching p.state)
    then (p, some not_running)
    else (record p { state = running }, none)

-- MarkReady
unfoldable pub mark_ready : ReadinessFact → LaunchedProcess → LaunchedProcess × Option ProcessError
unfolding is_some is_running
mark_ready fact p =
    if is_some p.fact
    then (p, some readiness_already_recorded)
    else if not (is_running p.state)
    then (p, some not_ready)
    else (record p { fact = some fact; state = ready }, none)

-- MarkCrashed
unfoldable pub mark_crashed : CrashReason → LaunchedProcess → LaunchedProcess × Option ProcessError
unfolding terminal enter_terminal
mark_crashed reason p =
    if terminal p.state
    then (p, some already_stopped)
    else (enter_terminal crashed (some reason) p, none)

-- MarkStopped
unfoldable pub mark_stopped : LaunchedProcess → LaunchedProcess × Option ProcessError
unfolding terminal enter_terminal
mark_stopped p =
    if terminal p.state then (p, some already_stopped) else (enter_terminal stopped none p, none)

-- WaitReadiness, woken by `readyCh` (`some`: what it reads then) or by the context.
unfoldable pub wait_readiness : Bool → LaunchedProcess → Result ProcessError ReadinessFact
wait_readiness woken p =
    if not woken then err context_ended else elim p.fact [ none ↦ err not_ready | some f ↦ ok f ]

-- DeliverArtifact
unfoldable pub deliver_artifact : Artifact → LaunchedProcess → LaunchedProcess × Option ProcessError
unfolding is_accepting
deliver_artifact artifact p =
    if not (is_accepting p.state)
    then (p, some not_running)
    else (record p { artifacts = p.artifacts ++ (artifact ∷ []) }, none)

-- CrashReason; the error is ErrCrashed alone.
unfoldable pub crash_reason : LaunchedProcess → Result ProcessError CrashReason
crash_reason p = elim p.state [
  | crashed ↦ elim p.reason [ none ↦ err (process_crashed none) | some r ↦ ok r ]
  | _ ↦ err (process_crashed none)
]
