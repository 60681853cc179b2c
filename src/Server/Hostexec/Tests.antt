-- ===== src/Server/Hostexec/Tests.antt =====
-- A child that prints its readiness line and some output, is stopped, and is reaped; and a launch.
use fraglands.Prelude.{
  ℕ, ◌<◌, ◌≤◌, String, ◌≡◌, ◌≢◌, ◌↔◌, ◌⊎◌, refl, true, false, Option, none, some, List, [], ◌∷◌,
  ◌==◌, if◌then◌else◌, arith, length, string_eq,
}
use fraglands.Prelude.Int.{pos, to_ℕ}
use fraglands.Prelude.Dict.{empty, get, put}
use fraglands.Core.Errors.{ok, err}
use fraglands.Server.Supervisor.{
  ProcessSpec, is_valid, ProcessState, crashed, stopped, ready, terminal,
}
use fraglands.Server.Hostexec.Buffer.{write_line}
use fraglands.Server.Hostexec.Buffer.Bounded.{bounded}
use fraglands.Server.Hostexec.Process.{
  Exit, exit_error, CrashReason, returns, ReadinessFact, not_ready, wait_readiness, settle,
  begin_stop, stop_result, panics, process_crashed,
}
use fraglands.Server.Hostexec.System.{
  Settings, System, Event, scans_stdout, ends_stdout, ends_stderr, exits, marks_running,
  delivers_stdout, delivers_stderr, settles, sees_ready, stops, step, scan_stdout, line_text,
  trim_return, is_scannable, capture_line, capture_end, offer, Reach, begin, next, launched,
}
use fraglands.Server.Hostexec.System.Settled.{
  Later, later, here, Settled, done_for_good, stop_exact,
}
use fraglands.Server.Hostexec.System.Readiness.{printed, readiness_exact}
use fraglands.Server.Hostexec.System.Outcome.{ends_by_history}
use fraglands.Server.Hostexec.System.Output.{labels, output_exact}
use fraglands.Server.Hostexec.Launcher.{
  LaunchError, invalid_config, executable_not_allowed, Config, Launcher, Os, found, absent,
  new_launcher, command, settings_of, launch,
}
use fraglands.Server.Hostexec.Launcher.Safe.{
  Resolved, Made, IsTransactional, new_launcher_checks, launch_exact,
}

-- The line "R", and four bytes of stdout.
abbrev settings : Settings
settings = record {
  ready_line = 82 ∷ [];
  max_stdout_bytes = 4;
  max_stderr_bytes = 4;
  timeout_message = "late";
}

abbrev after : Event → System → System
after e s = elim (step settings e s) [ none ↦ s | some t ↦ t ]

-- The newest event stands first.
abbrev after_all : List Event → System
after_all [] = launched settings
after_all (e ∷ es) = after e (after_all es)

abbrev prints : List Event
prints = scans_stdout (65 ∷ 66 ∷ 67 ∷ []) ∷ sees_ready 1 ∷ scans_stdout (82 ∷ 13 ∷ []) ∷ []

abbrev events : List Event
events =
    delivers_stderr 4
    ∷ delivers_stdout 3
    ∷ marks_running
    ∷ exits (exit_error (pos 1))
    ∷ ends_stderr false
    ∷ ends_stdout false
    ∷ stops
    ∷ prints

printing : Reach settings prints (after_all prints)
unfolding step scan_stdout line_text trim_return is_scannable capture_line capture_end write_line
    offer launched
printing = next _ (next _ (next _ begin refl) refl) refl

history : Reach settings events (after_all events)
unfolding step scan_stdout line_text trim_return is_scannable capture_line capture_end write_line
    offer launched
history =
    next _
      (next _ (next _ (next _ (next _ (next _ (next _ printing refl) refl) refl) refl) refl) refl)
      refl

abbrev ended : System
ended = after_all (settles 5 ∷ events)

history_ended : Reach settings (settles 5 ∷ events) ended
unfolding step settle scan_stdout line_text trim_return is_scannable capture_line capture_end
    write_line offer launched
history_ended = next _ history refl

-- A Stop behind the end changes nothing.
once_more : Later settings ended (after stops ended)
unfolding step begin_stop settle scan_stdout line_text trim_return is_scannable capture_line
    capture_end write_line offer launched
once_more = later stops here refl

done : ended.process.done ≡ true
unfolding step settle launched
done = refl

done_for_good_example :
    (terminal ended.process.state ≡ true) × Settled ended.process (after stops ended).process
done_for_good_example = done_for_good history_ended done once_more

stop_exact_example :
    let p = ended.process in
    let first = (begin_stop p).1 in
    (first ≢ panics)
    × ((first ≡ returns none) ↔ (p.state ≡ stopped))
    × (p.state ≡ crashed
        → (x : CrashReason) × (p.reason ≡ some x)
          × (first ≡ returns (some (process_crashed (some x.code)))))
    × (p.done ≡ true
        → ((p.state ≡ stopped) × (stop_result p ≡ returns none))
          ⊎ ((p.state ≡ crashed)
              × ((x : CrashReason) × (p.reason ≡ some x)
                  × (stop_result p ≡ returns (some (process_crashed (some x.code)))))))
stop_exact_example = stop_exact history_ended

is_stopped : ended.process.state ≡ stopped
unfolding step settle scan_stdout line_text trim_return is_scannable capture_line capture_end
    write_line offer launched
is_stopped = refl

readiness_exact_example :
    let s = after_all prints in
    let p = s.process in
    ((f : ReadinessFact)
      → p.fact ≡ some f
      → (f.evidence ≡ 82 ∷ []) × (printed (82 ∷ []) prints ≡ true))
    × ((p.ready_closed ≡ true) ↔ ((p.fact ≢ none) ⊎ (terminal p.state ≡ true)))
    × (p.ready_closed ≡ true → wait_readiness true p ≡ err not_ready → terminal p.state ≡ true)
    × ((now : ℕ) (t : System)
        → step settings (sees_ready now) s ≡ some t
        → terminal p.state ≡ false
        → (t.process.state ≡ ready)
          × (t.process.fact ≡ some (record { evidence = 82 ∷ []; recorded_at = now }))
          × (t.process.ready_closed ≡ true))
readiness_exact_example = readiness_exact printing tt

ends_by_history_example :
    let s = after_all events in
    (s.process.done ≡ terminal s.process.state)
    × ((now : ℕ) (t : System)
        → step settings (settles now) s ≡ some t
        → (e : Exit) × (some (exit_error (pos 1)) ≡ some e)
          × (◌≡◌ {A = ProcessState × Option CrashReason}
              (t.process.state, t.process.reason)
              (stopped, none))
          × (t.process.done ≡ true)
          × (t.process.wait_closed ≡ true)
          × (t.process.ready_closed ≡ true))
ends_by_history_example = ends_by_history history tt

output_exact_example :
    let out = bounded 4 (82 ∷ 10 ∷ 65 ∷ 66 ∷ 67 ∷ 10 ∷ []) in
    (labels ended.process.artifacts ≡ ("stdout.log", 82 ∷ 10 ∷ 65 ∷ 10 ∷ []) ∷ [])
    × (length out ≤ 4)
    × (length (bounded 4 []) ≤ 4)
unfolding line_text trim_return
output_exact_example = output_exact (omega arith) (omega arith) history_ended tt done

-- A disk is the list of its directories.
abbrev os : Os (List String)
os = record {
  is_abs = λ p. true;
  clean = λ p. p;
  rel = λ root dir. some "gen-1";
  stat = λ d p. elim d [ [] ↦ if p == "/bin/game" then found true true else absent | _ ↦ absent ];
  mkdir = λ d p. (p ∷ d, true);
  mkdir_all = λ d p. (p ∷ d, true);
  remove = λ d p. elim d [ [] ↦ [] | _ ∷ rest ↦ rest ];
  eval_symlinks = λ d p. some p;
  starts = λ d c. true;
}

abbrev config : Config
config = record {
  allowlist = put empty "game" "/bin/game";
  executable = "game";
  spool_root = "/s";
  ready_line = 82 ∷ [];
  ready_timeout = pos 1000;
  stop_grace_period = pos 0;
  max_stdout_bytes = pos 0;
  max_stderr_bytes = pos 0;
}

abbrev launcher : Launcher
launcher = record {
  exec_path = "/bin/game";
  spool_root = "/s";
  ready_line = 82 ∷ [];
  ready_timeout = pos 1000;
  stop_grace = pos 5000000000;
  max_stdout_bytes = pos 65536;
  max_stderr_bytes = pos 65536;
}

makes : (new_launcher os config []).1 ≡ ok launcher
unfolding new_launcher put get
makes = refl

new_launcher_checks_example :
    let (made, r) = new_launcher os config [] in
    ((l : Launcher)
      → r ≡ ok l
      → Resolved os config [] l
        × (os.is_abs "/s" ≡ true)
        × (l.spool_root ≡ "/s")
        × (os.mkdir_all [] l.spool_root ≡ (made, true))
        × (l.ready_line ≢ [])
        × (0 < to_ℕ l.ready_timeout)
        × (0 < to_ℕ l.stop_grace)
        × (0 < to_ℕ l.max_stdout_bytes)
        × (0 < to_ℕ l.max_stderr_bytes))
    × ((e : LaunchError) → r ≡ err e → (e ≡ invalid_config) ⊎ (e ≡ executable_not_allowed))
new_launcher_checks_example = new_launcher_checks os config []

abbrev spec : ProcessSpec
spec = record { generation = 1; port = 7777; spool_dir = "/s/gen-1" }

transactional : IsTransactional os
transactional = record { mkdir_fails = λ d p h. absurd (ground arith); undone = λ d p h. refl }

launches : (launch os launcher spec false [] "late" []).0 ≡ "/s/gen-1" ∷ []
unfolding launch
launches = refl

launch_exact_example :
    let (made, r) = launch os launcher spec false [] "late" [] in
    ((e : LaunchError) → r ≡ err e → made ≡ [])
    × ((sp : ProcessSpec) (s : System)
        → r ≡ ok (sp, s)
        → (sp ≡ spec)
          × (is_valid spec ≡ true)
          × (false ≡ false)
          × Made os "/s" "/s/gen-1" [] made
          × (os.starts made (command os launcher spec [] "/s/gen-1") ≡ true)
          × (s ≡ launched (settings_of os launcher "late")))
launch_exact_example = launch_exact os transactional launcher spec false [] "late" []
