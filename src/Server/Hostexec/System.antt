-- ===== src/Server/Hostexec/System.antt =====
-- server/hostexec/launcher.go: the goroutines of one launched process. The two captures, the readiness
-- watcher, the reaper and the callers of the handle interleave in any way; each event is one locked
-- section or one step of a goroutine between them.
pub mod Settled
pub mod Readiness
pub mod Outcome
pub mod Output
use fraglands.Prelude.{
  ℕ, zero, suc, ◌≡◌, refl, ap, ◌↔◌, String, Bool, true, false, not, ◌&&◌, ◌||◌, ◌+◌, ◌*◌, leb,
  length, Option, none, some, List, [], ◌∷◌, ◌++◌, ◌==◌, Eq, nat_beq, nat_beq_iff, nat_eq,
  if◌then◌else◌, arith,
}
use fraglands.Server.Hostexec.Buffer.{
  Bytes, newline, BoundedBuffer, new_bounded_buffer, write_line, mark_overflow, snapshot,
}
use fraglands.Server.Hostexec.Process.{
  Artifact, ReadinessFact, CrashReason, LaunchedProcess, new_launched_process, Exit, record_ready,
  readiness_timeout, begin_stop, settle, mark_running, mark_ready, mark_crashed, mark_stopped,
  deliver_artifact,
}

abbrev pub bytes_beq : Bytes → Bytes → Bool
bytes_beq [] [] = true
bytes_beq (x ∷ xs) (y ∷ ys) = nat_beq x y && bytes_beq xs ys
bytes_beq _ _ = false

pub bytes_beq_iff : (xs ys : Bytes) → (bytes_beq xs ys ≡ true) ↔ (xs ≡ ys)
bytes_beq_iff [] [] = ground arith
bytes_beq_iff [] (y ∷ ys) = ground arith
bytes_beq_iff (x ∷ xs) [] = ground arith
bytes_beq_iff (x ∷ xs) (y ∷ ys) = ground (arith, bytes_beq_iff xs ys, nat_beq_iff x y)

instance abbrev pub bytes_eq : Eq Bytes
bytes_eq = record { beq = bytes_beq; beq_iff = bytes_beq_iff }

-- `strings.TrimSuffix(line, "\r")`
unfoldable pub trim_return : Bytes → Bytes
trim_return [] = []
trim_return (x ∷ []) = if x == 13 then [] else x ∷ []
trim_return (x ∷ y ∷ ys) = x ∷ trim_return (y ∷ ys)

-- The text of a line that the child printed, which stands here without its newline: bufio.ScanLines
-- drops one trailing return, and capture another.
unfoldable pub line_text : Bytes → Bytes
unfolding trim_return
line_text line = trim_return (trim_return line)

-- Whether the scanner returns the line: with its newline it has to fit the buffer, which starts with
-- 64 KiB and may grow to `buf.limit+4096`.
unfoldable pub is_scannable : ℕ → Bytes → Bool
is_scannable limit line = leb (length line + 1) (64 * 1024) || leb (length line + 1) (limit + 4096)

-- The configuration that a process copies from its launcher, and the message of a readiness timeout,
-- which fmt makes of the line and the duration.
pub record Settings : Type 0 where
  pub ready_line : Bytes
  pub max_stdout_bytes : ℕ
  pub max_stderr_bytes : ℕ
  pub timeout_message : String

-- One capture goroutine: whether it still scans, and its buffer.
pub record Capture : Type 0 where
  pub scanning : Bool
  pub buffer : BoundedBuffer

-- Where the reaper stands.
pub data Reaper : Type 0 where
  waiting finished : Reaper
  exited marked stdout_delivered stderr_delivered : Exit → Reaper

-- `watching`: the watcher is at its select; `ready_ch` is the channel of capacity one to it.
pub record System : Type 0 where
  pub process : LaunchedProcess
  pub stdout : Capture
  pub stderr : Capture
  pub ready_ch : Option Bytes
  pub watching : Bool
  pub reaper : Reaper

-- The process behind a launch: start has made the buffers, runWatchers the goroutines.
unfoldable pub launched : Settings → System
unfolding new_launched_process new_bounded_buffer
launched c = record {
  process = new_launched_process;
  stdout = record { scanning = true; buffer = new_bounded_buffer c.max_stdout_bytes };
  stderr = record { scanning = true; buffer = new_bounded_buffer c.max_stderr_bytes };
  ready_ch = none;
  watching = true;
  reaper = waiting;
}

-- A call of a method of the handle from outside the package.
pub data Call : Type 0 where
  calls_mark_running calls_mark_stopped : Call
  calls_mark_ready : ReadinessFact → Call
  calls_mark_crashed : CrashReason → Call
  calls_deliver : Artifact → Call

unfoldable pub call : Call → LaunchedProcess → LaunchedProcess
unfolding mark_running mark_stopped mark_ready mark_crashed deliver_artifact
call calls_mark_running p = (mark_running p).0
call calls_mark_stopped p = (mark_stopped p).0
call (calls_mark_ready fact) p = (mark_ready fact p).0
call (calls_mark_crashed reason) p = (mark_crashed reason p).0
call (calls_deliver artifact) p = (deliver_artifact artifact p).0

-- A number is the reading of the clock.
pub data Event : Type 0 where
  -- the child prints a line, or the scanner of the stream ends, with an error or without
  scans_stdout scans_stderr : Bytes → Event
  ends_stdout ends_stderr : Bool → Event
  -- Wait has returned and both captures have ended; then the four sections of the reaper
  exits : Exit → Event
  marks_running : Event
  delivers_stdout delivers_stderr settles : ℕ → Event
  -- the cases of the select of the watcher
  sees_ready sees_timeout : ℕ → Event
  sees_done : Event
  -- the first section of a Stop, and the other methods
  stops : Event
  calls : Call → Event

-- capture, behind the loop
unfoldable pub capture_end : Capture → Bool → Capture
unfolding mark_overflow
capture_end s failed = record {
  scanning = false;
  buffer = if failed then mark_overflow s.buffer else s.buffer;
}

-- capture, one line that the child printed; one that the scanner does not return ends the scan with
-- bufio.ErrTooLong.
unfoldable pub capture_line : Capture → Bytes → Capture
unfolding write_line line_text is_scannable capture_end
capture_line s line =
    if is_scannable s.buffer.limit line
    then record s { buffer = write_line s.buffer (line_text line) }
    else capture_end s true

-- The send with a default: it is dropped where the channel is full.
unfoldable pub offer : Option Bytes → Bytes → Option Bytes
offer none line = some line
offer (some queued) line = some queued

-- The delivery of one captured stream, if it is not empty.
unfoldable pub deliver_stream : String → BoundedBuffer → ℕ → LaunchedProcess → LaunchedProcess
unfolding snapshot deliver_artifact
deliver_stream name buffer now p = elim (snapshot buffer) [
  | [] ↦ p
  | x ∷ xs ↦ (deliver_artifact (record { name = name; payload = x ∷ xs; delivered_at = now }) p).0
]

-- capture of stdout, one line
unfoldable pub scan_stdout : Settings → System → Bytes → System
unfolding capture_line offer line_text is_scannable
scan_stdout c s line = record s {
  stdout = capture_line s.stdout line;
  ready_ch =
      if is_scannable s.stdout.buffer.limit line && line_text line == c.ready_line
      then offer s.ready_ch (line_text line)
      else s.ready_ch;
}

guard : Bool → System → Option System
guard b s = if b then some s else none

-- reap; Wait has returned behind `exited`, and every section leads to the next one.
unfoldable pub reap_step : Event → System → Option System
unfolding mark_running deliver_stream settle guard
reap_step marks_running s = elim s.reaper [
  | exited e ↦ some (record s { process = (mark_running s.process).0; reaper = marked e })
  | _ ↦ none
]
reap_step (delivers_stdout now) s = elim s.reaper [
  | marked e ↦ some (record s {
    process = deliver_stream "stdout.log" s.stdout.buffer now s.process;
    reaper = stdout_delivered e;
  })
  | _ ↦ none
]
reap_step (delivers_stderr now) s = elim s.reaper [
  | stdout_delivered e ↦ some (record s {
    process = deliver_stream "stderr.log" s.stderr.buffer now s.process;
    reaper = stderr_delivered e;
  })
  | _ ↦ none
]
reap_step (settles now) s = elim s.reaper [
  | stderr_delivered e ↦ some (record s { process = settle e now s.process; reaper = finished })
  | _ ↦ none
]
reap_step (exits e) s = elim s.reaper [
  | waiting ↦
      guard (not s.stdout.scanning && not s.stderr.scanning) (record s { reaper = exited e })
  | _ ↦ none
]
reap_step _ s = none

-- The select of the readiness watcher; it runs once.
unfoldable pub watch_step : Settings → Event → System → Option System
unfolding record_ready readiness_timeout guard
watch_step c (sees_ready now) s = elim s.ready_ch [
  | none ↦ none
  | some line ↦
      guard s.watching
        (record s { process = record_ready line now s.process; ready_ch = none; watching = false })
]
watch_step c (sees_timeout now) s =
    guard s.watching (record s {
      process = (readiness_timeout c.timeout_message now s.process).0;
      watching = false;
    })
watch_step c sees_done s = guard (s.watching && s.process.done) (record s { watching = false })
watch_step c _ s = none

-- One event, where it can happen.
unfoldable pub step : Settings → Event → System → Option System
unfolding scan_stdout capture_line capture_end begin_stop call reap_step watch_step guard
step c (scans_stdout line) s = guard s.stdout.scanning (scan_stdout c s line)
step c (scans_stderr line) s =
    guard s.stderr.scanning (record s { stderr = capture_line s.stderr line })
step c (ends_stdout failed) s =
    guard s.stdout.scanning (record s { stdout = capture_end s.stdout failed })
step c (ends_stderr failed) s =
    guard s.stderr.scanning (record s { stderr = capture_end s.stderr failed })
step c stops s = some (record s { process = (begin_stop s.process).0 })
step c (calls f) s = some (record s { process = call f s.process })
step c (sees_ready now) s = watch_step c (sees_ready now) s
step c (sees_timeout now) s = watch_step c (sees_timeout now) s
step c sees_done s = watch_step c sees_done s
step c e s = reap_step e s

-- The newest event stands first.
pub data Reach (c : Settings) : List Event → System → Type 0 where
  begin : Reach c [] (launched c)
  next :
      {es : List Event} {s t : System} (e : Event)
      → Reach c es s
      → step c e s ≡ some t
      → Reach c (e ∷ es) t
