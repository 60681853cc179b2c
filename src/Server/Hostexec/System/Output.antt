-- ===== src/Server/Hostexec/System/Output.antt =====
-- server/hostexec/launcher.go: the artifacts of a launched process, from the lines of the child to the
-- delivery by the reaper.
use fraglands.Prelude.{
  ℕ, ◌+◌, ◌*◌, ◌||◌, ltb, if◌then◌else◌, Bool-cases, String, ◌≡◌, ◌<◌, ◌≤◌, refl, subst, inl, inr,
  Bool, true, false, some, List, [], ◌∷◌, ◌++◌, arith, length, append_nil, List-cases,
}
use fraglands.Server.Supervisor.{terminal}
use fraglands.Server.Hostexec.Buffer.{
  Bytes, newline, BoundedBuffer, snapshot, mark_overflow, write_line,
}
use fraglands.Server.Hostexec.Buffer.Bounded.{
  bounded, Captured, new_bounded_buffer-Captured, write_line-Captured, Captured-snapshot,
  length-bounded,
}
use fraglands.Server.Hostexec.Process.{
  LaunchedProcess, Artifact, new_launched_process, record_ready, begin_stop, settle, mark_running,
  deliver_artifact, readiness_timeout, is_accepting,
}
use fraglands.Server.Hostexec.System.{
  Settings, System, Capture, Event, scans_stdout, scans_stderr, ends_stdout, ends_stderr,
  trim_return, scan_stdout, line_text, is_scannable, step, Reach, begin, next, launched,
  deliver_stream, reap_step, watch_step, guard, Reaper, waiting, delivers_stdout, delivers_stderr,
  marked, stdout_delivered, stderr_delivered, finished, capture_line, capture_end,
}
use fraglands.Server.Hostexec.System.Settled.{Sound, Reach-Sound}
use fraglands.Server.Hostexec.System.Outcome.{Own, tail-Own, Reach-Tracked, is_finished}

-- A text with one more line of the child and its newline, unless the line has both 64 KiB or more and
-- the bound of the stream plus 4096 bytes or more.
abbrev pub with_line : ℕ → Bytes → Bytes → Bytes
with_line limit text line =
    if ltb (length line) (64 * 1024) || ltb (length line) (limit + 4096)
    then (text ++ trim_return (trim_return line)) ++ newline
    else text

-- The lines that the child has printed on a stream while it was scanned, under the bound on a line.
abbrev pub stdout_text : ℕ → List Event → Bytes
stdout_text limit [] = []
stdout_text limit (scans_stdout line ∷ es) = with_line limit (stdout_text limit es) line
stdout_text limit (_ ∷ es) = stdout_text limit es

abbrev pub stderr_text : ℕ → List Event → Bytes
stderr_text limit [] = []
stderr_text limit (scans_stderr line ∷ es) = with_line limit (stderr_text limit es) line
stderr_text limit (_ ∷ es) = stderr_text limit es

-- What a capture holds of a text; behind its end, the flag of the buffer says no more.
abbrev Holds : ℕ → Bytes → Capture → Type 0
Holds limit text s =
    (s.scanning ≡ true → Captured limit text s.buffer) × (snapshot s.buffer ≡ bounded limit text)

capture_end-Holds :
    (limit : ℕ) (text : Bytes) (s : Capture) (failed : Bool)
    → Holds limit text s
    → Holds limit text (capture_end s failed)
unfolding capture_end mark_overflow snapshot
capture_end-Holds limit text s failed (_, h) = ((λ e. absurd (ground arith)), ground (arith, h))

with_line-cases :
    (limit : ℕ) (text line : Bytes)
    → (is_scannable limit line ≡ true
        → with_line limit text line ≡ (text ++ line_text line) ++ newline)
      × (is_scannable limit line ≡ false → with_line limit text line ≡ text)
unfolding is_scannable line_text
with_line-cases limit text line = ground arith

capture_line-Holds :
    (limit : ℕ) (text line : Bytes) (s : Capture)
    → 0 < limit
    → s.scanning ≡ true
    → Holds limit text s
    → Holds limit (with_line limit text line) (capture_line s line)
unfolding capture_line
capture_line-Holds limit text line s pos on (h, same) =
    let on_limit = (h on).limited in
    let split = with_line-cases limit text line in
    elim (Bool-cases (is_scannable s.buffer.limit line)) [
      | inl fits ↦
          let g = write_line-Captured text (line_text line) s.buffer pos (h on) in
          let scanned : capture_line s line
              ≡ record s { buffer = write_line s.buffer (line_text line) } =
            ground (arith, fits) in
          let whole : with_line limit text line ≡ (text ++ line_text line) ++ newline =
            split.0 (ground (arith, fits, on_limit)) in
          rw (scanned, whole) ((λ _. g), Captured-snapshot g)
      | inr long ↦
          let scanned : capture_line s line ≡ capture_end s true = ground (arith, long) in
          let whole : with_line limit text line ≡ text = split.1 (ground (arith, long, on_limit)) in
          rw (scanned, whole) (capture_end-Holds limit text s true (h, same))
    ]

-- What an event does to the two captures.
abbrev stdout_after : Event → Capture → Capture
stdout_after (scans_stdout line) s = capture_line s line
stdout_after (ends_stdout failed) s = capture_end s failed
stdout_after _ s = s

abbrev stderr_after : Event → Capture → Capture
stderr_after (scans_stderr line) s = capture_line s line
stderr_after (ends_stderr failed) s = capture_end s failed
stderr_after _ s = s

abbrev scans : Event → Bool
scans (scans_stdout _) = true
scans _ = false

abbrev scans_err : Event → Bool
scans_err (scans_stderr _) = true
scans_err _ = false

step-captures :
    (c : Settings) (e : Event) (s t : System)
    → step c e s ≡ some t
    → (stdout_after e s.stdout ≡ t.stdout)
      × (stderr_after e s.stderr ≡ t.stderr)
      × (scans e ≡ true → s.stdout.scanning ≡ true)
      × (scans_err e ≡ true → s.stderr.scanning ≡ true)
unfolding step scan_stdout guard reap_step watch_step
step-captures c e s t q = ground arith

stdout_after-Holds :
    (limit : ℕ) (es : List Event) (e : Event) (s : Capture)
    → 0 < limit
    → (scans e ≡ true → s.scanning ≡ true)
    → Holds limit (stdout_text limit es) s
    → Holds limit (stdout_text limit (e ∷ es)) (stdout_after e s)
stdout_after-Holds limit es (scans_stdout line) s pos on h =
    capture_line-Holds limit (stdout_text limit es) line s pos (on refl) h
stdout_after-Holds limit es (ends_stdout failed) s pos on h =
    capture_end-Holds limit (stdout_text limit es) s failed h
stdout_after-Holds limit es e s pos on h = h

stderr_after-Holds :
    (limit : ℕ) (es : List Event) (e : Event) (s : Capture)
    → 0 < limit
    → (scans_err e ≡ true → s.scanning ≡ true)
    → Holds limit (stderr_text limit es) s
    → Holds limit (stderr_text limit (e ∷ es)) (stderr_after e s)
stderr_after-Holds limit es (scans_stderr line) s pos on h =
    capture_line-Holds limit (stderr_text limit es) line s pos (on refl) h
stderr_after-Holds limit es (ends_stderr failed) s pos on h =
    capture_end-Holds limit (stderr_text limit es) s failed h
stderr_after-Holds limit es e s pos on h = h

Reach-Holds :
    {c : Settings} {es : List Event} {s : System}
    → 0 < c.max_stdout_bytes
    → 0 < c.max_stderr_bytes
    → Reach c es s
    → Holds c.max_stdout_bytes (stdout_text c.max_stdout_bytes es) s.stdout
      × Holds c.max_stderr_bytes (stderr_text c.max_stderr_bytes es) s.stderr
unfolding launched
Reach-Holds {c} out err begin =
    let g = new_bounded_buffer-Captured c.max_stdout_bytes in
    let h = new_bounded_buffer-Captured c.max_stderr_bytes in
    (((λ _. g), Captured-snapshot g), ((λ _. h), Captured-snapshot h))
Reach-Holds {c} out err (next {es} {s} {t} e r q) =
    let (o, x, on, on_err) = step-captures c e s t q in
    let (h, g) = Reach-Holds out err r in
    (
      subst (Holds c.max_stdout_bytes (stdout_text c.max_stdout_bytes (e ∷ es))) o
          (stdout_after-Holds c.max_stdout_bytes es e s.stdout out on h),
      subst (Holds c.max_stderr_bytes (stderr_text c.max_stderr_bytes (e ∷ es))) x
          (stderr_after-Holds c.max_stderr_bytes es e s.stderr err on_err g),
    )

-- A delivered stream: its name and its bytes, or nothing where there are none.
abbrev pub delivery : String → Bytes → List (String × Bytes)
delivery name [] = []
delivery name (x ∷ xs) = (name, x ∷ xs) ∷ []

abbrev pub labels : List Artifact → List (String × Bytes)
labels [] = []
labels (a ∷ rest) = (a.name, a.payload) ∷ labels rest

labels-append : (xs bs : List Artifact) → labels (xs ++ bs) ≡ labels xs ++ labels bs
labels-append [] bs = refl
labels-append (a ∷ rest) bs = ground (arith, labels-append rest bs)

deliver_stream-labels :
    (name : String) (b : BoundedBuffer) (now : ℕ) (p : LaunchedProcess)
    → is_accepting p.state ≡ true
    → (labels (deliver_stream name b now p).artifacts
        ≡ labels p.artifacts ++ delivery name (snapshot b))
      × ((deliver_stream name b now p).state ≡ p.state)
unfolding deliver_stream deliver_artifact snapshot
deliver_stream-labels name b now p h = elim (List-cases b.buf) [
  | inl n ↦ ground (arith, n, append_nil (labels p.artifacts))
  | inr (x, xs, n) ↦ ground (
    arith,
    n,
    labels-append p.artifacts (record { name = name; payload = x ∷ xs; delivered_at = now } ∷ []),
  )
]

-- The artifacts by the place of the reaper.
abbrev expected : Reaper → BoundedBuffer → BoundedBuffer → List (String × Bytes)
expected (stdout_delivered _) out err = delivery "stdout.log" (snapshot out)
expected (stderr_delivered _) out err =
    delivery "stdout.log" (snapshot out) ++ delivery "stderr.log" (snapshot err)
expected finished out err =
    delivery "stdout.log" (snapshot out) ++ delivery "stderr.log" (snapshot err)
expected _ out err = []

abbrev is_waiting : Reaper → Bool
is_waiting waiting = true
is_waiting _ = false

abbrev is_delivering : Reaper → Bool
is_delivering (marked _) = true
is_delivering (stdout_delivered _) = true
is_delivering _ = false

abbrev Delivered : System → Type 0
Delivered s =
    (labels s.process.artifacts ≡ expected s.reaper s.stdout.buffer s.stderr.buffer)
    × (is_waiting s.reaper ≡ false → (s.stdout.scanning ≡ false) × (s.stderr.scanning ≡ false))
    × (is_delivering s.reaper ≡ true → is_accepting s.process.state ≡ true)

reap_step-Delivered :
    (e : Event) (s t : System)
    → reap_step e s ≡ some t
    → Sound s.process
    → (is_finished s.reaper ≡ false → terminal s.process.state ≡ false)
    → Delivered s
    → Delivered t
unfolding reap_step guard mark_running settle terminal is_accepting
reap_step-Delivered (delivers_stdout now) s t q h k d =
    ground (arith, deliver_stream-labels "stdout.log" s.stdout.buffer now s.process)
reap_step-Delivered (delivers_stderr now) s t q h k d =
    ground (arith, deliver_stream-labels "stderr.log" s.stderr.buffer now s.process)
reap_step-Delivered e s t q h k d = ground arith

step-Delivered :
    (c : Settings) (es : List Event) (e : Event) (s t : System)
    → step c e s ≡ some t
    → Own (e ∷ es)
    → Sound s.process
    → (is_finished s.reaper ≡ false → terminal s.process.state ≡ false)
    → Delivered s
    → Delivered t
unfolding step scan_stdout watch_step guard record_ready begin_stop readiness_timeout terminal
    is_accepting
step-Delivered c es e s t q u h k d = ground (arith, reap_step-Delivered e s t)

Reach-Delivered :
    {c : Settings} {es : List Event} {s : System} → Reach c es s → Own es → Delivered s
unfolding launched new_launched_process is_accepting snapshot
Reach-Delivered begin u = ground arith
Reach-Delivered {c} (next {es} {s} {t} e r q) u =
    let own = tail-Own e es u in
    let k = Reach-Tracked r own in
    step-Delivered c es e s t q u (Reach-Sound r) (λ f. (k f).0) (Reach-Delivered r own)

-- Where no code outside the package moves the process but by Stop, and the reaper has ended, the
-- artifacts are exactly the captured streams that are not empty, stdout first. Of each stream: the
-- lines that the child printed while it was scanned, in their order, whole where they fit the bound,
-- and otherwise its first bytes closed by a newline, within the bound. A line is left out where it has
-- both 64 KiB or more and the bound plus 4096 bytes or more.
pub output_exact :
    {c : Settings} {es : List Event} {s : System}
    → 0 < c.max_stdout_bytes
    → 0 < c.max_stderr_bytes
    → Reach c es s
    → Own es
    → s.process.done ≡ true
    → let out = bounded c.max_stdout_bytes (stdout_text c.max_stdout_bytes es) in
      let err = bounded c.max_stderr_bytes (stderr_text c.max_stderr_bytes es) in
      (labels s.process.artifacts ≡ delivery "stdout.log" out ++ delivery "stderr.log" err)
      × (length out ≤ c.max_stdout_bytes)
      × (length err ≤ c.max_stderr_bytes)
output_exact {c} {es} {s} out_pos err_pos r u d =
    let (o, x) = Reach-Holds out_pos err_pos r in
    let k = Reach-Tracked r u in
    (
      ground (arith, d, o.1, x.1, Reach-Delivered r u),
      length-bounded c.max_stdout_bytes (stdout_text c.max_stdout_bytes es) out_pos,
      length-bounded c.max_stderr_bytes (stderr_text c.max_stderr_bytes es) err_pos,
    )
