-- ===== src/Server/Watcher.antt =====
-- server/summary-spool-watcher.go: the poller of one process's spool. What the calls of `os` return is
-- an argument; a poll holds the lock of the watcher throughout, so a poll and a Stop are one step each.
pub mod Once
pub mod Outcome
mod Tests
use Prim.Native.String.{len, slice, ◌++◌ as ◌⧺◌}
use fraglands.Prelude.{
  ℕ, zero, suc, ◌+◌, ◌-◌, ◌*◌, ◌^◌, String, Bool, true, false, not, ◌&&◌, ◌||◌, Option, none, some,
  List, [], ◌∷◌, ◌==◌, string_eq, nat_eq, ltb, if◌then◌else◌,
}
use fraglands.Prelude.Decimal.{decimal}
use fraglands.Prelude.Dict.{Dict, empty, get, put}
use fraglands.Core.Errors.{Result, ok, err}
use fraglands.Server.Supervisor.{ProcessSpec, is_valid}
use fraglands.Server.Summary.{SummaryError, duplicate, Json, has_prefix, has_suffix}
use fraglands.Server.Ingestion.{IngestError, refused, IngestRequest, Injected, ingest}

-- SummarySpoolWatcher
pub record Watcher : Type 0 where
  pub spec : ProcessSpec
  pub credential : String
  pub quarantine : String
  pub stopped : Bool
  pub terminal : Bool
  pub processed : Dict String Bool

-- Why a file is refused: its read, or its ingest.
pub data Cause (E : Type 0) : Type 0 where
  unreadable : Cause E
  ingest_refused : IngestError E → Cause E

-- What PollOnce returns: a sentinel, the end of the context, an error of ReadDir, or a refusal with
-- its cause and whether the file could be quarantined.
pub data PollError (E : Type 0) : Type 0 where
  watcher_stopped watcher_terminal context_ended read_dir_failed : PollError E
  refusal : Cause E → Bool → PollError E

-- The errors of the constructor.
pub data WatcherError : Type 0 where
  invalid_spec unsupported quarantine_failed : WatcherError

-- `path/filepath`, and what the system answers in the constructor.
pub record Host : Type 0 where
  pub supported : Bool
  pub is_abs : String → Bool
  pub clean : String → String
  pub join : String → String → String
  pub rel : String → String → Option String
  pub mkdir_all : String → Bool

-- underDir; `true` is no error.
unfoldable pub under_dir : Host → String → String → Bool
unfolding has_prefix
under_dir h root child = elim (h.rel (h.clean root) child) [
  | none ↦ false
  | some rel ↦ not (rel == "." || (rel == ".." || has_prefix rel "../"))
]

-- The options in their order, each the directory of a WithSummarySpoolQuarantineDir.
unfoldable pub apply_options : Host → Watcher → List String → Result WatcherError Watcher
unfolding under_dir
apply_options h w [] = ok w
apply_options h w (dir ∷ dirs) =
    let clean = h.clean dir in
    let rest = apply_options h (record w { quarantine = clean }) dirs in
    if dir == ""
    then err invalid_spec
    else if not (under_dir h w.spec.spool_dir clean)
    then err invalid_spec
    else rest

-- NewSummarySpoolWatcher
unfoldable pub new_watcher :
    Host → ProcessSpec → String → Bool → List String → Result WatcherError Watcher
unfolding apply_options is_valid
new_watcher h spec credential has_gate options =
    if not (is_valid spec)
    then err invalid_spec
    else if credential == ""
    then err invalid_spec
    else if not has_gate
    then err invalid_spec
    else if not h.supported
    then err unsupported
    else if not (h.is_abs spec.spool_dir)
    then err invalid_spec
    else elim (apply_options h
        (record {
          spec = spec;
          credential = credential;
          quarantine = h.join spec.spool_dir ".quarantine";
          stopped = false;
          terminal = false;
          processed = empty;
        })
        options) [
          | err e ↦ err e
          | ok w ↦ if h.mkdir_all w.quarantine then ok w else err quarantine_failed
        ]

-- Stop, and Close
unfoldable pub stop : Watcher → Watcher
stop w = record w { stopped = true }

-- Stopped
unfoldable pub is_stopped : Watcher → Bool
is_stopped w = w.stopped || w.terminal

-- The digit below `n` that the text is.
find_digit : ℕ → String → Option ℕ
find_digit zero c = none
find_digit (suc n) c = let rest = find_digit n c in if c == decimal n then some n else rest

-- strconv.ParseUint on `n` characters from the index on, without the bound; `none` where one is no
-- digit.
parse_digits : ℕ → String → ℕ → ℕ → Option ℕ
parse_digits zero s i acc = some acc
parse_digits (suc n) s i acc = elim (find_digit 10 (slice s i (i + 1))) [
  | none ↦ none
  | some d ↦ parse_digits n s (i + 1) (10 * acc + d)
]

-- canonicalSummaryName
unfoldable pub canonical_summary_name : String → Option ℕ
unfolding has_prefix has_suffix parse_digits find_digit
canonical_summary_name name =
    let digits = slice name (len "runback_summary_gen") (len name - len ".json") in
    if not (has_prefix name "runback_summary_gen") || not (has_suffix name ".json")
    then none
    else if digits == ""
    then none
    else elim (parse_digits (len digits) digits 0 0) [
      | none ↦ none
      | some g ↦ if ltb g (2 ^ 64) then some g else none
    ]

-- readSummarySpoolFile: the file is gone, is refused, or its bytes.
pub data Read (Data : Type 0) : Type 0 where
  gone bad : Read Data
  contents : Data → Read Data

-- One entry of the directory, in one poll: its name, whether the context has ended before the read
-- and before the ingest, the read, and whether a refused file could be moved.
pub record Entry (Data : Type 0) : Type 0 where
  pub name : String
  pub ended_before : Bool
  pub read : Read Data
  pub ended_after : Bool
  pub moved : Bool

pub data Listing (Data : Type 0) : Type 0 where
  missing failed : Listing Data
  entries : List (Entry Data) → Listing Data

-- The watcher with what its gate keeps: the digests seen and the state of the acceptance.
pub record Spool (S : Type 0) : Type 0 where
  pub watcher : Watcher
  pub seen : Dict String Bool
  pub store : S

-- `if _, done := w.processed[name]; done`
unfoldable pub is_processed : Dict String Bool → String → Bool
is_processed processed name = elim (get processed name) [ none ↦ false | some _ ↦ true ]

-- The Ingest of the watcher's gate, as Server/Ingestion has it, on the digests seen and the state of
-- the acceptance.
abbrev pub Gate : Type 0 → Type 0 → Type 0 → Type 0
Gate Data S E =
    Dict String Bool → IngestRequest Data → S → Dict String Bool × (S × Option (IngestError E))

module _ {Data S E : Type 0} (gate : Gate Data S E) where
  mark : Spool S → String → Spool S
  mark p name =
      let w : Watcher = record p.watcher { processed = put p.watcher.processed name true } in
      record p { watcher = w }

  halt : Spool S → Spool S
  halt p = let w : Watcher = record p.watcher { stopped = true } in record p { watcher = w }

  -- refuse
  unfoldable pub refuse : Spool S → Cause E → Bool → Spool S × Option (PollError E)
  refuse p cause moved =
      let w : Watcher = record p.watcher { terminal = true } in
      (record p { watcher = w }, some (refusal cause moved))

  -- The request for a file.
  abbrev pub request : Watcher → String → Data → IngestRequest Data
  request w name payload = record {
    credential = w.credential;
    artifact_name = name;
    payload = payload;
    expected_generation = w.spec.generation;
  }

  -- The ingest of a file that was read, and whether the loop goes on (`none`).
  unfoldable pub ingest_file : Spool S → Entry Data → Data → Spool S × Option (PollError E)
  unfolding mark refuse
  ingest_file p e payload =
      let (seen, (store, r)) = gate p.seen (request p.watcher e.name payload) p.store in
      let q : Spool S = record p { seen = seen; store = store } in
      elim r [
        | none ↦ (mark q e.name, none)
        | some (refused duplicate) ↦ (mark q e.name, none)
        | some x ↦ refuse q (ingest_refused x) e.moved
      ]

  -- One entry of the loop.
  unfoldable pub poll_entry : Spool S → Entry Data → Spool S × Option (PollError E)
  unfolding halt refuse is_processed
  poll_entry p e = elim (canonical_summary_name e.name) [
    | none ↦ (p, none)
    | some _ ↦
        if is_processed p.watcher.processed e.name
        then (p, none)
        else if e.ended_before
        then (halt p, some context_ended)
        else elim e.read [
          | gone ↦ (p, none)
          | bad ↦ refuse p unreadable e.moved
          | contents payload ↦
              if e.ended_after then (halt p, some context_ended) else ingest_file p e payload
        ]
  ]

  unfoldable pub poll_entries : Spool S → List (Entry Data) → Spool S × Option (PollError E)
  poll_entries p [] = (p, none)
  poll_entries p (e ∷ es) =
      let (q, r) = poll_entry p e in elim r [ some x ↦ (q, some x) | none ↦ poll_entries q es ]

  -- pollOnce
  unfoldable pub poll_once : Spool S → Bool → Listing Data → Spool S × Option (PollError E)
  unfolding halt
  poll_once p ended listing =
      if p.watcher.stopped
      then (p, some watcher_stopped)
      else if p.watcher.terminal
      then (p, some watcher_terminal)
      else if ended
      then (halt p, some context_ended)
      else elim listing [
        | missing ↦ (p, none)
        | failed ↦ (p, some read_dir_failed)
        | entries es ↦ poll_entries p es
      ]
