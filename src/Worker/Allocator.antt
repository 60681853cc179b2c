-- ===== src/Worker/Allocator.antt =====
-- worker/allocator.go: one server process for a ready revision, over the supervisor. What the process
-- does in a call (its readiness wait, its Stop, its states when they are read) is an argument; the
-- process behind a handle keeps its spec. A call runs to its end without another in between.
pub mod Recovery
pub mod RecoverAll
pub mod Accounts
mod Growth
mod Ledger
mod Removal
pub mod Owned
mod Tests
use Prim.Native.String.{◌++◌ as ◌⧺◌}
use fraglands.Prelude.{
  ℕ, String, Bool, true, false, not, Option, none, some, List, [], ◌∷◌, map, ◌==◌, nat_eq,
  string_eq, leb, if◌then◌else◌,
}
use fraglands.Prelude.Int.{ℤ, pos, negsuc}
use fraglands.Prelude.Decimal.{decimal}
use fraglands.Prelude.Dict.{Dict, empty, get, put, delete}
use fraglands.Core.Errors.{Result, ok, err}
use fraglands.Core.Preparation.{FailureReason}
use fraglands.Server.Supervisor.{
  ServerError, ProcessSpec, ProcessState, Host, terminal, Supervisor, start, reap,
}
use fraglands.Server.Hostexec.Process.{CrashReason}
use fraglands.Orchestrator.{AllocatedProcess, mark_ready}

-- Why a process could not be reclaimed: it cannot be stopped, its Stop failed, or Reap refused it.
pub data CleanupCause (E : Type 0) : Type 0 where
  cannot_stop : CleanupCause E
  stop_failed : String → CleanupCause E
  reap_failed : ServerError E → CleanupCause E

-- orchestrator.AllocationError, and CleanupError with the generation and both causes
pub data AllocateError (E : Type 0) : Type 0 where
  allocation_error : FailureReason → AllocateError E
  cleanup_error : ℕ → FailureReason → CleanupCause E → AllocateError E

-- Allocator, with the supervisor that it shares; `retained` keeps handles by generation. The timeout
-- counts nanoseconds.
pub record Allocator : Type 0 where
  pub supervisor : Supervisor
  pub readiness_timeout : ℤ
  pub retained : Dict ℕ ℕ

-- NewAllocator, with the supervisor and the timeout that the options set; `none` is an error.
unfoldable pub new_allocator : Option Supervisor → ℤ → Option Allocator
new_allocator none timeout = none
new_allocator (some s) (negsuc _) = none
new_allocator (some s) (pos n) = some (record {
  supervisor = s;
  readiness_timeout = pos (if n == 0 then 120000000000 else n);
  retained = empty;
})

-- A process during one cleanup: its state at the start, what its Stop returns (`none` where it has
-- none, an error by its text), its state behind the Stop, and its state in Reap.
pub record Teardown : Type 0 where
  pub at_start : ProcessState
  pub stop : Option (Option String)
  pub after_stop : ProcessState
  pub at_reap : ProcessState

-- The world in one Allocate: whether there is a revision, the text of a context's end, the launch, the
-- readiness wait of the process (`none` where it has none, with the name of its type; a text is an
-- error), and the cleanup with the crash reason that is read behind it.
pub record Attempt (E : Type 0) : Type 0 where
  pub has_revision : Bool
  pub context_error : Option String
  pub launch : ProcessSpec → Result E ℕ
  pub type_name : String
  pub readiness : Option (Result String String)
  pub teardown : Teardown
  pub crash : Option CrashReason

unfoldable pub failure : String → FailureReason
failure message = record { code = "allocation_failed"; message = message }

-- waitReadiness
unfoldable pub wait_readiness : String → Option (Result String String) → Result String String
wait_readiness type_name none =
    err (("process implementation " ⧺ type_name) ⧺ " does not expose a readiness wait")
wait_readiness type_name (some r) = r

-- failWithCleanup: the message, with the crash where one is known by its code.
unfoldable pub never_ready : ℕ → String → Option CrashReason → String
never_ready generation cause crash =
    let message = (("process " ⧺ decimal generation) ⧺ " never became ready: ") ⧺ cause in
    elim crash [
      | none ↦ message
      | some c ↦
          if c.code == ""
          then message
          else message ⧺ (((((" (crash " ⧺ c.code) ⧺ ": ") ⧺ c.message)) ⧺ ")")
    ]

module _ {E : Type 0} (specs : ℕ → ProcessSpec) where
  -- The Reap at the end of cleanup.
  unfoldable pub reclaim : Teardown → Supervisor → ℕ → Supervisor × Option (CleanupCause E)
  unfolding reap
  reclaim t s proc =
      let host : Host = record { spec = specs; state = λ _. t.at_reap } in
      let (after, e) = reap {E = E} host s (some proc) in
      (after, elim e [ none ↦ none | some x ↦ some (reap_failed x) ])

  -- cleanup
  unfoldable pub cleanup : Teardown → Supervisor → ℕ → Supervisor × Option (CleanupCause E)
  unfolding reclaim terminal
  cleanup t s proc = if terminal t.at_start then reclaim t s proc else elim t.stop [
    | none ↦ (s, some cannot_stop)
    | some none ↦ reclaim t s proc
    | some (some e) ↦
        if not (terminal t.after_stop) then (s, some (stop_failed e)) else reclaim t s proc
  ]

  -- failWithCleanup
  unfoldable pub fail_with_cleanup :
      Attempt E → Allocator → ℕ → String → Allocator × AllocateError E
  unfolding cleanup never_ready failure
  fail_with_cleanup w a proc cause =
      let generation = (specs proc).generation in
      let (s, e) = cleanup w.teardown a.supervisor proc in
      let reason = failure (never_ready generation cause w.crash) in
      elim e [
        | none ↦ (record a { supervisor = s }, allocation_error reason)
        | some x ↦ (
          record a { supervisor = s; retained = put a.retained generation proc },
          cleanup_error generation reason x,
        )
      ]

  -- Allocate, from a started process on.
  unfoldable pub await_process :
      Attempt E → Allocator → ℕ → Allocator × Result (AllocateError E) AllocatedProcess
  unfolding wait_readiness fail_with_cleanup mark_ready
  await_process w a proc = elim (wait_readiness w.type_name w.readiness) [
    | err cause ↦ let (b, e) = fail_with_cleanup w a proc cause in (b, err e)
    | ok evidence ↦
        let fresh : AllocatedProcess = record {
          generation = (specs proc).generation;
          connect_address = "127.0.0.1:" ⧺ decimal (specs proc).port;
          ready = false;
          evidence = "";
        } in
        (a, ok (mark_ready fresh evidence).0)
  ]

  -- Allocate; `text_of` is the text of an error of Start.
  unfoldable pub allocate :
      (ServerError E → String)
      → Attempt E
      → Allocator
      → Allocator × Result (AllocateError E) AllocatedProcess
  unfolding failure
  allocate text_of w a =
      if not w.has_revision
      then (a, err (allocation_error (failure "no revision to allocate a process for")))
      else elim w.context_error [
        | some e ↦ (a, err (allocation_error (failure ("allocation cancelled before start: " ⧺ e))))
        | none ↦
            let (s, r) = start w.launch a.supervisor in
            elim r [
              | err e ↦ (
                record a { supervisor = s },
                err (allocation_error (failure ("launch failed: " ⧺ text_of e))),
              )
              | ok proc ↦ await_process w (record a { supervisor = s }) proc
            ]
      ]

  -- Recover
  unfoldable pub recover : Teardown → Allocator → ℕ → Allocator × Option (CleanupCause E)
  unfolding cleanup
  recover t a generation = elim (get a.retained generation) [
    | none ↦ (a, none)
    | some proc ↦
        let (s, e) = cleanup t a.supervisor proc in
        elim e [
          | some x ↦ (record a { supervisor = s }, some x)
          | none ↦ (record a { supervisor = s; retained = delete a.retained generation }, none)
        ]
  ]

  -- RecoverAll on a list of generations; `t` is what each process does.
  unfoldable pub recover_each :
      (ℕ → Teardown) → Allocator → List ℕ → Allocator × Dict ℕ (CleanupCause E)
  recover_each t a [] = (a, empty)
  recover_each t a (g ∷ gs) =
      let (b, e) = recover (t g) a g in
      let (c, failures) = recover_each t b gs in
      elim e [ none ↦ (c, failures) | some x ↦ (c, put failures g x) ]

-- `sort.Slice` with `<`, by insertion
abbrev pub insert : ℕ → List ℕ → List ℕ
insert g [] = g ∷ []
insert g (h ∷ hs) = let rest = insert g hs in if leb g h then g ∷ h ∷ hs else h ∷ rest

abbrev pub sort : List ℕ → List ℕ
sort [] = []
sort (g ∷ gs) = insert g (sort gs)

abbrev pub keys : List (ℕ × ℕ) → List ℕ
keys [] = []
keys ((g, _) ∷ rest) = g ∷ keys rest

-- FailedCleanupGenerations
unfoldable pub failed_cleanup_generations : Allocator → List ℕ
failed_cleanup_generations a = sort (keys a.retained.entries)

-- RecoverAll, and Close
unfoldable pub recover_all :
    {E : Type 0}
    → (ℕ → ProcessSpec)
    → (ℕ → Teardown)
    → Allocator
    → Allocator × Dict ℕ (CleanupCause E)
recover_all specs t a = recover_each specs t a (failed_cleanup_generations a)
