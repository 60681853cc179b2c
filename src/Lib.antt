-- ===== src/Lib.antt =====
-- Fraglands: the coordination of replay scenarios, modelled and proved.
--
-- A player asks the orchestrator to prepare a scenario from a replay. The orchestrator mints a replay
-- grant, and a preparer compiles the facts of the replay into a revision. For a ready revision a
-- server process is allocated on a host by the supervisor. The players claim slots of the
-- preparation's lobby, get one-use join intents, and present them at the server, which consumes them
-- under a leased credential; results are then accepted for the admitted accounts alone.
--
-- The parts, and the files that model them:
--   Prelude            the shared numbers, texts and tests; Prelude/Dict Go's maps as association
--                      lists; Prelude/Decimal the decimal form of a number
--   Core/Grant         core/grant.go (HMACGrantAuthority: NewHMACGrantAuthority is new, Mint mint,
--                      Verify verify, Revoke revoke); Verify is about one call, History defines the
--                      sequences of calls, Linked, OneUse, Authentic and Usable are about them
--   Core/Lease         core/server-lease.go (ServerLeaseAuthority): IssueLease is issue_lease,
--                      AuthenticateServer authenticate_server, CommitLease commit_lease,
--                      CommitCredential commit_credential; its records live in a heap, since two
--                      maps share them and the code compares their pointers
--   Core/Lobby         core/lobby.go
--   Core/ResultStore   core/result.go
--   Core/Intent        core/join-intent.go
--   Core/Account       core/account.go
--   Core/Facts         the records of core/provider.go, core/fidelity.go, core/scenario-revision.go
--   Core/Scenario      core/provider.go (Compile) and RevisionID of core/prepare.go
--   Core/Preparation   core/scenario-preparation.go; Lifecycle is about its calls, and Prepare is
--                      PrepareScenario of core/prepare.go
--   Server/Supervisor  server/supervisor.go, server/process-spec.go, server/process-state.go
--   Server/Summary     server/terminal-summary.go: ParseTerminalSummaryArtifact is parse,
--                      ValidateArtifactName is_artifact_name; Fields, Sound and Exact are about
--                      the decoder
--   Server/Ingestion   server/summary-ingestion.go: Ingest is ingest; Once is about it
--   Server/Watcher     server/summary-spool-watcher.go: PollOnce is poll_once over poll_entry, one
--                      entry of the directory; Once and Outcome are about it
--   Server/Hostexec    server/hostexec/launcher.go. Buffer is boundedBuffer. Process is the handle
--                      LaunchedProcess, one function per locked section: markReady is record_ready,
--                      readinessTimeout readiness_timeout, terminalLocked enter_terminal, Stop
--                      begin_stop and stop_result, the end of reap settle. System has its goroutines
--                      as interleaved events: step, and Reach for the histories; Settled, Readiness,
--                      Outcome and Output are about them. Launcher is NewLauncher and Launch
--   Worker/Allocator   worker/allocator.go over Server/Supervisor: Recovery and RecoverAll are about
--                      Recover and RecoverAll, Accounts about one Allocate, Ledger, Removal and Owned
--                      about sequences of calls
--   Orchestrator       orchestrator/orchestrator.go and the other files of that package: Scenario is
--                      orchestrator/scenario.go, Claim orchestrator/claim.go, Join orchestrator/join.go,
--                      Attribution orchestrator/admission.go, Server the results and leases; History
--                      defines its histories, and Intents, Provenance, Access and Fencing are about
--                      the handlers
--
-- State is passed explicitly: an operation takes the state and returns it with its result. A nil
-- pointer or a nil error is `none`. An operation that holds one lock from its start to its end is one
-- step. A handler of the orchestrator takes its lock several times; it is modelled as one step, so the
-- interleavings inside a handler are not covered. An Ingest of the gate is one step too. PrepareScenario
-- is two locked sections, with any calls of other goroutines in between. Start of the
-- supervisor is two steps, which may interleave with any others; a call of the worker's allocator is one
-- step. The locked sections of a launched process interleave freely; the scanner of a stream returns a
-- line where it fits the buffer, as bufio documents. Numbers are naturals; a uint64 that
-- grows is taken modulo 2 ^ 64, and the difference of two uint32 modulo 2 ^ 32. float64 is abstract (Core/Facts, Floats), so nothing is said about rounding.
--
-- Loops: Claim of the lobby runs as many rounds as there are slots, which is the bound of the Go loop.
-- newLeaseCredential runs over the list of the random reads to come, and ends at the first read that
-- fails or is new. Every other loop is a recursion on a list; parse_digits counts the characters left.
--
-- Parameters: the cryptography of the standard library (Core/Grant, Crypto), the random bytes, the
-- clock, the process launcher and the processes on the host (Server/Supervisor, Host), the preparer and
-- the process allocator of the orchestrator, the JSON parser (Server/Summary, Json), what is injected
-- into the ingestion gate (Server/Ingestion, Injected), the disk and the paths (Server/Hostexec/Launcher,
-- Os; Server/Watcher, Host, Entry), and what a process does while the allocator waits for it or tears it
-- down (Worker/Allocator, Attempt and Teardown). A random token is taken to be new where a history says
-- so.
--
-- Not modelled: the signals that reach a child and the timers of its Stop (server/hostexec), the replay
-- provider (provider), the HTTP surfaces (api, web) and the wiring (app, cmd), which reach the operating
-- system, the network or the replay parser; and the waits on broadcast channels (WaitReady,
-- WaitTerminal).
pub mod Core
pub mod Orchestrator
pub mod Prelude
pub mod Server
pub mod Worker
