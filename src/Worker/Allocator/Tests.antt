-- ===== src/Worker/Allocator/Tests.antt =====
-- A process that never becomes ready and cannot be stopped, and its recovery.
use fraglands.Prelude.{
  ℕ, String, ◌≡◌, ◌≢◌, ◌↔◌, refl, ◌⊎◌, true, false, none, some, [], ◌==◌, arith, eq_iff,
  if◌then◌else◌, ◌&&◌, string_eq, nat_eq,
}
use fraglands.Prelude.Int.{pos}
use fraglands.Prelude.Decimal.{decimal}
use fraglands.Prelude.Dict.{empty, get, put}
use fraglands.Core.Errors.{CoreError, lease_random, ok, err}
use fraglands.Server.Supervisor.{
  ServerError, ProcessSpec, running, stopped, terminal, Supervisor, new, proc_id, next_spec, find,
  start,
}
use fraglands.Server.Supervisor.Reserve.{new-Inv}
use fraglands.Worker.Allocator.{
  Allocator, new_allocator, Teardown, Attempt, allocate, recover, recover_all, await_process,
  failed_cleanup_generations,
}
use fraglands.Worker.Allocator.Recovery.{elem, Ascending, Gone, recover_exact}
use fraglands.Worker.Allocator.RecoverAll.{recover_all_exact}
use fraglands.Worker.Allocator.Accounts.{Accounted, allocate_accounts}
use fraglands.Worker.Allocator.Owned.{Reach, begin, allocates, no_process_lost}

abbrev supervisor : Supervisor
supervisor = record {
  next_generation = 1;
  base_port = 7000;
  spool_root = "/s";
  processes = empty;
  used_ports = empty;
  used_spools = empty;
}

abbrev initial : Allocator
initial = record { supervisor = supervisor; readiness_timeout = pos 120000000000; retained = empty }

-- Handle 7 is the first process.
abbrev specs : ℕ → ProcessSpec
specs _ = record { generation = 1; port = 7000; spool_dir = "/s/gen-1" }

first_spec : next_spec supervisor ≡ specs 7
unfolding decimal
first_spec = refl

abbrev stuck : Teardown
stuck = record {
  at_start = running;
  stop = some (some "stuck");
  after_stop = running;
  at_reap = running;
}

abbrev over : Teardown
over = record { at_start = stopped; stop = none; after_stop = stopped; at_reap = stopped }

abbrev attempt : Attempt CoreError
attempt = record {
  has_revision = true;
  context_error = none;
  launch = λ spec.
      if (spec.generation == 1) && (spec.port == 7000 && spec.spool_dir == "/s/gen-1")
      then ok 7
      else err lease_random;
  type_name = "*hostexec.LaunchedProcess";
  readiness = some (err "process not ready");
  teardown = stuck;
  crash = none;
}

abbrev text_of : ServerError CoreError → String
text_of e = "refused"

abbrev held : Allocator
held = (allocate specs text_of attempt initial).0

made : new {E = CoreError} true (pos 7000) "/s" ≡ ok supervisor
unfolding new
made = refl

allocate_accounts_example :
    Accounted specs attempt (next_spec supervisor) initial (allocate specs text_of attempt initial)
unfolding find get decimal
allocate_accounts_example =
    allocate_accounts specs text_of attempt initial
      (new-Inv {E = CoreError} true (pos 7000) "/s" supervisor made).0 (omega arith) refl
      (λ p h. refl)

honest : (spec : ProcessSpec) (proc : ℕ) → attempt.launch spec ≡ ok proc → specs proc ≡ spec
honest spec proc h = ground (arith, eq_iff spec.spool_dir "/s/gen-1")

keeps : get held.retained 1 ≡ some 7
unfolding allocate get put start decimal await_process
keeps = refl

history : Reach specs text_of [] held
unfolding allocate start decimal get new_allocator await_process
history = allocates attempt (begin true (pos 7000) "/s" supervisor (pos 0) initial made refl) honest

no_process_lost_example :
    ((g proc : ℕ)
      → find {E = CoreError} held.supervisor (proc_id g) ≡ ok proc
      → (false ≡ true) ⊎ (get held.retained g ≡ some proc))
    × ((g proc : ℕ)
        → get held.retained g ≡ some proc
        → (find {E = CoreError} held.supervisor (proc_id g) ≡ ok proc)
          × ((specs proc).generation ≡ g))
    × Ascending (failed_cleanup_generations held)
    × ((g : ℕ) → (elem g (failed_cleanup_generations held) ≡ true) ↔ (get held.retained g ≢ none))
no_process_lost_example = no_process_lost specs text_of history

recover_exact_example :
    let (b, e) = recover {E = CoreError} specs over held 1 in
    (get held.retained 1 ≡ none → (b ≡ held) × (e ≡ none))
    × (e ≢ none → b ≡ held)
    × ((proc : ℕ)
        → get held.retained 1 ≡ some proc
        → e ≡ none
        → (get b.retained 1 ≡ none)
          × (terminal stopped ≡ true)
          × Gone CoreError b.supervisor (specs proc)
          × ((d : String)
              → d ≢ proc_id (specs proc).generation
              → get b.supervisor.processes d ≡ get held.supervisor.processes d))
    × ((h : ℕ) → h ≢ 1 → get b.retained h ≡ get held.retained h)
recover_exact_example = recover_exact {E = CoreError} specs over held 1

recovers : (recover {E = CoreError} specs over held 1).1 ≡ none
unfolding recover allocate get put start decimal await_process
recovers = refl

recover_all_exact_example :
    let (b, failures) = recover_all {E = CoreError} specs (λ _. stuck) held in
    ((get failures 1 ≢ none) ↔ (get b.retained 1 ≢ none))
    × (get b.retained 1 ≢ none → get b.retained 1 ≡ get held.retained 1)
unfolding allocate start decimal get put await_process
recover_all_exact_example = recover_all_exact {E = CoreError} specs (λ _. stuck) held (refl, tt) 1
