-- ===== src/Server/Supervisor/Tests.antt =====
-- A supervisor on concrete calls.
use fraglands.Prelude.{
  ℕ, ◌+◌, ◌<◌, ◌≤◌, String, ◌≡◌, ◌≢◌, ◌↔◌, refl, true, false, none, some, [], ◌∷◌, ◌==◌,
  if◌then◌else◌, All, arith, string_eq, nat_eq,
}
use fraglands.Prelude.Int.{pos}
use fraglands.Prelude.Decimal.{decimal}
use fraglands.Prelude.Dict.{empty, get, put}
use fraglands.Core.Errors.{CoreError, lease_random, Result, ok, err}
use fraglands.Server.Supervisor.{
  ServerError, port_exhausted, unknown_process, not_running, launch_error, ProcessSpec, crashed,
  Host, terminal, Supervisor, new, proc_id, next_spec, allocate_spec, start, find, reap,
}
use fraglands.Server.Supervisor.Isolation.{
  reserved, Reach, here, next, reserves, Apart, isolated, fails_exhausted,
}
use fraglands.Server.Supervisor.Reaping.{port_set, spool_set, start_outcome, reap_exact}

-- Two ports, 65534 and 65535.
abbrev initial : Supervisor
initial = record {
  next_generation = 1;
  base_port = 65534;
  spool_root = "/s";
  processes = empty;
  used_ports = empty;
  used_spools = empty;
}

made : new {E = CoreError} true (pos 65534) "/s" ≡ ok initial
unfolding new
made = refl

abbrev one : Supervisor
one = (allocate_spec {E = CoreError} initial).0

abbrev two : Supervisor
two = (allocate_spec {E = CoreError} one).0

reserves_one : allocate_spec {E = CoreError} initial ≡ (one, ok (next_spec initial, "proc-1"))
unfolding allocate_spec get decimal
reserves_one = refl

history : Reach CoreError initial (reserved (next_spec initial) ∷ []) one
history = next here (reserves (next_spec initial) "proc-1" reserves_one)

reserves_two : allocate_spec {E = CoreError} one ≡ (two, ok (next_spec one, "proc-2"))
unfolding allocate_spec get put decimal
reserves_two = refl

isolated_example :
    All (Apart (next_spec one) "proc-2") (next_spec initial ∷ [])
    × (0 < (next_spec one).port)
    × ((next_spec one).port ≤ 65535)
isolated_example =
    isolated true (pos 65534) "/s" initial one two (reserved (next_spec initial) ∷ [])
      (next_spec one) "proc-2" made history reserves_two

abbrev reservation : Result (ServerError CoreError) (ProcessSpec × String)
reservation = ok (next_spec one, "proc-2")

fails_exhausted_example :
    ((reservation ≡ err port_exhausted) ↔ (65536 ≤ one.base_port + 1))
    × ((e : ServerError CoreError) → reservation ≡ err e → (e ≡ port_exhausted) × (two ≡ one))
fails_exhausted_example =
    fails_exhausted true (pos 65534) "/s" initial one two (reserved (next_spec initial) ∷ [])
      reservation made history reserves_two

abbrev refuses : ProcessSpec → Result CoreError ℕ
refuses spec = err lease_random

start_outcome_example :
    let (t, r) = start refuses initial in
    (t.next_generation ≡ 2)
    × ((d : String) → d ≢ proc_id 1 → get t.processes d ≡ get initial.processes d)
    × ((e : CoreError)
        → refuses (next_spec initial) ≡ err e
        → (r ≡ err (launch_error e))
          × (find {E = CoreError} t (proc_id 1) ≡ err unknown_process)
          × ((p : ℕ) → port_set t p ≡ port_set initial p)
          × ((d : String) → spool_set t d ≡ spool_set initial d))
    × ((proc : ℕ)
        → refuses (next_spec initial) ≡ ok proc
        → (r ≡ ok proc)
          × (find {E = CoreError} t (proc_id 1) ≡ ok proc)
          × ((p : ℕ)
              → port_set t p ≡ (if (next_spec initial).port == p then true else port_set initial p))
          × ((d : String)
              → spool_set t d
                ≡ (if (next_spec initial).spool_dir == d then true else spool_set initial d)))
start_outcome_example =
    start_outcome true (pos 65534) "/s" initial initial [] refuses made here (omega arith)

abbrev accepts : ProcessSpec → Result CoreError ℕ
accepts spec = ok 7

abbrev host : Host
host = record { spec = λ _. next_spec initial; state = λ _. crashed }

abbrev running_one : Supervisor
running_one = (start accepts initial).0

reap_exact_example :
    let (t, r) = reap {E = CoreError} host running_one (some 7) in
    let id = proc_id 1 in
    ((r ≡ none) ↔ ((get running_one.processes id ≡ some (some 7)) × (terminal crashed ≡ true)))
    × (r ≡ none
        → (find {E = CoreError} t id ≡ err unknown_process)
          × (port_set t 65534 ≡ false)
          × (spool_set t (next_spec initial).spool_dir ≡ false)
          × ((d : String) → d ≢ id → get t.processes d ≡ get running_one.processes d)
          × ((p : ℕ) → p ≢ 65534 → port_set t p ≡ port_set running_one p)
          × ((d : String)
              → d ≢ (next_spec initial).spool_dir
              → spool_set t d ≡ spool_set running_one d))
    × (r ≢ none → t ≡ running_one)
    × (get running_one.processes id ≡ some (some 7)
        → terminal crashed ≡ false
        → r ≡ some not_running)
    × (get running_one.processes id ≢ some (some 7) → r ≡ some unknown_process)
reap_exact_example = reap_exact host running_one 7
