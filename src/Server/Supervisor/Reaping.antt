-- ===== src/Server/Supervisor/Reaping.antt =====
-- server/supervisor.go: a whole Start, and Reap.
use fraglands.Prelude.{
  ℕ, suc, subst, ◌+◌, ◌<◌, ◌≤◌, String, ◌≡◌, ◌≢◌, ◌↔◌, refl, inl, inr, Bool, true, false, none,
  some, List, ◌==◌, string_eq, nat_eq, eq_iff, beq_self, if◌then◌else◌, arith, length,
}
use fraglands.Prelude.Int.{ℤ}
use fraglands.Prelude.Dict.{get, get-put, get-delete}
use fraglands.Core.Errors.{Result, ok, err}
use fraglands.Server.Supervisor.{
  ServerError, unknown_process, not_running, launch_error, ProcessSpec, Host, terminal, Supervisor,
  new, is_set, proc_id, next_spec, allocate_spec, finish_launch, start, find, is_registered, reap,
}
use fraglands.Server.Supervisor.Reserve.{
  Inv, new-Inv, reserve, allocate_spec-cases, port_free, spool_free,
}
use fraglands.Server.Supervisor.Isolation.{Event, specs, Reach, Reach-Built}

-- The port and the spool are reserved.
abbrev pub port_set : Supervisor → ℕ → Bool
port_set s p = is_set (get s.used_ports p)

abbrev pub spool_set : Supervisor → String → Bool
spool_set s d = is_set (get s.used_spools d)

-- What the end of a launch does to a fresh reservation.
abbrev pub Finished :
    (E : Type 0) → Supervisor → Result E ℕ → Supervisor × Result (ServerError E) ℕ → Type 0
Finished E s outcome (t, r) =
    (t.next_generation ≡ suc s.next_generation)
    × ((d : String) → d ≢ proc_id s.next_generation → get t.processes d ≡ get s.processes d)
    × ((e : E)
        → outcome ≡ err e
        → (r ≡ err (launch_error e))
          × (find {E = E} t (proc_id s.next_generation) ≡ err unknown_process)
          × ((p : ℕ) → port_set t p ≡ port_set s p)
          × ((d : String) → spool_set t d ≡ spool_set s d))
    × ((proc : ℕ)
        → outcome ≡ ok proc
        → (r ≡ ok proc)
          × (find {E = E} t (proc_id s.next_generation) ≡ ok proc)
          × ((p : ℕ) → port_set t p ≡ (if (next_spec s).port == p then true else port_set s p))
          × ((d : String)
              → spool_set t d ≡ (if (next_spec s).spool_dir == d then true else spool_set s d)))

finish_launch-Finished :
    (E : Type 0) (s : Supervisor) (outcome : Result E ℕ)
    → get s.used_ports (next_spec s).port ≡ none
    → get s.used_spools (next_spec s).spool_dir ≡ none
    → Finished E s outcome
        (finish_launch (reserve s) (next_spec s) (proc_id s.next_generation) outcome)
unfolding finish_launch find is_set
finish_launch-Finished E s (err x) free_port free_spool = (
  refl,
  (λ d ne. ground (
    arith,
    get-delete (reserve s).processes (proc_id s.next_generation) d,
    get-put s.processes (proc_id s.next_generation) d none,
    eq_iff (proc_id s.next_generation) d,
  )),
  (λ e same. (
    ground arith,
    ground (
      arith,
      get-delete (reserve s).processes (proc_id s.next_generation) (proc_id s.next_generation),
      beq_self (proc_id s.next_generation),
    ),
    (λ p. ground (
      arith,
      get-delete (reserve s).used_ports (next_spec s).port p,
      get-put s.used_ports (next_spec s).port p true,
    )),
    (λ d. ground (
      arith,
      get-delete (reserve s).used_spools (next_spec s).spool_dir d,
      get-put s.used_spools (next_spec s).spool_dir d true,
      eq_iff (next_spec s).spool_dir d,
    )),
  )),
  (λ proc same. absurd (ground arith)),
)
finish_launch-Finished E s (ok x) free_port free_spool = (
  refl,
  (λ d ne. ground (
    arith,
    get-put (reserve s).processes (proc_id s.next_generation) d (some x),
    get-put s.processes (proc_id s.next_generation) d none,
    eq_iff (proc_id s.next_generation) d,
  )),
  (λ e same. absurd (ground arith)),
  (λ proc same. (
    ground arith,
    ground (
      arith,
      get-put (reserve s).processes (proc_id s.next_generation) (proc_id s.next_generation)
          (some x),
      beq_self (proc_id s.next_generation),
    ),
    (λ p. ground (arith, get-put s.used_ports (next_spec s).port p true)),
    (λ d. ground (arith, get-put s.used_spools (next_spec s).spool_dir d true)),
  )),
)

-- Start under the invariant, with a port left.
pub start-Finished :
    (E : Type 0) (launch : ProcessSpec → Result E ℕ) (s : Supervisor)
    → Inv s
    → s.base_port + s.next_generation ≤ 65536
    → Finished E s (launch (next_spec s)) (start launch s)
start-Finished E launch s v room = elim (allocate_spec-cases E s v) [
  | inl (full, e) ↦ absurd (omega arith)
  | inr (_, e) ↦
      subst (Finished E s (launch (next_spec s))) (started e)
        (finish_launch-Finished E s (launch (next_spec s)) (port_free s v) (spool_free s v))
]
  where
    started :
        allocate_spec {E = E} s ≡ (reserve s, ok (next_spec s, proc_id s.next_generation))
        → finish_launch (reserve s) (next_spec s) (proc_id s.next_generation) (launch (next_spec s))
          ≡ start launch s
    started e = unfold start in ground arith

-- Start, in a history with a port left: where the launch fails, its error is returned, the ID is
-- unknown, and the reservations and the other processes are as before, but the generation is used
-- up; where it succeeds, Get finds the process under its ID, its port and its spool are reserved,
-- and the other reservations and processes are as before.
pub start_outcome :
    {E : Type 0} (has_launcher : Bool) (base : ℤ) (root : String) (initial s : Supervisor)
    (es : List Event) (launch : ProcessSpec → Result E ℕ)
    → new {E = E} has_launcher base root ≡ ok initial
    → Reach E initial es s
    → s.base_port + length (specs es) < 65536
    → let spec = next_spec s in
      let id = proc_id s.next_generation in
      let (t, r) = start launch s in
      (t.next_generation ≡ suc s.next_generation)
      × ((d : String) → d ≢ id → get t.processes d ≡ get s.processes d)
      × ((e : E)
          → launch spec ≡ err e
          → (r ≡ err (launch_error e))
            × (find {E = E} t id ≡ err unknown_process)
            × ((p : ℕ) → port_set t p ≡ port_set s p)
            × ((d : String) → spool_set t d ≡ spool_set s d))
      × ((proc : ℕ)
          → launch spec ≡ ok proc
          → (r ≡ ok proc)
            × (find {E = E} t id ≡ ok proc)
            × ((p : ℕ) → port_set t p ≡ (if spec.port == p then true else port_set s p))
            × ((d : String)
                → spool_set t d ≡ (if spec.spool_dir == d then true else spool_set s d)))
start_outcome {E} has_launcher base root initial s es launch h r room =
    let b = Reach-Built (new-Inv has_launcher base root initial h) r in
    start-Finished E launch s b.inv (omega (arith, b.counted))

-- Reap succeeds exactly on a registered handle in a terminal state. It then forgets the process and
-- frees its port and its spool, and leaves every other process and reservation; otherwise nothing
-- changes. A live process is refused with ErrNotRunning, and an unregistered handle with
-- ErrUnknownProcess.
pub reap_exact :
    {E : Type 0} (host : Host) (s : Supervisor) (proc : ℕ)
    → let spec = host.spec proc in
      let id = proc_id spec.generation in
      let (t, r) = reap {E = E} host s (some proc) in
      ((r ≡ none) ↔ ((get s.processes id ≡ some (some proc)) × (terminal (host.state proc) ≡ true)))
      × (r ≡ none
          → (find {E = E} t id ≡ err unknown_process)
            × (port_set t spec.port ≡ false)
            × (spool_set t spec.spool_dir ≡ false)
            × ((d : String) → d ≢ id → get t.processes d ≡ get s.processes d)
            × ((p : ℕ) → p ≢ spec.port → port_set t p ≡ port_set s p)
            × ((d : String) → d ≢ spec.spool_dir → spool_set t d ≡ spool_set s d))
      × (r ≢ none → t ≡ s)
      × (get s.processes id ≡ some (some proc)
          → terminal (host.state proc) ≡ false
          → r ≡ some not_running)
      × (get s.processes id ≢ some (some proc) → r ≡ some unknown_process)
unfolding reap find is_registered is_set
reap_exact host s proc =
    let spec = host.spec proc in
    let id = proc_id spec.generation in
    (
      ((λ h. (ground arith, ground arith)), λ h. ground arith),
      (λ h. (
        ground (arith, get-delete s.processes id id, beq_self id),
        ground (arith, get-delete s.used_ports spec.port spec.port),
        ground (
          arith,
          get-delete s.used_spools spec.spool_dir spec.spool_dir,
          beq_self spec.spool_dir,
        ),
        (λ d ne. ground (arith, get-delete s.processes id d, eq_iff id d)),
        (λ p ne. ground (arith, get-delete s.used_ports spec.port p)),
        (λ d ne.
            ground (arith, get-delete s.used_spools spec.spool_dir d, eq_iff spec.spool_dir d)),
      )),
      (λ h. ground arith),
      (λ h live. ground arith),
      (λ h. ground arith),
    )
