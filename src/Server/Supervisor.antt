-- ===== src/Server/Supervisor.antt =====
-- server/supervisor.go, server/process-spec.go and server/process-state.go. A supervisor is a value,
-- and each of its locked sections takes it and returns it: Start is two of them, with the launch in
-- between. A process is the address of its handle, which Reap compares; its spec and its state are
-- those of a `Host`, since other code moves the processes.
pub mod Reserve
pub mod Isolation
pub mod Reaping
mod Tests
use Prim.Native.String.{◌++◌ as ◌⧺◌}
use fraglands.Prelude.{
  ℕ, suc, ◌+◌, ◌-◌, ◌%◌, ◌^◌, String, Bool, true, false, not, ◌||◌, Option, none, some, List, [],
  ◌∷◌, ◌==◌, string_eq, nat_eq, ltb, if◌then◌else◌,
}
use fraglands.Prelude.Int.{ℤ, is_nonpos, to_ℕ}
use fraglands.Prelude.Decimal.{decimal}
use fraglands.Prelude.Dict.{Dict, empty, get, put, delete}
use fraglands.Core.Errors.{Result, ok, err}

-- server/errors.go, the errors of the supervisor; the launcher has errors of its own.
pub data ServerError (E : Type 0) : Type 0 where
  invalid_spec port_in_use port_exhausted spool_in_use not_running unknown_process : ServerError E
  launch_error : E → ServerError E

pub record ProcessSpec : Type 0 where
  pub generation : ℕ
  pub port : ℕ
  pub spool_dir : String

-- ProcessSpec.Validate
unfoldable pub is_valid : ProcessSpec → Bool
is_valid s = not (s.generation == 0 || (s.port == 0 || ltb 65535 s.port || s.spool_dir == ""))

-- server/process-state.go
pub data ProcessState : Type 0 where
  new_process launching running ready crashed stopped : ProcessState

-- ProcessState.Terminal
unfoldable pub terminal : ProcessState → Bool
terminal crashed = true
terminal stopped = true
terminal _ = false

-- The processes: Spec and State of each handle.
pub record Host : Type 0 where
  pub spec : ℕ → ProcessSpec
  pub state : ℕ → ProcessState

-- Supervisor; `processes` holds nil, here `none`, for an ID that is reserved.
pub record Supervisor : Type 0 where
  pub next_generation : ℕ
  pub base_port : ℕ
  pub spool_root : String
  pub processes : Dict String (Option ℕ)
  pub used_ports : Dict ℕ Bool
  pub used_spools : Dict String Bool

-- NewSupervisor: whether there is a launcher, the base port and the spool root.
unfoldable pub new : {E : Type 0} → Bool → ℤ → String → Result (ServerError E) Supervisor
new has_launcher base_port spool_root =
    if not has_launcher
    then err invalid_spec
    else if is_nonpos base_port || ltb 65535 (to_ℕ base_port)
    then err invalid_spec
    else if spool_root == ""
    then err invalid_spec
    else ok (record {
      next_generation = 1;
      base_port = to_ℕ base_port;
      spool_root = spool_root;
      processes = empty;
      used_ports = empty;
      used_spools = empty;
    })

-- A read of a map to bool, false where the key is missing.
unfoldable pub is_set : Option Bool → Bool
is_set none = false
is_set (some b) = b

abbrev pub spool_of : String → ℕ → String
spool_of root gen = root ⧺ ("/gen-" ⧺ decimal gen)

abbrev pub proc_id : ℕ → String
proc_id gen = "proc-" ⧺ decimal gen

-- The spec of the next generation: the port counts from the base port.
abbrev pub next_spec : Supervisor → ProcessSpec
next_spec s = record {
  generation = s.next_generation;
  port = s.base_port + s.next_generation - 1;
  spool_dir = spool_of s.spool_root s.next_generation;
}

-- allocateSpecLocked: the spec and the ID. `int(gen)` is the generation, which stays below 2^63.
unfoldable pub allocate_spec :
    {E : Type 0} → Supervisor → Supervisor × Result (ServerError E) (ProcessSpec × String)
unfolding is_set is_valid
allocate_spec s =
    let spec = next_spec s in
    let id = proc_id s.next_generation in
    let t : Supervisor = record s { next_generation = (s.next_generation + 1) % 2 ^ 64 } in
    if ltb 65535 spec.port
    then (s, err port_exhausted)
    else if is_set (get s.used_ports spec.port)
    then (t, err port_in_use)
    else if is_set (get s.used_spools spec.spool_dir)
    then (t, err spool_in_use)
    else if not (is_valid spec)
    then (t, err invalid_spec)
    else (
      record t {
        processes = put s.processes id none;
        used_ports = put s.used_ports spec.port true;
        used_spools = put s.used_spools spec.spool_dir true;
      },
      ok (spec, id),
    )

-- The locked section of Start behind the launch: the process is registered, or the reservation is
-- taken back.
unfoldable pub finish_launch :
    {E : Type 0}
    → Supervisor
    → ProcessSpec
    → String
    → Result E ℕ
    → Supervisor × Result (ServerError E) ℕ
finish_launch s spec id (err e) = (
  record s {
    used_ports = delete s.used_ports spec.port;
    used_spools = delete s.used_spools spec.spool_dir;
    processes = delete s.processes id;
  },
  err (launch_error e),
)
finish_launch s spec id (ok proc) =
    (record s { processes = put s.processes id (some proc) }, ok proc)

-- Start without another call in between; `launch` is the injected launcher.
unfoldable pub start :
    {E : Type 0} → (ProcessSpec → Result E ℕ) → Supervisor → Supervisor × Result (ServerError E) ℕ
unfolding allocate_spec finish_launch
start launch s =
    let (t, r) = allocate_spec s in
    elim r [ err e ↦ (t, err e) | ok (spec, id) ↦ finish_launch t spec id (launch spec) ]

-- Get
unfoldable pub find : {E : Type 0} → Supervisor → String → Result (ServerError E) ℕ
find s id = elim (get s.processes id) [
  | none ↦ err unknown_process
  | some none ↦ err unknown_process
  | some (some proc) ↦ ok proc
]

-- `!ok || registered != proc`, negated
unfoldable pub is_registered : Option (Option ℕ) → ℕ → Bool
is_registered none proc = false
is_registered (some none) proc = false
is_registered (some (some registered)) proc = registered == proc

-- Reap; the process `none` is a nil handle.
unfoldable pub reap :
    {E : Type 0} → Host → Supervisor → Option ℕ → Supervisor × Option (ServerError E)
unfolding is_registered terminal
reap host s none = (s, some unknown_process)
reap host s (some proc) =
    let spec = host.spec proc in
    let id = proc_id spec.generation in
    if not (is_registered (get s.processes id) proc)
    then (s, some unknown_process)
    else if not (terminal (host.state proc))
    then (s, some not_running)
    else (
      record s {
        processes = delete s.processes id;
        used_ports = delete s.used_ports spec.port;
        used_spools = delete s.used_spools spec.spool_dir;
      },
      none,
    )

live_entries : Host → List (String × Option ℕ) → ℕ
live_entries host [] = 0
live_entries host ((_, none) ∷ rest) = live_entries host rest
live_entries host ((_, some proc) ∷ rest) =
    let count = live_entries host rest in if terminal (host.state proc) then count else suc count

-- Live
unfoldable pub live : Host → Supervisor → ℕ
unfolding live_entries terminal
live host s = live_entries host s.processes.entries
