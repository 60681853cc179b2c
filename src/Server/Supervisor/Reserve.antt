-- ===== src/Server/Supervisor/Reserve.antt =====
-- server/supervisor.go: the invariant between the locked sections, and allocateSpecLocked under it.
use text.Mathlib.TextLemmas.{append-eq-nil_iff, append_cancel_left}
use fraglands.Prelude.{
  ℕ, suc, ◌+◌, ◌<◌, ◌≤◌, String, ◌≡◌, ◌≢◌, refl, ◌⊎◌, inl, inr, Bool, true, Option, none, some,
  ◌==◌, string_eq, nat_eq, eq_iff, ltb, arith, Option-cases, Bool-cases,
}
use fraglands.Prelude.Int.{ℤ}
use fraglands.Prelude.Decimal.{decimal_inj}
use fraglands.Prelude.Dict.{get, put, get-put, get-delete, get-empty}
use fraglands.Core.Errors.{Result, ok, err}
use fraglands.Server.Supervisor.{
  port_exhausted, ProcessSpec, Host, Supervisor, new, spool_of, proc_id, next_spec, allocate_spec,
  finish_launch, reap,
}

-- What a handed-out spec is, below a generation.
abbrev pub Numbered : Supervisor → ℕ → ProcessSpec → Type 0
Numbered s n spec =
    (spec.generation < n)
    × (suc spec.port ≡ s.base_port + spec.generation)
    × (spec.spool_dir ≡ spool_of s.spool_root spec.generation)

pub record Inv (s : Supervisor) : Type 0 where
  pub rooted : s.spool_root ≢ ""
  pub based :
      (0 < s.base_port) × (0 < s.next_generation) × (s.base_port + s.next_generation ≤ 65537)
  pub ports :
      (p : ℕ) (b : Bool) → get s.used_ports p ≡ some b → suc p < s.base_port + s.next_generation
  pub spools :
      (d : String) (b : Bool)
      → get s.used_spools d ≡ some b
      → (g : ℕ) × (g < s.next_generation) × (d ≡ spool_of s.spool_root g)

pub new-Inv :
    {E : Type 0} (has_launcher : Bool) (base : ℤ) (root : String) (s : Supervisor)
    → new {E = E} has_launcher base root ≡ ok s
    → Inv s × (s.next_generation ≡ 1)
unfolding new
new-Inv has_launcher base root s h = (
  record {
    rooted = ground (arith, eq_iff root "");
    based = ground arith;
    ports = λ p b x. ground (arith, get-empty {V = Bool} p);
    spools = λ d b x. absurd (ground (arith, get-empty {V = Bool} d));
  },
  ground arith,
)

pub spool_of-inj : (root : String) (g h : ℕ) → spool_of root g ≡ spool_of root h → g ≡ h
spool_of-inj root g h e =
    decimal_inj g h (append_cancel_left "/gen-" _ _ (append_cancel_left root _ _ e))

pub proc_id-inj : (g h : ℕ) → proc_id g ≡ proc_id h → g ≡ h
proc_id-inj g h e = decimal_inj g h (append_cancel_left "proc-" _ _ e)

pub spool_free : (s : Supervisor) → Inv s → get s.used_spools (next_spec s).spool_dir ≡ none
spool_free s v = elim (Option-cases (get s.used_spools (next_spec s).spool_dir)) [
  | inl e ↦ e
  | inr (b, e) ↦
      let (g, below, same) = v.spools _ b e in
      let x = spool_of-inj s.spool_root s.next_generation g same in absurd (omega arith)
]

pub port_free : (s : Supervisor) → Inv s → get s.used_ports (next_spec s).port ≡ none
port_free s v = elim (Option-cases (get s.used_ports (next_spec s).port)) [
  | inl e ↦ e
  | inr (b, e) ↦ let x = v.ports _ b e in absurd (omega (arith, v.based))
]

spool_named : (s : Supervisor) → Inv s → (next_spec s).spool_dir ≢ ""
spool_named s v h = v.rooted ((append-eq-nil_iff.0 h).0)

-- The state that a reservation leaves.
abbrev pub reserve : Supervisor → Supervisor
reserve s = record s {
  next_generation = suc s.next_generation;
  processes = put s.processes (proc_id s.next_generation) none;
  used_ports = put s.used_ports (next_spec s).port true;
  used_spools = put s.used_spools (next_spec s).spool_dir true;
}

-- Under the invariant the allocation fails on the port range alone.
pub allocate_spec-cases :
    (E : Type 0) (s : Supervisor)
    → Inv s
    → ((65536 < s.base_port + s.next_generation)
        × (allocate_spec {E = E} s ≡ (s, err port_exhausted)))
      ⊎ ((s.base_port + s.next_generation ≤ 65536)
          × (allocate_spec {E = E} s ≡ (reserve s, ok (next_spec s, proc_id s.next_generation))))
allocate_spec-cases E s v = elim (Bool-cases (ltb 65535 (next_spec s).port)) [
  | inl e ↦ inl (ground (arith, v.based), unfold allocate_spec in ground arith)
  | inr e ↦ inr (
    ground (arith, v.based),
    unfold allocate_spec in
        ground (
          arith,
          port_free s v,
          spool_free s v,
          eq_iff (next_spec s).spool_dir "",
          spool_named s v,
          v.based,
        ),
  )
]

pub reserve-Inv :
    (s : Supervisor) → Inv s → s.base_port + s.next_generation ≤ 65536 → Inv (reserve s)
reserve-Inv s v h = record {
  rooted = v.rooted;
  based = omega (arith, v.based, h);
  ports =
      λ p b x. ground (arith, get-put s.used_ports (next_spec s).port p true, v.ports p b, v.based);
  spools = λ d b x. elim (Bool-cases ((next_spec s).spool_dir == d)) [
    | inl same ↦ (s.next_generation, omega arith, ground (arith, eq_iff (next_spec s).spool_dir d))
    | inr differs ↦
        let (g, below, named) =
          v.spools d b (ground (arith, get-put s.used_spools (next_spec s).spool_dir d true)) in
        (g, omega arith, named)
  ];
}

-- A supervisor with the same numbers and no more reservations.
abbrev pub Shrinks : Supervisor → Supervisor → Type 0
Shrinks s t =
    (t.spool_root ≡ s.spool_root)
    × (t.base_port ≡ s.base_port)
    × (t.next_generation ≡ s.next_generation)
    × ((p : ℕ) (b : Bool) → get t.used_ports p ≡ some b → get s.used_ports p ≡ some b)
    × ((d : String) (b : Bool) → get t.used_spools d ≡ some b → get s.used_spools d ≡ some b)

pub Shrinks-Inv : (s t : Supervisor) → Shrinks s t → Inv s → Inv t
Shrinks-Inv s t (root, base, gen, ports, spools) v = record {
  rooted = ground (arith, v.rooted);
  based = ground (arith, v.based);
  ports = λ p b x. ground (arith, v.ports p b (ports p b x));
  spools = λ d b x.
      let (g, below, named) = v.spools d b (spools d b x) in (g, ground arith, rw root named);
}

pub finish_launch-Shrinks :
    {E : Type 0} (s : Supervisor) (spec : ProcessSpec) (id : String) (outcome : Result E ℕ)
    → Shrinks s (finish_launch s spec id outcome).0
unfolding finish_launch
finish_launch-Shrinks s spec id (ok proc) = (refl, refl, refl, (λ p b x. x), λ d b x. x)
finish_launch-Shrinks s spec id (err e) = (
  refl,
  refl,
  refl,
  (λ p b x. ground (arith, get-delete s.used_ports spec.port p)),
  λ d b x. ground (arith, get-delete s.used_spools spec.spool_dir d),
)

pub reap-Shrinks :
    (E : Type 0) (host : Host) (s : Supervisor) (proc : Option ℕ)
    → Shrinks s (reap {E = E} host s proc).0
unfolding reap
reap-Shrinks E host s none = (refl, refl, refl, (λ p b x. x), λ d b x. x)
reap-Shrinks E host s (some proc) = (
  ground arith,
  ground arith,
  ground arith,
  (λ p b x. ground (arith, get-delete s.used_ports (host.spec proc).port p)),
  λ d b x. ground (arith, get-delete s.used_spools (host.spec proc).spool_dir d),
)
