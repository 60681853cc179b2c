-- ===== src/Server/Supervisor/Isolation.antt =====
-- server/supervisor.go: the histories of a supervisor, whose locked sections may interleave in any way,
-- and the specs that it hands out.
use fraglands.Prelude.{
  ℕ, suc, ◌+◌, ◌<◌, ◌≤◌, String, ◌≡◌, ◌≢◌, ◌↔◌, refl, sym, subst, ap, ◌∙◌, inl, inr, Bool, Option,
  List, [], ◌∷◌, string_eq, nat_eq, arith, length, All,
}
use fraglands.Prelude.Int.{ℤ}
use fraglands.Core.Errors.{Result, ok, err}
use fraglands.Server.Supervisor.{
  ServerError, port_exhausted, ProcessSpec, Host, Supervisor, new, proc_id, next_spec,
  allocate_spec, finish_launch, reap,
}
use fraglands.Server.Supervisor.Reserve.{
  Numbered, Inv, new-Inv, spool_of-inj, proc_id-inj, reserve, allocate_spec-cases, reserve-Inv,
  Shrinks, Shrinks-Inv, finish_launch-Shrinks, reap-Shrinks,
}

pub data Event : Type 0 where
  reserved : ProcessSpec → Event
  other : Event

-- One locked section. The end of a launch may come with any spec and ID.
pub data Step (E : Type 0) (s t : Supervisor) : Event → Type 0 where
  reserves :
      (spec : ProcessSpec) (id : String)
      → allocate_spec {E = E} s ≡ (t, ok (spec, id))
      → Step E s t (reserved spec)
  fails : (e : ServerError E) → allocate_spec {E = E} s ≡ (t, err e) → Step E s t other
  finishes :
      (spec : ProcessSpec) (id : String) (outcome : Result E ℕ)
      → (finish_launch s spec id outcome).0 ≡ t
      → Step E s t other
  reaps : (host : Host) (proc : Option ℕ) → (reap {E = E} host s proc).0 ≡ t → Step E s t other

-- The newest event stands first.
pub data Reach (E : Type 0) (start : Supervisor) : List Event → Supervisor → Type 0 where
  here : Reach E start [] start
  next :
      {es : List Event} {s t : Supervisor} {e : Event}
      → Reach E start es s
      → Step E s t e
      → Reach E start (e ∷ es) t

-- The specs that were handed out.
abbrev pub specs : List Event → List ProcessSpec
specs [] = []
specs (reserved spec ∷ es) = spec ∷ specs es
specs (other ∷ es) = specs es

-- What a history has built up: the invariant, and the handed-out specs, which are as many as the
-- generations used.
pub record Built (s : Supervisor) (es : List Event) : Type 0 where
  pub inv : Inv s
  pub counted : s.next_generation ≡ suc (length (specs es))
  pub numbered : All (Numbered s s.next_generation) (specs es)

All-Numbered :
    (s t : Supervisor) (ps : List ProcessSpec)
    → t.spool_root ≡ s.spool_root
    → t.base_port ≡ s.base_port
    → s.next_generation ≤ t.next_generation
    → All (Numbered s s.next_generation) ps
    → All (Numbered t t.next_generation) ps
All-Numbered s t [] root base le u = tt
All-Numbered s t (p ∷ ps) root base le ((below, port, spool), rest) =
    ((omega arith, ground arith, rw root spool), All-Numbered s t ps root base le rest)

quiet-Built : (s t : Supervisor) (es : List Event) → Shrinks s t → Built s es → Built t (other ∷ es)
quiet-Built s t es k b = record {
  inv = Shrinks-Inv s t k b.inv;
  counted = k.2 ∙ b.counted;
  numbered = All-Numbered s t (specs es) k.0 k.1 (ground (arith, k.2)) b.numbered;
}

reserve-Built :
    (s : Supervisor) (es : List Event)
    → s.base_port + s.next_generation ≤ 65536
    → Built s es
    → Built (reserve s) (reserved (next_spec s) ∷ es)
reserve-Built s es h b = record {
  inv = reserve-Inv s b.inv h;
  counted = ap suc b.counted;
  numbered = (
    (omega arith, omega (arith, b.inv.based), refl),
    All-Numbered s (reserve s) (specs es) refl refl (omega arith) b.numbered,
  );
}

Step-Built :
    {E : Type 0} {s t : Supervisor} {e : Event} (es : List Event)
    → Step E s t e
    → Built s es
    → Built t (e ∷ es)
Step-Built {E} {s} {t} es (reserves spec id h) b = elim (allocate_spec-cases E s b.inv) [
  | inl (full, e) ↦ absurd (ground arith)
  | inr (room, e) ↦
      subst (λ x. Built x (reserved spec ∷ es)) (ground arith)
        (subst (λ x. Built (reserve s) (reserved x ∷ es)) (ground arith)
          (reserve-Built s es room b))
]
Step-Built {E} {s} {t} es (fails x h) b = elim (allocate_spec-cases E s b.inv) [
  | inl (full, e) ↦
      subst (λ x. Built x (other ∷ es)) (ground arith)
        (quiet-Built s s es (refl, refl, refl, (λ p c u. u), λ d c u. u) b)
  | inr (room, e) ↦ absurd (ground arith)
]
Step-Built {E} {s} {t} es (finishes spec id outcome h) b =
    quiet-Built s t es (subst (Shrinks s) h (finish_launch-Shrinks s spec id outcome)) b
Step-Built {E} {s} {t} es (reaps host proc h) b =
    quiet-Built s t es (subst (Shrinks s) h (reap-Shrinks E host s proc)) b

pub Reach-Built :
    {E : Type 0} {start s : Supervisor} {es : List Event}
    → Inv start × (start.next_generation ≡ 1)
    → Reach E start es s
    → Built s es
Reach-Built {start} i here = record { inv = i.0; counted = i.1; numbered = tt }
Reach-Built i (next {es} r st) = Step-Built es st (Reach-Built i r)

abbrev pub Apart : ProcessSpec → String → ProcessSpec → Type 0
Apart spec id old =
    (old.generation ≢ spec.generation)
    × (old.port ≢ spec.port)
    × (old.spool_dir ≢ spec.spool_dir)
    × (proc_id old.generation ≢ id)

All-Apart :
    (s : Supervisor) (ps : List ProcessSpec)
    → Inv s
    → All (Numbered s s.next_generation) ps
    → All (Apart (next_spec s) (proc_id s.next_generation)) ps
All-Apart s [] v u = tt
All-Apart s (p ∷ ps) v ((below, port, spool), rest) = (
  (
    (λ e. omega arith),
    (λ e. omega (arith, v.based)),
    (λ e.
        let x = spool_of-inj s.spool_root p.generation s.next_generation (sym spool ∙ e) in
        omega arith),
    (λ e. let x = proc_id-inj p.generation s.next_generation e in omega arith),
  ),
  All-Apart s ps v rest,
)

-- In any history of a supervisor, a spec that is handed out has a generation, a port, a spool
-- directory and a process ID that no spec handed out before had, whether or not that process still
-- runs; its port is between 1 and 65535.
pub isolated :
    {E : Type 0} (has_launcher : Bool) (base : ℤ) (root : String) (start s t : Supervisor)
    (es : List Event) (spec : ProcessSpec) (id : String)
    → new {E = E} has_launcher base root ≡ ok start
    → Reach E start es s
    → allocate_spec {E = E} s ≡ (t, ok (spec, id))
    → All (Apart spec id) (specs es) × (0 < spec.port) × (spec.port ≤ 65535)
isolated {E} has_launcher base root start s t es spec id h r a =
    let b = Reach-Built (new-Inv has_launcher base root start h) r in
    elim (allocate_spec-cases E s b.inv) [
      | inl (full, e) ↦ absurd (ground arith)
      | inr (room, e) ↦
          let same : next_spec s ≡ spec = ground arith in
          let named : proc_id s.next_generation ≡ id = ground arith in
          subst (λ x. All (Apart x id) (specs es) × (0 < x.port) × (x.port ≤ 65535)) same
            (subst
              (λ x.
                All (Apart (next_spec s) x) (specs es)
                × (0 < (next_spec s).port)
                × ((next_spec s).port ≤ 65535))
              named
              (
                All-Apart s (specs es) b.inv b.numbered,
                omega (arith, b.inv.based),
                omega (arith, b.inv.based),
              ))
    ]

-- In any history of a supervisor, an allocation fails exactly when 65536 less the base port specs
-- were handed out before, counted with those of failed launches and of reaped processes; the error
-- is then ErrPortExhausted and nothing changes. The other errors of the allocation do not occur.
pub fails_exhausted :
    {E : Type 0} (has_launcher : Bool) (base : ℤ) (root : String) (start s t : Supervisor)
    (es : List Event) (r : Result (ServerError E) (ProcessSpec × String))
    → new {E = E} has_launcher base root ≡ ok start
    → Reach E start es s
    → allocate_spec {E = E} s ≡ (t, r)
    → ((r ≡ err port_exhausted) ↔ (65536 ≤ s.base_port + length (specs es)))
      × ((e : ServerError E) → r ≡ err e → (e ≡ port_exhausted) × (t ≡ s))
fails_exhausted {E} has_launcher base root start s t es r h reach a =
    let b = Reach-Built (new-Inv has_launcher base root start h) reach in
    elim (allocate_spec-cases E s b.inv) [
      | inl (full, e) ↦ (((λ x. omega (arith, b.counted)), λ x. ground arith), λ x y. ground arith)
      | inr (room, e) ↦ (
        ((λ x. absurd (ground arith)), λ x. absurd (omega (arith, b.counted))),
        λ x y. absurd (ground arith),
      )
    ]
