-- ===== src/Worker/Allocator/Growth.antt =====
-- worker/allocator.go: the supervisor behind a call of an allocator.
use fraglands.Prelude.{
  ℕ, ◌+◌, ◌<◌, ◌≤◌, String, ◌≡◌, subst, inl, inr, some, List, ◌∷◌, string_eq, nat_eq, arith,
  Option-cases, Bool-cases,
}
use fraglands.Core.Errors.{Result, ok, err, Result-cases}
use fraglands.Server.Supervisor.{
  ServerError, port_exhausted, ProcessSpec, Host, Supervisor, proc_id, next_spec, finish_launch,
  start, reap,
}
use fraglands.Server.Supervisor.Reserve.{
  Inv, Shrinks-Inv, reap-Shrinks, finish_launch-Shrinks, reserve, reserve-Inv, allocate_spec-cases,
}
use fraglands.Orchestrator.{AllocatedProcess}
use fraglands.Worker.Allocator.{
  Allocator, Teardown, Attempt, wait_readiness, fail_with_cleanup, reclaim, cleanup, await_process,
  allocate,
}
use fraglands.Worker.Allocator.Recovery.{cleanup-cases}

-- The invariant holds on, and generations only grow.
abbrev pub Grows : Supervisor → Supervisor → Type 0
Grows s t = Inv t × (s.next_generation ≤ t.next_generation)

module _ (E : Type 0) (specs : ℕ → ProcessSpec) where
  pub cleanup-Grows :
      (t : Teardown) (s : Supervisor) (proc : ℕ)
      → Inv s
      → Grows s (cleanup {E = E} specs t s proc).0
  unfolding reclaim
  cleanup-Grows t s proc v = elim (cleanup-cases {E = E} specs t s proc) [
    | inr (c, e) ↦ subst (λ x. Grows s x.0) e (v, omega arith)
    | inl e ↦
        let host : Host = record { spec = specs; state = λ _. t.at_reap } in
        let k = reap-Shrinks E host s (some proc) in
        subst (λ x. Grows s x.0) e
          (Shrinks-Inv s (reap {E = E} host s (some proc)).0 k v, ground (arith, k.2))
  ]

  await_process-Grows :
      (w : Attempt E) (a : Allocator) (proc : ℕ)
      → Inv a.supervisor
      → Grows a.supervisor (await_process specs w a proc).0.supervisor
  unfolding await_process fail_with_cleanup
  await_process-Grows w a proc v = elim (Result-cases (wait_readiness w.type_name w.readiness)) [
    | inl (x, n) ↦ subst (Grows a.supervisor) (ground (arith, n)) (v, omega arith)
    | inr (x, n) ↦
        subst (Grows a.supervisor) (ground (arith, n))
          (cleanup-Grows w.teardown a.supervisor proc v)
  ]

start-Grows :
    (E : Type 0) (launch : ProcessSpec → Result E ℕ) (s : Supervisor)
    → Inv s
    → Grows s (start launch s).0
unfolding start
start-Grows E launch s v = elim (allocate_spec-cases E s v) [
  | inl (full, e) ↦ subst (Grows s) (ground (arith, e)) (v, omega arith)
  | inr (room, e) ↦
      let spec = next_spec s in
      let id = proc_id s.next_generation in
      let k = finish_launch-Shrinks (reserve s) spec id (launch spec) in
      let t = (finish_launch (reserve s) spec id (launch spec)).0 in
      let h : Grows s t =
        (Shrinks-Inv (reserve s) t k (reserve-Inv s v room), ground (arith, k.2)) in
      subst (Grows s) (ground (arith, e)) h
]

start-full :
    (E : Type 0) (launch : ProcessSpec → Result E ℕ) (s : Supervisor)
    → Inv s
    → 65536 < s.base_port + s.next_generation
    → start launch s ≡ (s, err port_exhausted)
unfolding start
start-full E launch s v full = elim (allocate_spec-cases E s v) [
  | inl (_, e) ↦ ground (arith, e)
  | inr (room, e) ↦ absurd (omega arith)
]

-- The generations handed out, behind an allocation.
abbrev pub hand {ℓ} : {X : Type ℓ} → Result X AllocatedProcess → List ℕ → List ℕ
hand (ok q) gs = q.generation ∷ gs
hand (err x) gs = gs

module _ {E : Type 0} (specs : ℕ → ProcessSpec) (text_of : ServerError E → String) where
  pub allocate-Grows :
      (w : Attempt E) (a : Allocator)
      → Inv a.supervisor
      → Grows a.supervisor (allocate specs text_of w a).0.supervisor
  unfolding allocate
  allocate-Grows w a v = elim (Bool-cases w.has_revision) [
    | inr n ↦ subst (Grows a.supervisor) (ground (arith, n)) (v, omega arith)
    | inl n ↦ elim (Option-cases w.context_error) [
      | inr (e, m) ↦ subst (Grows a.supervisor) (ground (arith, n, m)) (v, omega arith)
      | inl m ↦
          let s = start w.launch a.supervisor in
          let b : Allocator = record a { supervisor = s.0 } in
          let (sv, up) = start-Grows E w.launch a.supervisor v in
          elim (Result-cases s.1) [
            | inr (x, l) ↦ subst (Grows a.supervisor) (ground (arith, n, m, l)) (sv, up)
            | inl (proc, l) ↦
                let (bv, more) = await_process-Grows E specs w b proc sv in
                subst (Grows a.supervisor) {x = (await_process specs w b proc).0.supervisor}
                  (ground (arith, n, m, l)) (bv, omega (arith, up, more))
          ]
    ]
  ]

  -- An Allocate where no port is left.
  pub allocate-full :
      (w : Attempt E) (a : Allocator)
      → Inv a.supervisor
      → 65536 < a.supervisor.base_port + a.supervisor.next_generation
      → ((allocate specs text_of w a).0 ≡ a)
        × ((gs : List ℕ) → hand (allocate specs text_of w a).1 gs ≡ gs)
  unfolding allocate
  allocate-full w a v full =
      let h = start-full E w.launch a.supervisor v full in
      (ground (arith, h), (λ gs. ground (arith, h)))
