-- ===== src/Worker/Allocator/Ledger.antt =====
-- worker/allocator.go: every process of an allocator over any sequence of its calls.
use fraglands.Prelude.{
  ℕ, ◌+◌, ◌<◌, ◌≤◌, String, ◌≡◌, ◌≢◌, refl, subst, sym, ap, ◌∙◌, ◌⊎◌, inl, inr, true, none, some,
  List, ◌∷◌, string_eq, nat_eq, ltb, arith, Option-cases, Bool-cases,
}
use fraglands.Prelude.Dict.{Dict, get, put, get-put, IsUnique, put-IsUnique}
use fraglands.Core.Errors.{ok, err, Result-cases}
use fraglands.Core.Preparation.{FailureReason}
use fraglands.Server.Supervisor.{
  ServerError, unknown_process, ProcessSpec, Supervisor, proc_id, next_spec, find,
}
use fraglands.Server.Supervisor.Reserve.{Inv, proc_id-inj}
use fraglands.Worker.Allocator.{
  CleanupCause, AllocateError, allocation_error, cleanup_error, Allocator, Attempt, allocate,
}
use fraglands.Worker.Allocator.Recovery.{elem}
use fraglands.Worker.Allocator.Accounts.{allocate_accounts}
use fraglands.Worker.Allocator.Growth.{Grows, allocate-Grows, allocate-full, hand}

-- A process is found by its entry alone.
pub find-entry :
    {E : Type 0} (s t : Supervisor) (d : String)
    → get t.processes d ≡ get s.processes d
    → find {E = E} t d ≡ find {E = E} s d
unfolding find
find-entry s t d h = ground (arith, h)

AllocateError-cases :
    {E : Type 0} (e : AllocateError E)
    → ((reason : FailureReason) × (e ≡ allocation_error reason))
      ⊎ ((g : ℕ) × ((reason : FailureReason) × ((cause : CleanupCause E) × (e
                ≡ cleanup_error g reason cause))))
AllocateError-cases (allocation_error reason) = inl (reason, refl)
AllocateError-cases (cleanup_error g reason cause) = inr (g, (reason, (cause, refl)))

module _ {E : Type 0} (specs : ℕ → ProcessSpec) (text_of : ServerError E → String) where
  -- Retained processes are registered under their generation; registered ones were handed out or are
  -- retained; no generation to come has a process.
  pub record Ledger (gs : List ℕ) (a : Allocator) : Type 0 where
    pub inv : Inv a.supervisor
    pub held :
        (g proc : ℕ)
        → get a.retained g ≡ some proc
        → (find {E = E} a.supervisor (proc_id g) ≡ ok proc) × ((specs proc).generation ≡ g)
    pub owned :
        (g proc : ℕ)
        → find {E = E} a.supervisor (proc_id g) ≡ ok proc
        → (elem g gs ≡ true) ⊎ (get a.retained g ≡ some proc)
    pub fresh :
        (g : ℕ)
        → a.supervisor.next_generation ≤ g
        → find {E = E} a.supervisor (proc_id g) ≡ err unknown_process
    pub keyed : IsUnique a.retained.entries

  -- A generation to come is not retained.
  unheld :
      (gs : List ℕ) (a : Allocator)
      → Ledger gs a
      → get a.retained a.supervisor.next_generation ≡ none
  unheld gs a l = elim (Option-cases (get a.retained a.supervisor.next_generation)) [
    | inl n ↦ n
    | inr (proc, n) ↦
        absurd
          (ground (arith, (l.held _ proc n).0, l.fresh a.supervisor.next_generation (omega arith)))
  ]

  -- Only the next generation may have changed.
  abbrev Others : Allocator → Allocator → Type 0
  Others a b =
      (g : ℕ)
      → g ≢ a.supervisor.next_generation
      → find {E = E} b.supervisor (proc_id g) ≡ find {E = E} a.supervisor (proc_id g)

  handed-Ledger :
      (gs : List ℕ) (a b : Allocator) (proc : ℕ)
      → Ledger gs a
      → Grows a.supervisor b.supervisor
      → Others a b
      → a.supervisor.next_generation < b.supervisor.next_generation
      → find {E = E} b.supervisor (proc_id a.supervisor.next_generation) ≡ ok proc
      → b.retained ≡ a.retained
      → Ledger (a.supervisor.next_generation ∷ gs) b
  handed-Ledger gs a b proc l (v, up) others below found same = record {
    inv = v;
    held = λ g p h. ground (arith, l.held g p, unheld gs a l, others g, same);
    owned = λ g p h. ground (arith, l.owned g p, others g, same);
    fresh = λ g h. ground (arith, l.fresh g, others g);
    keyed = subst (λ (x : Dict ℕ ℕ). IsUnique x.entries) (sym same) l.keyed;
  }

  gone-Ledger :
      (gs : List ℕ) (a b : Allocator)
      → Ledger gs a
      → Grows a.supervisor b.supervisor
      → Others a b
      → find {E = E} b.supervisor (proc_id a.supervisor.next_generation) ≡ err unknown_process
      → b.retained ≡ a.retained
      → Ledger gs b
  gone-Ledger gs a b l (v, up) others unknown same = record {
    inv = v;
    held = λ g p h. ground (arith, l.held g p, unheld gs a l, others g, same);
    owned = λ g p h. ground (arith, l.owned g p, others g, same);
    fresh = λ g h. ground (arith, l.fresh g, others g);
    keyed = subst (λ (x : Dict ℕ ℕ). IsUnique x.entries) (sym same) l.keyed;
  }

  kept-Ledger :
      (gs : List ℕ) (a b : Allocator) (proc : ℕ)
      → Ledger gs a
      → Grows a.supervisor b.supervisor
      → Others a b
      → a.supervisor.next_generation < b.supervisor.next_generation
      → find {E = E} b.supervisor (proc_id a.supervisor.next_generation) ≡ ok proc
      → (specs proc).generation ≡ a.supervisor.next_generation
      → b.retained ≡ put a.retained a.supervisor.next_generation proc
      → Ledger gs b
  kept-Ledger gs a b proc l (v, up) others below found named same =
      let next = a.supervisor.next_generation in
      record {
        inv = v;
        held = λ g p h.
            ground (arith, l.held g p, others g, same, named, get-put a.retained next g proc);
        owned =
            λ g p h. ground (arith, l.owned g p, others g, same, get-put a.retained next g proc);
        fresh = λ g h. ground (arith, l.fresh g, others g);
        keyed =
            subst (λ (x : Dict ℕ ℕ). IsUnique x.entries) (sym same)
              (put-IsUnique a.retained next proc l.keyed);
      }

  pub allocate-Ledger :
      (gs : List ℕ) (a : Allocator) (w : Attempt E)
      → ((spec : ProcessSpec) (proc : ℕ) → w.launch spec ≡ ok proc → specs proc ≡ spec)
      → Ledger gs a
      → Ledger (hand (allocate specs text_of w a).1 gs) (allocate specs text_of w a).0
  allocate-Ledger gs a w honest l =
      elim (Bool-cases (ltb 65536 (a.supervisor.base_port + a.supervisor.next_generation))) [
        | inl full ↦
            let c = allocate specs text_of w a in
            let (same, none_handed) =
              allocate-full specs text_of w a l.inv (ground (arith, full)) in
            subst (λ x. Ledger x c.0) (sym (none_handed gs)) (subst (Ledger gs) (sym same) l)
        | inr room ↦
            let c = allocate specs text_of w a in
            let b = c.0 in
            let r = c.1 in
            let next = a.supervisor.next_generation in
            let (bv, up) = allocate-Grows specs text_of w a l.inv in
            let fresh = l.fresh next (omega arith) in
            let none_held = unheld gs a l in
            let (others, handed, gone, kept) =
              allocate_accounts specs text_of w a l.inv (ground (arith, room)) fresh
                (honest (next_spec a.supervisor)) in
            let apart : Others a b = λ g ne.
              find-entry a.supervisor b.supervisor (proc_id g)
                (others (proc_id g) (λ e. ne (proc_id-inj g next e))) in
            elim (Result-cases r) [
              | inl (q, n) ↦
                  let (gen, below, _, _, _, (proc, _, found), same) = handed q n in
                  subst (λ x. Ledger (hand x gs) b) (sym n)
                    (subst (λ x. Ledger (x ∷ gs) b) (sym gen)
                      (handed-Ledger gs a b proc l (bv, up) apart below found same))
              | inr (e, n) ↦ elim (AllocateError-cases e) [
                | inl (reason, m) ↦
                    let ((unknown, _, _), same) = gone reason (ground (arith, n, m)) in
                    subst (λ x. Ledger (hand x gs) b) (sym n)
                      (gone-Ledger gs a b l (bv, up) apart unknown same)
                | inr (g, (reason, (cause, m))) ↦
                    let (gen, below, (proc, launched, found, added)) =
                      kept g reason cause (ground (arith, n, m)) in
                    let named =
                      ap (λ (x : ProcessSpec). x.generation)
                        (honest (next_spec a.supervisor) proc launched) in
                    let stored = added ∙ ap (λ x. put a.retained x proc) gen in
                    subst (λ x. Ledger (hand x gs) b) (sym n)
                      (kept-Ledger gs a b proc l (bv, up) apart below found named stored)
              ]
            ]
      ]
