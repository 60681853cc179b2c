-- ===== src/Worker/Allocator/Recovery.antt =====
-- worker/allocator.go: the recovery of retained processes.
use fraglands.Prelude.{
  ℕ, ◌<◌, String, ◌≡◌, ◌≢◌, refl, ◌⊎◌, inl, inr, Bool, true, false, ◌||◌, Option, none, some, List,
  [], ◌∷◌, ◌==◌, nat_eq, string_eq, arith, beq_self, Option-cases, Bool-cases, subst,
}
use fraglands.Prelude.Dict.{get, get-delete, lookup, IsUnique}
use fraglands.Core.Errors.{err}
use fraglands.Server.Supervisor.{
  unknown_process, ProcessSpec, Host, terminal, Supervisor, proc_id, find, reap,
}
use fraglands.Server.Supervisor.Reaping.{port_set, spool_set, reap_exact}
use fraglands.Worker.Allocator.{
  CleanupCause, cannot_stop, stop_failed, Allocator, Teardown, reclaim, cleanup, recover, insert,
  sort, keys,
}

abbrev pub elem : ℕ → List ℕ → Bool
elem x [] = false
elem x (g ∷ gs) = (g == x) || elem x gs

abbrev pub Above : ℕ → List ℕ → Type 0
Above b [] = Unit
Above b (g ∷ gs) = (b < g) × Above b gs

-- Strictly, so that no generation stands twice.
abbrev pub Ascending : List ℕ → Type 0
Ascending [] = Unit
Ascending (g ∷ gs) = Above g gs × Ascending gs

abbrev pub is_some : Option ℕ → Bool
is_some none = false
is_some (some _) = true

elem-insert : (x g : ℕ) (gs : List ℕ) → elem x (insert g gs) ≡ ((g == x) || elem x gs)
elem-insert x g [] = ground arith
elem-insert x g (h ∷ hs) = ground (arith, elem-insert x g hs)

pub elem-sort : (x : ℕ) (gs : List ℕ) → elem x (sort gs) ≡ elem x gs
elem-sort x [] = refl
elem-sort x (g ∷ gs) = ground (arith, elem-insert x g (sort gs), elem-sort x gs)

pub elem-keys : (x : ℕ) (l : List (ℕ × ℕ)) → elem x (keys l) ≡ is_some (lookup x l)
unfolding lookup
elem-keys x [] = refl
elem-keys x ((g, p) ∷ rest) = ground (arith, elem-keys x rest)

Above-trans : (b c : ℕ) (gs : List ℕ) → b < c → Above c gs → Above b gs
Above-trans b c [] h u = tt
Above-trans b c (g ∷ gs) h (lt, u) = (omega arith, Above-trans b c gs h u)

pub Above-elem : (b : ℕ) (gs : List ℕ) → Above b gs → elem b gs ≡ false
Above-elem b [] u = refl
Above-elem b (g ∷ gs) (lt, u) = ground (arith, Above-elem b gs u)

Above-insert : (b g : ℕ) (gs : List ℕ) → b < g → Above b gs → Above b (insert g gs)
Above-insert b g [] h u = (h, tt)
Above-insert b g (k ∷ ks) h (lt, u) = ground (arith, Above-insert b g ks h u)

insert-Ascending :
    (g : ℕ) (gs : List ℕ) → elem g gs ≡ false → Ascending gs → Ascending (insert g gs)
insert-Ascending g [] h u = (tt, tt)
insert-Ascending g (k ∷ ks) h (above, u) =
    ground (arith, insert-Ascending g ks, Above-insert k g ks, Above-trans g k ks)

pub sort-Ascending : (l : List (ℕ × ℕ)) → IsUnique l → Ascending (sort (keys l))
unfolding lookup
sort-Ascending [] u = tt
sort-Ascending ((g, p) ∷ rest) (fresh, u) =
    insert-Ascending g (sort (keys rest))
      (ground (arith, elem-sort g (keys rest), elem-keys g rest, fresh)) (sort-Ascending rest u)

-- The process is unknown to the supervisor, and its port and its spool are free.
abbrev pub Gone : (E : Type 0) → Supervisor → ProcessSpec → Type 0
Gone E s spec =
    (find {E = E} s (proc_id spec.generation) ≡ err unknown_process)
    × (port_set s spec.port ≡ false)
    × (spool_set s spec.spool_dir ≡ false)

module _ {E : Type 0} (specs : ℕ → ProcessSpec) where
  -- What the end of a cleanup says.
  abbrev Cleaned : Teardown → Supervisor → ℕ → Supervisor × Option (CleanupCause E) → Type 0
  Cleaned t s proc (after, e) =
      let id = proc_id (specs proc).generation in
      (e ≢ none → after ≡ s)
      × (e ≡ none
          → (get s.processes id ≡ some (some proc))
            × (terminal t.at_reap ≡ true)
            × Gone E after (specs proc)
            × ((d : String) → d ≢ id → get after.processes d ≡ get s.processes d))

  reclaim-Cleaned :
      (t : Teardown) (s : Supervisor) (proc : ℕ) → Cleaned t s proc (reclaim {E = E} specs t s proc)
  unfolding reclaim
  reclaim-Cleaned t s proc =
      let host : Host = record { spec = specs; state = λ _. t.at_reap } in
      let (exact, gone, same, _, _) = reap_exact {E = E} host s proc in
      (
        (λ h. same (λ q. h (ground (arith, q)))),
        (λ h.
            let q : (reap {E = E} host s (some proc)).1 ≡ none = ground (arith, h) in
            let (unknown, port, spool, others, _, _) = gone q in
            ((exact.0 q).0, (exact.0 q).1, (unknown, port, spool), others)),
      )

  pub cleanup-cases :
      (t : Teardown) (s : Supervisor) (proc : ℕ)
      → (reclaim {E = E} specs t s proc ≡ cleanup {E = E} specs t s proc)
        ⊎ ((c : CleanupCause E) × ((s, some c) ≡ cleanup {E = E} specs t s proc))
  unfolding cleanup
  cleanup-cases t s proc = elim (Bool-cases (terminal t.at_start)) [
    | inl e ↦ inl (ground (arith, e))
    | inr e ↦ elim (Option-cases t.stop) [
      | inl n ↦ inr (cannot_stop, ground (arith, e, n))
      | inr (r, n) ↦ elim (Option-cases r) [
        | inl m ↦ inl (ground (arith, e, n, m))
        | inr (x, m) ↦ elim (Bool-cases (terminal t.after_stop)) [
          | inl f ↦ inl (ground (arith, e, n, m, f))
          | inr f ↦ inr (stop_failed x, ground (arith, e, n, m, f))
        ]
      ]
    ]
  ]

  -- A cleanup that fails leaves the supervisor as it was; one that succeeds has reaped the process.
  pub cleanup-Cleaned :
      (t : Teardown) (s : Supervisor) (proc : ℕ) → Cleaned t s proc (cleanup {E = E} specs t s proc)
  cleanup-Cleaned t s proc = elim (cleanup-cases t s proc) [
    | inl e ↦ subst (Cleaned t s proc) e (reclaim-Cleaned t s proc)
    | inr (c, e) ↦ subst (Cleaned t s proc) e ((λ _. refl), λ h. absurd (ground (arith, h)))
  ]

  -- Recover returns nil where the generation is not retained, and changes nothing. Where it is, nil
  -- says that its process was in a terminal state, has been reaped (it is unknown to the supervisor,
  -- and its port and its spool are free) and is not retained any more; an error leaves everything as
  -- it was, to be retried. Other generations and other processes stay in every case.
  pub recover_exact :
      (t : Teardown) (a : Allocator) (g : ℕ)
      → let (b, e) = recover {E = E} specs t a g in
        (get a.retained g ≡ none → (b ≡ a) × (e ≡ none))
        × (e ≢ none → b ≡ a)
        × ((proc : ℕ)
            → get a.retained g ≡ some proc
            → e ≡ none
            → (get b.retained g ≡ none)
              × (terminal t.at_reap ≡ true)
              × Gone E b.supervisor (specs proc)
              × ((d : String)
                  → d ≢ proc_id (specs proc).generation
                  → get b.supervisor.processes d ≡ get a.supervisor.processes d))
        × ((h : ℕ) → h ≢ g → get b.retained h ≡ get a.retained h)
  unfolding recover
  recover_exact t a g = elim (Option-cases (get a.retained g)) [
    | inl n ↦ (
      (λ _. (ground (arith, n), ground (arith, n))),
      (λ _. ground (arith, n)),
      (λ proc h. absurd (ground (arith, n, h))),
      (λ h ne. ground (arith, n)),
    )
    | inr (proc, n) ↦
        let (fails, reaped) = cleanup-Cleaned t a.supervisor proc in
        (
          (λ h. absurd (ground (arith, n, h))),
          (λ h. ground (arith, n, h, fails)),
          (λ q h e.
              let (_, ended, gone, others) = reaped (ground (arith, n, e)) in
              (
                ground (arith, n, e, get-delete a.retained g g, beq_self g),
                ended,
                ground (arith, n, h, e, gone),
                (λ d ne. ground (arith, n, h, e, others d)),
              )),
          (λ h ne. ground (arith, n, get-delete a.retained g h)),
        )
  ]
