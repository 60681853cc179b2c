-- ===== src/Worker/Allocator/Removal.antt =====
-- worker/allocator.go: the ledger of processes behind a Recover or a reap.
use fraglands.Prelude.{
  ℕ, String, ◌≡◌, ◌≢◌, refl, subst, sym, ap, inl, inr, none, some, List, string_eq, nat_eq, arith,
  Option-cases,
}
use fraglands.Prelude.Dict.{Dict, get, IsUnique, delete-IsUnique, delete}
use fraglands.Core.Errors.{err}
use fraglands.Server.Supervisor.{
  ServerError, unknown_process, ProcessSpec, ProcessState, Host, proc_id, find, reap,
}
use fraglands.Server.Supervisor.Reserve.{Shrinks-Inv, reap-Shrinks, proc_id-inj}
use fraglands.Server.Supervisor.Reaping.{reap_exact}
use fraglands.Worker.Allocator.{Allocator, Teardown, cleanup, recover}
use fraglands.Worker.Allocator.Recovery.{recover_exact}
use fraglands.Worker.Allocator.Growth.{Grows, cleanup-Grows}
use fraglands.Worker.Allocator.Ledger.{Ledger, find-entry}

module _ {E : Type 0} (specs : ℕ → ProcessSpec) (text_of : ServerError E → String) where
  -- One process is gone, and its generation not retained.
  removed-Ledger :
      (gs : List ℕ) (a b : Allocator) (k : ℕ)
      → Ledger specs text_of gs a
      → Grows a.supervisor b.supervisor
      → find {E = E} b.supervisor (proc_id k) ≡ err unknown_process
      → ((d : String) → d ≢ proc_id k → get b.supervisor.processes d ≡ get a.supervisor.processes d)
      → get b.retained k ≡ none
      → ((g : ℕ) → g ≢ k → get b.retained g ≡ get a.retained g)
      → IsUnique b.retained.entries
      → Ledger specs text_of gs b
  removed-Ledger gs a b k l (v, up) unknown others none_kept kept u =
      let apart : (g : ℕ)
          → g ≢ k
          → find {E = E} b.supervisor (proc_id g) ≡ find {E = E} a.supervisor (proc_id g) =
        λ g ne.
          find-entry a.supervisor b.supervisor (proc_id g)
            (others (proc_id g) (λ e. ne (proc_id-inj g k e))) in
      record {
        inv = v;
        held = λ g p h. ground (arith, l.held g p, apart g, kept g, none_kept);
        owned = λ g p h. ground (arith, l.owned g p, apart g, kept g, none_kept, unknown);
        fresh = λ g h. ground (arith, l.fresh g, apart g, unknown);
        keyed = u;
      }

  recover-parts :
      (t : Teardown) (a : Allocator) (g proc : ℕ)
      → get a.retained g ≡ some proc
      → (recover {E = E} specs t a g).1 ≡ none
      → ((cleanup {E = E} specs t a.supervisor proc).0 ≡ (recover {E = E} specs t a g).0.supervisor)
        × (delete a.retained g ≡ (recover {E = E} specs t a g).0.retained)
  unfolding recover
  recover-parts t a g proc n e = (ground (arith, n, e), ground (arith, n, e))

  pub recover-Ledger :
      (gs : List ℕ) (a : Allocator) (t : Teardown) (g : ℕ)
      → Ledger specs text_of gs a
      → Ledger specs text_of gs (recover {E = E} specs t a g).0
  recover-Ledger gs a t g l =
      let b = (recover {E = E} specs t a g).0 in
      let (absent, fails, reaped, others) = recover_exact {E = E} specs t a g in
      elim (Option-cases (recover {E = E} specs t a g).1) [
        | inr (x, m) ↦ subst (Ledger specs text_of gs) (sym (fails (λ e. ground (arith, m, e)))) l
        | inl m ↦ elim (Option-cases (get a.retained g)) [
          | inl n ↦ subst (Ledger specs text_of gs) (sym (absent n).0) l
          | inr (proc, n) ↦
              let (none_kept, _, (unknown, _, _), apart) = reaped proc n m in
              let (s, r) = recover-parts t a g proc n m in
              let named = (l.held g proc n).1 in
              removed-Ledger gs a b g l
                (subst (Grows a.supervisor) s (cleanup-Grows E specs t a.supervisor proc l.inv))
                (subst (λ x. find {E = E} b.supervisor (proc_id x) ≡ err unknown_process) named
                  unknown)
                (subst
                  (λ x.
                    (d : String)
                    → d ≢ proc_id x
                    → get b.supervisor.processes d ≡ get a.supervisor.processes d)
                  named apart)
                none_kept others
                (subst (λ (x : Dict ℕ ℕ). IsUnique x.entries) r
                  (delete-IsUnique a.retained g l.keyed))
        ]
      ]

  pub reap-Ledger :
      (gs : List ℕ) (a : Allocator) (state : ℕ → ProcessState) (proc : ℕ)
      → get a.retained (specs proc).generation ≡ none
      → Ledger specs text_of gs a
      → Ledger specs text_of gs (record a {
        supervisor =
            (reap {E = E} (record { spec = specs; state = state }) a.supervisor (some proc)).0;
      })
  reap-Ledger gs a state proc free l =
      let host : Host = record { spec = specs; state = state } in
      let t = reap {E = E} host a.supervisor (some proc) in
      let (_, gone, same, _, _) = reap_exact {E = E} host a.supervisor proc in
      let k = reap-Shrinks E host a.supervisor (some proc) in
      let b : Allocator = record a { supervisor = t.0 } in
      elim (Option-cases t.1) [
        | inr (x, m) ↦
            subst (Ledger specs text_of gs)
              (ap (λ s. record a { supervisor = s }) (sym (same (λ e. ground (arith, m, e))))) l
        | inl m ↦
            let (unknown, _, _, others, _, _) = gone m in
            removed-Ledger gs a b (specs proc).generation l
              (Shrinks-Inv a.supervisor t.0 k l.inv, ground (arith, k.2)) unknown others free
              (λ g ne. refl) l.keyed
      ]
