-- ===== src/Worker/Allocator/Owned.antt =====
-- worker/allocator.go: over any sequence of its calls, an allocator loses no process.
use fraglands.Prelude.{
  ℕ, String, ◌≡◌, ◌≢◌, ◌↔◌, subst, sym, ◌⊎◌, Bool, true, Option, none, some, List, [], string_eq,
  nat_eq, arith,
}
use fraglands.Prelude.Int.{ℤ}
use fraglands.Prelude.Dict.{Dict, get, IsUnique, empty, get-empty}
use fraglands.Core.Errors.{ok}
use fraglands.Server.Supervisor.{
  ServerError, ProcessSpec, ProcessState, Supervisor, new, proc_id, find, reap,
}
use fraglands.Server.Supervisor.Reserve.{Inv, new-Inv}
use fraglands.Worker.Allocator.{Allocator, new_allocator, Teardown, Attempt, allocate, recover}
use fraglands.Worker.Allocator.Recovery.{Ascending, elem}
use fraglands.Worker.Allocator.Growth.{hand}
use fraglands.Worker.Allocator.Ledger.{Ledger, allocate-Ledger}
use fraglands.Worker.Allocator.Removal.{recover-Ledger, reap-Ledger}
use fraglands.Worker.Allocator.{failed_cleanup_generations}
use fraglands.Worker.Allocator.RecoverAll.{generations_exact}

module _ {E : Type 0} (specs : ℕ → ProcessSpec) (text_of : ServerError E → String) where
  -- A sequence of calls of an allocator, with the generations that it handed out. A launcher returns
  -- a handle with the spec that it was given; code outside reaps no retained process.
  pub data Reach : List ℕ → Allocator → Type 0 where
    begin :
        (has_launcher : Bool) (base : ℤ) (root : String) (s : Supervisor) (timeout : ℤ)
        (a : Allocator)
        → new {E = E} has_launcher base root ≡ ok s
        → new_allocator (some s) timeout ≡ some a
        → Reach [] a
    allocates :
        {gs : List ℕ} {a : Allocator} (w : Attempt E)
        → Reach gs a
        → ((spec : ProcessSpec) (proc : ℕ) → w.launch spec ≡ ok proc → specs proc ≡ spec)
        → Reach (hand (allocate specs text_of w a).1 gs) (allocate specs text_of w a).0
    recovers :
        {gs : List ℕ} {a : Allocator} (t : Teardown) (g : ℕ)
        → Reach gs a
        → Reach gs (recover {E = E} specs t a g).0
    reaps :
        {gs : List ℕ} {a : Allocator} (state : ℕ → ProcessState) (proc : ℕ)
        → Reach gs a
        → get a.retained (specs proc).generation ≡ none
        → Reach gs (record a {
          supervisor =
              (reap {E = E} (record { spec = specs; state = state }) a.supervisor (some proc)).0;
        })

  begin-Ledger :
      (has_launcher : Bool) (base : ℤ) (root : String) (s : Supervisor) (timeout : ℤ)
      (a : Allocator)
      → new {E = E} has_launcher base root ≡ ok s
      → new_allocator (some s) timeout ≡ some a
      → Ledger specs text_of [] a
  unfolding new new_allocator find
  begin-Ledger has_launcher base root s timeout a h k =
      let (v, one) = new-Inv {E = E} has_launcher base root s h in
      let empty_retained : a.retained ≡ empty = ground (arith, k) in
      let same : s ≡ a.supervisor = ground (arith, k) in
      record {
        inv = subst Inv same v;
        held = λ g p q. absurd (ground (arith, q, empty_retained, get-empty {V = ℕ} g));
        owned = λ g p q. absurd (ground (arith, h, k, q, get-empty {V = Option ℕ} (proc_id g)));
        fresh = λ g q. ground (arith, h, k, q, get-empty {V = Option ℕ} (proc_id g));
        keyed = subst (λ (x : Dict ℕ ℕ). IsUnique x.entries) (sym empty_retained) tt;
      }

  Reach-Ledger : {gs : List ℕ} {a : Allocator} → Reach gs a → Ledger specs text_of gs a
  Reach-Ledger (begin l base root s timeout a h k) = begin-Ledger l base root s timeout a h k
  Reach-Ledger (allocates {gs} {a} w r honest) =
      allocate-Ledger specs text_of gs a w honest (Reach-Ledger r)
  Reach-Ledger (recovers {gs} {a} t g r) = recover-Ledger specs text_of gs a t g (Reach-Ledger r)
  Reach-Ledger (reaps {gs} {a} state proc r free) =
      reap-Ledger specs text_of gs a state proc free (Reach-Ledger r)

  -- In any sequence of Allocate and Recover calls and of reaps of processes that are not retained: a
  -- process that is registered with the supervisor was handed out by an Allocate that succeeded, or
  -- is retained; a retained one is registered under its own generation, and
  -- FailedCleanupGenerations lists exactly the retained ones, in ascending order without repetition.
  pub no_process_lost :
      {gs : List ℕ} {a : Allocator}
      → Reach gs a
      → ((g proc : ℕ)
          → find {E = E} a.supervisor (proc_id g) ≡ ok proc
          → (elem g gs ≡ true) ⊎ (get a.retained g ≡ some proc))
        × ((g proc : ℕ)
            → get a.retained g ≡ some proc
            → (find {E = E} a.supervisor (proc_id g) ≡ ok proc) × ((specs proc).generation ≡ g))
        × Ascending (failed_cleanup_generations a)
        × ((g : ℕ) → (elem g (failed_cleanup_generations a) ≡ true) ↔ (get a.retained g ≢ none))
  no_process_lost {a = a} r =
      let l = Reach-Ledger r in
      let (sorted, listed) = generations_exact a l.keyed in (l.owned, l.held, sorted, listed)
