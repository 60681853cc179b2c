-- ===== src/Core/Lease/Revoked.antt =====
-- core/server-lease.go: Revoke over a history, and the lease versions.
use fraglands.Prelude.{
  ℕ, suc, ◌%◌, ◌^◌, String, ◌≡◌, refl, sym, subst, ap, ◌∙◌, inl, inr, true, Option, none, some,
  List, [], ◌∷◌, ◌==◌, string_eq, nat_eq, if◌then◌else◌, arith, Option-cases, nat_beq_iff,
}
use fraglands.Prelude.Dict.{get, get-put, get-empty}
use fraglands.Core.Errors.{CoreError, ok, lease_unknown, lease_revoked}
use fraglands.Core.Lease.{
  ServerLease, LeaseAuthority, new, grant_lease, issue_lease, next_version, revoke,
  check_generation, commit_lease,
}
use fraglands.Core.Lease.Calls.{Authenticates, issue_lease-granted, authenticate-IsLive}
use fraglands.Core.Lease.Invariant.{
  Event, issued, Step, issues, fails, revokes, Reach, here, next, Inv, new-Inv, Reach-Inv,
  issued-grant, failed-same,
}

-- How often a lease was issued for a generation.
abbrev pub times_issued : ℕ → List Event → ℕ
times_issued g [] = 0
times_issued g (issued h ∷ es) = if h == g then suc (times_issued g es) else times_issued g es
times_issued g (_ ∷ es) = times_issued g es

-- The generation has no lease, or its lease is revoked.
abbrev IsDead : ℕ → LeaseAuthority → Type 0
IsDead g a = (l : ℕ) → get a.active g ≡ some l → (a.cell l).revoked ≡ true

revoke-IsDead : (a : LeaseAuthority) (g : ℕ) → IsDead g (revoke a g)
unfolding revoke
revoke-IsDead a g l h = ground arith

Step-IsDead :
    (encode : List ℕ → String) (es : List Event) {a b : LeaseAuthority} {e : Event} (g : ℕ)
    → Step encode a b e
    → times_issued g (e ∷ es) ≡ 0
    → Inv a
    → IsDead g a
    → IsDead g b
unfolding revoke
Step-IsDead encode es {a} {b} g (issues reads p h lease eq) u v dead =
    rw (issued-grant encode reads a b p h lease eq) (λ l x.
      unfold grant_lease in ground (arith, get-put a.active h g a.next, dead l, v.scoped g l, x))
Step-IsDead encode es {a} {b} g (fails reads p h e eq) u v dead =
    subst (IsDead g) (sym (failed-same encode reads a b p h e eq)) dead
Step-IsDead encode es {a} g (revokes h eq) u v dead =
    subst (IsDead g) eq (λ l x. ground (arith, dead l, x))

Reach-IsDead :
    (encode : List ℕ → String) (g : ℕ) {a b : LeaseAuthority} {es : List Event}
    → Reach encode a es b
    → times_issued g es ≡ 0
    → Inv a
    → IsDead g a
    → IsDead g b
Reach-IsDead encode g here u v dead = dead
Reach-IsDead encode g (next {es} {a = m} {e} r st) u v dead =
    Step-IsDead encode es g st u (Reach-Inv encode v r)
      (Reach-IsDead encode g r (ground arith) v dead)

IsDead-refuses :
    (a : LeaseAuthority) (g : ℕ) → IsDead g a → (e : CoreError) × (check_generation a g ≡ some e)
unfolding check_generation
IsDead-refuses a g dead = elim (Option-cases (get a.active g)) [
  | inl e ↦ (lease_unknown, ground arith)
  | inr (l, e) ↦ (lease_revoked, ground (arith, dead l))
]

-- After Revoke for a generation, and until the next IssueLease for it, no credential authenticates
-- for the generation, and CommitLease refuses every commit without running it.
pub revoked_until_reissue :
    {S E : Type 0} (lift : CoreError → E) (encode : List ℕ → String) (a b : LeaseAuthority)
    (before after : List Event) (g : ℕ) (c : String) (commit : S → S × Option E) (s : S)
    → Reach encode new before a
    → Reach encode (revoke a g) after b
    → times_issued g after ≡ 0
    → ¬ Authenticates b c g
      × ((e : CoreError) × (commit_lease lift b g (some commit) s ≡ (s, some (lift e))))
unfolding commit_lease
revoked_until_reissue lift encode a b before after g c commit s r₁ r₂ u =
    let v = Reach-Inv encode new-Inv r₁ in
    let dead =
      Reach-IsDead encode g r₂ u (Reach-Inv encode v (next here (revokes g refl)))
        (revoke-IsDead a g) in
    (
      (λ (p, h, e).
          let (l, live, q) = authenticate-IsLive b c p h in
          ground (arith, live.current, live.unrevoked, dead l)),
      (let (x, refused) = IsDead-refuses b g dead in (x, rw refused)),
    )

-- The version of the active lease counts the leases of the generation.
abbrev Counts : ℕ → ℕ → LeaseAuthority → Type 0
Counts g n a =
    (get a.active g ≡ none → n ≡ 0)
    × ((l : ℕ) → get a.active g ≡ some l → (a.cell l).version ≡ n % 2 ^ 64)

next_version-Counts :
    (a : LeaseAuthority) (g n : ℕ) → Counts g n a → next_version a (get a.active g) ≡ suc n % 2 ^ 64
unfolding next_version
next_version-Counts a g n c = elim (Option-cases (get a.active g)) [
  | inl e ↦ ground (arith, c.0 e)
  | inr (l, e) ↦ ground (arith, c.1 l e)
]

Step-Counts :
    (encode : List ℕ → String) (es : List Event) {a b : LeaseAuthority} {e : Event} (g : ℕ)
    → Step encode a b e
    → Inv a
    → Counts g (times_issued g es) a
    → Counts g (times_issued g (e ∷ es)) b
unfolding revoke
Step-Counts encode es {a} {b} g (issues reads p h lease eq) v c =
    rw (issued-grant encode reads a b p h lease eq) (
      unfold grant_lease in
      (
        (λ x. ground (arith, get-put a.active h g a.next, c.0)),
        (λ l x. ground (
          arith,
          get-put a.active h g a.next,
          c.1 l,
          v.scoped g l,
          next_version-Counts a g (times_issued g es) c,
          nat_beq_iff h g,
        )),
      ))
Step-Counts encode es {a} {b} g (fails reads p h e eq) v c =
    subst (Counts g (times_issued g es)) (sym (failed-same encode reads a b p h e eq)) c
Step-Counts encode es {a} g (revokes h eq) v c =
    subst (Counts g (times_issued g es)) eq
      ((λ x. ground (arith, c.0)), λ l x. ground (arith, c.1 l, v.scoped g l))

Reach-Counts :
    (encode : List ℕ → String) (g : ℕ) {a : LeaseAuthority} {es : List Event}
    → Reach encode new es a
    → Counts g (times_issued g es) a
unfolding new
Reach-Counts encode g here = ((λ _. refl), λ l x. ground (arith, get-empty {V = ℕ} g))
Reach-Counts encode g (next {es} {a = m} {e} r st) =
    Step-Counts encode es g st (Reach-Inv encode new-Inv r) (Reach-Counts encode g r)

-- The lease that IssueLease returns carries the number of leases issued for its generation so far,
-- itself included, as a uint64: revocations and other generations do not reset or advance it.
pub version_counts :
    (encode : List ℕ → String) (reads : List (Option (List ℕ))) (a b : LeaseAuthority)
    (es : List Event) (participant : String) (generation : ℕ) (lease : ServerLease)
    → Reach encode new es a
    → issue_lease encode reads a participant generation ≡ some (b, ok lease)
    → lease.version ≡ suc (times_issued generation es) % 2 ^ 64
unfolding grant_lease
version_counts encode reads a b es participant generation lease r h =
    let eq = (issue_lease-granted encode reads a b participant generation lease h).1 in
    sym (ap (λ (x : LeaseAuthority × ServerLease). x.1.version) eq)
    ∙ next_version-Counts a generation (times_issued generation es)
        (Reach-Counts encode generation r)
