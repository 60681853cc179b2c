-- ===== src/Core/Lease/Invariant.antt =====
-- core/server-lease.go: the histories of a lease authority, and their invariant.
use fraglands.Prelude.{
  ℕ, ◌<◌, String, ◌≡◌, sym, subst, ap, Option, none, some, List, [], ◌∷◌, string_eq, nat_eq, arith,
  eq_iff,
}
use fraglands.Prelude.Dict.{get, get-put, get-empty}
use fraglands.Core.Errors.{CoreError, ok, err}
use fraglands.Core.Lease.{ServerLease, LeaseAuthority, new, grant_lease, issue_lease, revoke}
use fraglands.Core.Lease.Calls.{Authenticates, issue_lease-granted, authenticate-IsLive}

pub data Event : Type 0 where
  issued revoked : ℕ → Event
  failed : CoreError → Event

pub data Step (encode : List ℕ → String) (a b : LeaseAuthority) : Event → Type 0 where
  issues :
      (reads : List (Option (List ℕ))) (participant : String) (generation : ℕ) (lease : ServerLease)
      → issue_lease encode reads a participant generation ≡ some (b, ok lease)
      → Step encode a b (issued generation)
  fails :
      (reads : List (Option (List ℕ))) (participant : String) (generation : ℕ) (e : CoreError)
      → issue_lease encode reads a participant generation ≡ some (b, err e)
      → Step encode a b (failed e)
  revokes : (generation : ℕ) → revoke a generation ≡ b → Step encode a b (revoked generation)

-- The newest event stands first.
pub data Reach (encode : List ℕ → String) (start : LeaseAuthority)
    : List Event → LeaseAuthority → Type 0 where
  here : Reach encode start [] start
  next :
      {es : List Event} {a b : LeaseAuthority} {e : Event}
      → Reach encode start es a
      → Step encode a b e
      → Reach encode start (e ∷ es) b

pub record Inv (a : LeaseAuthority) : Type 0 where
  pub allocated : (c : String) (l : ℕ) → get a.credentials c ≡ some l → l < a.next
  pub distinct :
      (c d : String) (l : ℕ) → get a.credentials c ≡ some l → get a.credentials d ≡ some l → c ≡ d
  pub scoped : (g l : ℕ) → get a.active g ≡ some l → (l < a.next) × ((a.cell l).generation ≡ g)

pub new-Inv : Inv new
unfolding new
new-Inv = record {
  allocated = λ c l h. ground (arith, get-empty {V = ℕ} c);
  distinct = λ c d l h. ground (arith, get-empty {V = ℕ} c);
  scoped = λ g l h. ground (arith, get-empty {V = ℕ} g);
}

grant_lease-Inv :
    (a : LeaseAuthority) (participant : String) (generation : ℕ) (c : String)
    → Inv a
    → get a.credentials c ≡ none
    → Inv (grant_lease a participant generation c).0
unfolding grant_lease
grant_lease-Inv a participant generation c v fresh = record {
  allocated = λ d l h. ground (arith, get-put a.credentials c d a.next, v.allocated d l);
  distinct = λ d d' l h h'. ground (
    arith,
    get-put a.credentials c d a.next,
    get-put a.credentials c d' a.next,
    eq_iff c d,
    eq_iff c d',
    v.allocated d l,
    v.allocated d' l,
    v.distinct d d' l,
  );
  scoped = λ g l h. ground (arith, get-put a.active generation g a.next, v.scoped g l);
}

revoke-Inv : (a : LeaseAuthority) (generation : ℕ) → Inv a → Inv (revoke a generation)
unfolding revoke
revoke-Inv a generation v = record {
  allocated = λ d l h. ground (arith, v.allocated d l);
  distinct = λ d d' l h h'. ground (arith, v.distinct d d' l);
  scoped = λ g l h. ground (arith, v.scoped g l);
}

-- A successful IssueLease leaves the authority of `grant_lease`.
pub issued-grant :
    (encode : List ℕ → String) (reads : List (Option (List ℕ))) (a b : LeaseAuthority)
    (participant : String) (generation : ℕ) (lease : ServerLease)
    → issue_lease encode reads a participant generation ≡ some (b, ok lease)
    → b ≡ (grant_lease a participant generation lease.credential).0
issued-grant encode reads a b participant generation lease h =
    sym (ap (λ r. r.0) (issue_lease-granted encode reads a b participant generation lease h).1)

pub failed-same :
    (encode : List ℕ → String) (reads : List (Option (List ℕ))) (a b : LeaseAuthority)
    (participant : String) (generation : ℕ) (e : CoreError)
    → issue_lease encode reads a participant generation ≡ some (b, err e)
    → b ≡ a
unfolding issue_lease
failed-same encode reads a b participant generation e h = ground arith

Step-Inv :
    (encode : List ℕ → String) {a b : LeaseAuthority} {e : Event}
    → Step encode a b e
    → Inv a
    → Inv b
Step-Inv encode {a} {b} (issues reads p g lease h) v =
    rw (issued-grant encode reads a b p g lease h) (
      grant_lease-Inv a p g lease.credential v (issue_lease-granted encode reads a b p g lease h).0)
Step-Inv encode {a} {b} (fails reads p g e h) v =
    subst Inv (sym (failed-same encode reads a b p g e h)) v
Step-Inv encode {a} {b} (revokes g h) v = subst Inv h (revoke-Inv a g v)

pub Reach-Inv :
    (encode : List ℕ → String) {a b : LeaseAuthority} {es : List Event}
    → Inv a
    → Reach encode a es b
    → Inv b
Reach-Inv encode v here = v
Reach-Inv encode v (next r st) = Step-Inv encode st (Reach-Inv encode v r)

-- At any time at most one credential authenticates for a process generation.
pub exclusive :
    (encode : List ℕ → String) (a : LeaseAuthority) (es : List Event) (c d : String)
    (generation : ℕ)
    → Reach encode new es a
    → Authenticates a c generation
    → Authenticates a d generation
    → c ≡ d
exclusive encode a es c d generation r (p, hp, gp) (q, hq, gq) =
    let (l, live, ep) = authenticate-IsLive a c p hp in
    let (m, live', eq) = authenticate-IsLive a d q hq in
    let same : l ≡ m = ground (arith, live.current, live'.current) in
    (Reach-Inv encode new-Inv r).distinct c d l live.named (rw same live'.named)
