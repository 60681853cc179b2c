-- ===== src/Core/Lease/Supersede.antt =====
-- core/server-lease.go: IssueLease and the other credentials.
use fraglands.Prelude.{
  ℕ, String, ◌≡◌, ◌≢◌, ◌↔◌, Option, none, some, List, string_eq, nat_eq, arith, eq_iff,
}
use fraglands.Prelude.Dict.{get, get-put}
use fraglands.Core.Errors.{ok}
use fraglands.Core.Lease.{ServerLease, LeaseAuthority, new, grant_lease, issue_lease}
use fraglands.Core.Lease.Calls.{
  IsLive, Authenticates, issue_lease-granted, authenticate-IsLive, IsLive-authenticate,
}
use fraglands.Core.Lease.Invariant.{Event, Reach, Inv, new-Inv, Reach-Inv, issued-grant}

-- A credential is live for a generation.
abbrev LiveFor : LeaseAuthority → String → ℕ → Type 0
LiveFor a c g = (l : ℕ) × IsLive a c l × ((a.cell l).generation ≡ g)

Authenticates-LiveFor :
    (a : LeaseAuthority) (c : String) (g : ℕ) → Authenticates a c g → LiveFor a c g
Authenticates-LiveFor a c g (p, h, e) =
    let (l, live, q) = authenticate-IsLive a c p h in (l, live, ground arith)

LiveFor-Authenticates :
    (a : LeaseAuthority) (c : String) (g : ℕ) → LiveFor a c g → Authenticates a c g
LiveFor-Authenticates a c g (l, live, e) = (_, IsLive-authenticate a c l live, e)

module _ (a : LeaseAuthority) (participant : String) (g : ℕ) (c : String) (v : Inv a)
    (fresh : get a.credentials c ≡ none) where
  granted-LiveFor : LiveFor (grant_lease a participant g c).0 c g
  unfolding grant_lease
  granted-LiveFor = (
    a.next,
    ground (arith, get-put a.credentials c c a.next, eq_iff c c, get-put a.active g g a.next),
    ground arith,
  )

  granted-other : (d : String) → d ≢ c → ¬ LiveFor (grant_lease a participant g c).0 d g
  unfolding grant_lease
  granted-other d ne (l, live, e) = ground (
    arith,
    live.named,
    live.current,
    get-put a.credentials c d a.next,
    eq_iff c d,
    get-put a.active g g a.next,
    v.allocated d l,
  )

  granted-elsewhere :
      (d : String) (h : ℕ) → h ≢ g → LiveFor (grant_lease a participant g c).0 d h ↔ LiveFor a d h
  unfolding grant_lease
  granted-elsewhere d h ne = (
    λ (l, live, e). (
      l,
      ground (
        arith,
        get-put a.credentials c d a.next,
        eq_iff c d,
        get-put a.active g (a.cell l).generation a.next,
        live.named,
        live.current,
        live.unrevoked,
      ),
      ground arith,
    ),
    λ (l, live, e). (
      l,
      ground (
        arith,
        get-put a.credentials c d a.next,
        eq_iff c d,
        get-put a.active g (a.cell l).generation a.next,
        v.allocated d l,
        live.named,
        live.current,
        live.unrevoked,
        fresh,
      ),
      ground (arith, v.allocated d l, live.named),
    ),
  )

-- After a successful IssueLease the new credential authenticates for its generation, no other
-- credential does, and the credentials of every other generation authenticate as before.
pub issue_supersedes :
    (encode : List ℕ → String) (reads : List (Option (List ℕ))) (a b : LeaseAuthority)
    (es : List Event) (participant : String) (generation : ℕ) (lease : ServerLease)
    → Reach encode new es a
    → issue_lease encode reads a participant generation ≡ some (b, ok lease)
    → Authenticates b lease.credential generation
      × ((d : String) → d ≢ lease.credential → ¬ Authenticates b d generation)
      × ((d : String) (other : ℕ)
          → other ≢ generation
          → Authenticates b d other ↔ Authenticates a d other)
issue_supersedes encode reads a b es participant generation lease r h =
    let v = Reach-Inv encode new-Inv r in
    let fresh = (issue_lease-granted encode reads a b participant generation lease h).0 in
    rw (issued-grant encode reads a b participant generation lease h) (
      LiveFor-Authenticates _ _ _
          (granted-LiveFor a participant generation lease.credential v fresh),
      (λ d ne p.
          granted-other a participant generation lease.credential v fresh d ne
            (Authenticates-LiveFor _ d generation p)),
      (λ d other ne.
          let iff =
            granted-elsewhere a participant generation lease.credential v fresh d other ne in
          (
            λ p. LiveFor-Authenticates a d other (iff.0 (Authenticates-LiveFor _ d other p)),
            λ p. LiveFor-Authenticates _ d other (iff.1 (Authenticates-LiveFor a d other p)),
          )),
    )
