-- ===== src/Core/Lease/Calls.antt =====
-- core/server-lease.go: one call and the credentials of a generation.
use fraglands.Prelude.{
  ℕ, String, ◌≡◌, ◌≢◌, subst, ◌⊎◌, inl, inr, ◌↔◌, true, false, Option, none, some, List, [], ◌∷◌,
  string_eq, nat_eq, arith, Option-cases, All, ◌++◌, refl, ap,
}
use fraglands.Prelude.Dict.{Dict, get}
use fraglands.Core.Errors.{CoreError, Result, ok, err, lease_random}
use fraglands.Core.Lease.{
  ServerLease, ServerParticipant, LeaseAuthority, new_credential, grant_lease, issue_lease,
  authenticate_server, check_credential, points_to, commit_credential,
}

-- The record at `l` is what the credential names, is not revoked, and is the active one of its
-- generation.
pub record IsLive (a : LeaseAuthority) (credential : String) (l : ℕ) : Type 0 where
  pub named : get a.credentials credential ≡ some l
  pub unrevoked : (a.cell l).revoked ≡ false
  pub current : get a.active (a.cell l).generation ≡ some l

points_to_iff : (o : Option ℕ) (l : ℕ) → (points_to o l ≡ true) ↔ (o ≡ some l)
unfolding points_to
points_to_iff none l = ground arith
points_to_iff (some m) l = ground arith

pub authenticate-IsLive :
    (a : LeaseAuthority) (credential : String) (p : ServerParticipant)
    → authenticate_server a credential ≡ ok p
    → (l : ℕ) × IsLive a credential l
      × (p ≡ record { id = (a.cell l).participant_id; process_generation = (a.cell l).generation })
unfolding authenticate_server
authenticate-IsLive a credential p h = elim (Option-cases (get a.credentials credential)) [
  | inl e ↦ absurd (ground arith)
  | inr (l, e) ↦ (
    l,
    ground (arith, points_to_iff (get a.active (a.cell l).generation) l),
    ground (arith, points_to_iff (get a.active (a.cell l).generation) l),
  )
]

pub IsLive-authenticate :
    (a : LeaseAuthority) (credential : String) (l : ℕ)
    → IsLive a credential l
    → authenticate_server a credential
      ≡ ok (record { id = (a.cell l).participant_id; process_generation = (a.cell l).generation })
unfolding authenticate_server
IsLive-authenticate a credential l h =
    ground (arith, points_to_iff (get a.active (a.cell l).generation) l)

pub check_credential-IsLive :
    (a : LeaseAuthority) (credential : String) (generation : ℕ)
    → check_credential a credential generation ≡ none
    → (l : ℕ) × IsLive a credential l × ((a.cell l).generation ≡ generation)
unfolding check_credential
check_credential-IsLive a credential generation h =
    elim (Option-cases (get a.credentials credential)) [
      | inl e ↦ absurd (ground arith)
      | inr (l, e) ↦ (
        l,
        ground (arith, points_to_iff (get a.active generation) l),
        ground (arith, points_to_iff (get a.active generation) l),
      )
    ]

pub IsLive-check_credential :
    (a : LeaseAuthority) (credential : String) (l : ℕ)
    → IsLive a credential l
    → check_credential a credential (a.cell l).generation ≡ none
unfolding check_credential
IsLive-check_credential a credential l h =
    ground (arith, points_to_iff (get a.active (a.cell l).generation) l)

-- The credential resolves to a participant of the generation.
abbrev pub Authenticates : LeaseAuthority → String → ℕ → Type 0
Authenticates a credential generation =
    (p : ServerParticipant) × (authenticate_server a credential ≡ ok p)
    × (p.process_generation ≡ generation)

-- CommitCredential lets a commit run exactly when AuthenticateServer resolves the credential to the
-- generation.
pub check_credential_iff :
    (a : LeaseAuthority) (credential : String) (generation : ℕ)
    → (check_credential a credential generation ≡ none) ↔ Authenticates a credential generation
check_credential_iff a credential generation = (
  λ h.
      let (l, live, here) = check_credential-IsLive a credential generation h in
      (_, IsLive-authenticate a credential l live, here),
  λ (p, h, here).
      let (l, live, e) = authenticate-IsLive a credential p h in
      subst (λ g. check_credential a credential g ≡ none) (ground arith)
        (IsLive-check_credential a credential l live),
)

module _ {S E : Type 0} (lift : CoreError → E) where
  -- CommitCredential runs the commit, and returns what it returns, exactly when the credential
  -- resolves to the generation; otherwise the commit does not run and a lease error is returned.
  pub commit_credential_exact :
      (a : LeaseAuthority) (credential : String) (generation : ℕ) (commit : S → S × Option E)
      (s : S)
      → (Authenticates a credential generation
          × (commit_credential lift a credential generation (some commit) s ≡ commit s))
        ⊎ (¬ Authenticates a credential generation
            × ((e : CoreError) × (commit_credential lift a credential generation (some commit) s
                  ≡ (s, some (lift e)))))
  unfolding commit_credential
  commit_credential_exact a credential generation commit s =
      let iff = check_credential_iff a credential generation in
      elim (Option-cases (check_credential a credential generation)) [
        | inl e ↦ inl (iff.0 e, rw e)
        | inr (x, e) ↦ inr ((λ h. ground (arith, iff.1 h)), (x, rw e))
      ]

-- A credential that newLeaseCredential returns is not in use.
pub new_credential-fresh :
    (encode : List ℕ → String) (reads : List (Option (List ℕ))) (taken : Dict String ℕ) (c : String)
    → new_credential encode reads taken ≡ some (ok c)
    → get taken c ≡ none
unfolding new_credential
new_credential-fresh encode [] taken c h = ground arith
new_credential-fresh encode (none ∷ reads) taken c h = ground arith
new_credential-fresh encode (some raw ∷ reads) taken c h =
    ground (arith, new_credential-fresh encode reads taken c)

-- The read gives a credential that is in use.
abbrev pub Taken : (List ℕ → String) → Dict String ℕ → Option (List ℕ) → Type 0
Taken encode taken r = (raw : List ℕ) × (r ≡ some raw) × (get taken (encode raw) ≢ none)

-- How the loop of newLeaseCredential comes out, by the reads.
pub data Draw (encode : List ℕ → String) (taken : Dict String ℕ) (reads : List (Option (List ℕ)))
    : Option (Result CoreError String) → Type 0 where
  -- every read gives a credential that is in use
  unended : All (Taken encode taken) reads → Draw encode taken reads none
  -- the first read that does not gives an error
  fails :
      (before after : List (Option (List ℕ)))
      → reads ≡ before ++ (none ∷ after)
      → All (Taken encode taken) before
      → Draw encode taken reads (some (err lease_random))
  -- the first read that does not gives a credential that is not in use
  draws :
      (before after : List (Option (List ℕ))) (raw : List ℕ)
      → reads ≡ before ++ (some raw ∷ after)
      → All (Taken encode taken) before
      → get taken (encode raw) ≡ none
      → Draw encode taken reads (some (ok (encode raw)))

Draw-skip :
    {encode : List ℕ → String} {taken : Dict String ℕ} {raw : List ℕ}
    {reads : List (Option (List ℕ))} {out : Option (Result CoreError String)}
    → get taken (encode raw) ≢ none
    → Draw encode taken reads out
    → Draw encode taken (some raw ∷ reads) out
Draw-skip {raw = raw} h (unended all) = unended ((raw, refl, h), all)
Draw-skip {raw = raw} h (fails before after e all) =
    fails (some raw ∷ before) after (ap (λ r. some raw ∷ r) e) ((raw, refl, h), all)
Draw-skip {raw = raw} h (draws before after next e all new) =
    draws (some raw ∷ before) after next (ap (λ r. some raw ∷ r) e) ((raw, refl, h), all) new

-- The loop of newLeaseCredential skips just the reads whose credential is in use. It ends at the
-- first other read: with the credential of that read, which is not in use, or with ErrLeaseRandom
-- where that read failed. It goes on only where every read gives a credential in use.
pub new_credential_exact :
    (encode : List ℕ → String) (reads : List (Option (List ℕ))) (taken : Dict String ℕ)
    → Draw encode taken reads (new_credential encode reads taken)
unfolding new_credential
new_credential_exact encode [] taken = unended tt
new_credential_exact encode (none ∷ reads) taken = fails [] reads refl tt
new_credential_exact encode (some raw ∷ reads) taken =
    elim (Option-cases (get taken (encode raw))) [
      | inl e ↦ rw (new_credential, e) (draws [] reads raw refl tt e)
      | inr (l, e) ↦
          rw (new_credential, e)
            (Draw-skip (λ n. ground (arith, e, n)) (new_credential_exact encode reads taken))
    ]

-- A successful IssueLease, in one equation.
pub issue_lease-granted :
    (encode : List ℕ → String) (reads : List (Option (List ℕ))) (a b : LeaseAuthority)
    (participant : String) (generation : ℕ) (lease : ServerLease)
    → issue_lease encode reads a participant generation ≡ some (b, ok lease)
    → (get a.credentials lease.credential ≡ none)
      × (grant_lease a participant generation lease.credential ≡ (b, lease))
      × (generation ≢ 0)
unfolding issue_lease grant_lease
issue_lease-granted encode reads a b participant generation lease h =
    elim (Option-cases (new_credential encode reads a.credentials)) [
      | inl e ↦ absurd (ground arith)
      | inr (err x, e) ↦ absurd (ground arith)
      | inr (ok c, e) ↦ (
        ground (arith, new_credential-fresh encode reads a.credentials c e),
        ground arith,
        ground arith,
      )
    ]
