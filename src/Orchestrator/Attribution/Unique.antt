-- ===== src/Orchestrator/Attribution/Unique.antt =====
-- orchestrator/admission.go: the answer of AdmittedAccountFor against the list of the admitted accounts.
use fraglands.Prelude.{
  ℕ, suc, ◌+◌, ◌<◌, String, ◌≡◌, ◌↔◌, refl, sym, subst, ◌∙◌, Bool, true, false, List, [], ◌∷◌, ◌==◌,
  string_eq, nat_eq, if◌then◌else◌, arith, length,
}
use fraglands.Core.Errors.{Result, ok, err, revision_mismatch}
use fraglands.Orchestrator.{
  OrchestratorError, unadmitted_account, ambiguous_admission, core_error, Admission, AdmissionKey,
  Orchestrator,
}
use fraglands.Orchestrator.Attribution.{Found, scan, verdict, admitted_account_for}

-- The accounts admitted on the generation against the revision, in the order of the entries.
abbrev pub accounts : ℕ → String → List (AdmissionKey × Admission) → List String
accounts generation revision [] = []
accounts generation revision ((k, a) ∷ rest) =
    if k.process_generation == generation
    then (if a.revision_id == revision
        then k.account_id ∷ accounts generation revision rest
        else accounts generation revision rest)
    else accounts generation revision rest

-- Whether any account is admitted on the generation.
abbrev pub any_on : ℕ → List (AdmissionKey × Admission) → Bool
any_on generation [] = false
any_on generation ((k, a) ∷ rest) =
    if k.process_generation == generation then true else any_on generation rest

abbrev last_of : String → List String → String
last_of d [] = d
last_of d (a ∷ rest) = last_of a rest

scan-Found :
    (generation : ℕ) (revision : String) (es : List (AdmissionKey × Admission)) (f : Found)
    → let g = scan generation revision es f in
      let accs = accounts generation revision es in
      (g.matches ≡ f.matches + length accs)
      × (g.account_id ≡ last_of f.account_id accs)
      × (g.admitted_any ≡ (if f.admitted_any then true else any_on generation es))
unfolding scan
scan-Found generation revision [] f = ground arith
scan-Found generation revision ((k, a) ∷ rest) f = ground (
  arith,
  scan-Found generation revision rest f,
  scan-Found generation revision rest (record f { admitted_any = true }),
  scan-Found generation revision rest
      (record { account_id = k.account_id; matches = suc f.matches; admitted_any = true }),
)

any_on-accounts :
    (generation : ℕ) (revision : String) (es : List (AdmissionKey × Admission))
    → any_on generation es ≡ false
    → accounts generation revision es ≡ []
any_on-accounts generation revision [] h = refl
any_on-accounts generation revision ((k, a) ∷ rest) h =
    ground (arith, any_on-accounts generation revision rest)

-- What the switch says of the accounts found, and of whether there is any on the generation.
abbrev Says : Result OrchestratorError String → List String → Bool → Type 0
Says r accs any =
    ((account : String) → (r ≡ ok account) ↔ (accs ≡ account ∷ []))
    × ((r ≡ err unadmitted_account) ↔ (any ≡ false))
    × ((r ≡ err (core_error revision_mismatch)) ↔ ((accs ≡ []) × (any ≡ true)))
    × ((r ≡ err ambiguous_admission) ↔ (1 < length accs))

verdict-Says :
    (g : Found) (accs : List String)
    → g.matches ≡ length accs
    → g.account_id ≡ last_of "" accs
    → (g.admitted_any ≡ false → accs ≡ [])
    → Says (verdict g) accs g.admitted_any
unfolding verdict
verdict-Says g [] m a n = (
  (λ account. ((λ h. absurd (ground arith)), λ h. absurd (ground arith))),
  ((λ h. ground arith), λ h. ground arith),
  ((λ h. ground arith), λ h. ground arith),
  ((λ h. absurd (ground arith)), λ h. absurd (omega arith)),
)
verdict-Says g (x ∷ []) m a n = (
  (λ account. ((λ h. ground arith), λ h. ground arith)),
  ((λ h. absurd (ground arith)), λ h. absurd (ground (arith, n h))),
  ((λ h. absurd (ground arith)), λ h. absurd (ground arith)),
  ((λ h. absurd (ground arith)), λ h. absurd (omega arith)),
)
verdict-Says g (x ∷ (y ∷ rest)) m a n = (
  (λ account. ((λ h. absurd (ground arith)), λ h. absurd (ground arith))),
  ((λ h. absurd (ground arith)), λ h. absurd (ground (arith, n h))),
  ((λ h. absurd (ground arith)), λ h. absurd (ground arith)),
  ((λ h. omega arith), λ h. ground arith),
)

-- AdmittedAccountFor returns an account exactly when it is the only one admitted on the generation
-- against the revision. Otherwise it says why: no account on the generation, none against the
-- revision, or several.
pub attributes_exactly :
    (o : Orchestrator) (generation : ℕ) (revision : String)
    → let r = admitted_account_for o generation revision in
      let accs = accounts generation revision o.admissions.entries in
      ((account : String) → (r ≡ ok account) ↔ (accs ≡ account ∷ []))
      × ((r ≡ err unadmitted_account) ↔ (any_on generation o.admissions.entries ≡ false))
      × ((r ≡ err (core_error revision_mismatch))
          ↔ ((accs ≡ []) × (any_on generation o.admissions.entries ≡ true)))
      × ((r ≡ err ambiguous_admission) ↔ (1 < length accs))
unfolding admitted_account_for
attributes_exactly o generation revision =
    let (m, a, any) = scan-Found generation revision o.admissions.entries start in
    subst (Says (verdict found) (accounts generation revision o.admissions.entries)) any (
      verdict-Says found (accounts generation revision o.admissions.entries) (omega (arith, m)) a
        (λ h. any_on-accounts generation revision o.admissions.entries (sym any ∙ h)))
  where
    start : Found
    start = record { account_id = ""; matches = 0; admitted_any = false }

    found : Found
    found = scan generation revision o.admissions.entries start
