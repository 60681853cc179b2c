-- ===== src/Orchestrator/Attribution.antt =====
-- orchestrator/admission.go: the one account of a process generation and a revision.
pub mod Unique
use fraglands.Prelude.{
  ℕ, suc, String, Bool, true, false, not, ◌||◌, Option, none, some, List, [], ◌∷◌, ◌==◌, string_eq,
  nat_eq, if◌then◌else◌,
}
use fraglands.Prelude.Dict.{Dict}
use fraglands.Core.Errors.{revision_mismatch, Result, ok, err}
use fraglands.Orchestrator.{
  OrchestratorError, unadmitted_account, ambiguous_admission, core_error, Admission, AdmissionKey,
  Orchestrator,
}

-- What the loop of AdmittedAccountFor has found.
pub record Found : Type 0 where
  pub account_id : String
  pub matches : ℕ
  pub admitted_any : Bool

-- The loop over the map; Go visits the entries in any order.
unfoldable pub scan : ℕ → String → List (AdmissionKey × Admission) → Found → Found
scan generation revision [] f = f
scan generation revision ((key, adm) ∷ rest) f = scan generation revision rest (
    if not (key.process_generation == generation)
    then f
    else if not (adm.revision_id == revision)
    then record f { admitted_any = true }
    else record { account_id = key.account_id; matches = suc f.matches; admitted_any = true })

-- The switch of AdmittedAccountFor.
unfoldable pub verdict : Found → Result OrchestratorError String
verdict f =
    if f.matches == 1
    then ok f.account_id
    else if f.matches == 0
    then (if f.admitted_any then err (core_error revision_mismatch) else err unadmitted_account)
    else err ambiguous_admission

-- AdmittedAccountFor
unfoldable pub admitted_account_for : Orchestrator → ℕ → String → Result OrchestratorError String
unfolding scan verdict
admitted_account_for o generation revision = verdict (
    scan generation revision o.admissions.entries
      (record { account_id = ""; matches = 0; admitted_any = false }))
