-- ===== src/Core/Errors.antt =====
-- The sentinel errors of the packages `core`, `orchestrator` and `server`, and the result of a
-- fallible operation. `errors.Is` on a wrapped sentinel is equality with the sentinel, so a wrap
-- (`fmt.Errorf("%w: …")`) is the sentinel that it wraps.
use fraglands.Prelude.{◌≡◌, refl, ◌⊎◌, inl, inr, Bool, true, false}

-- core/errors.go, core/grant.go, core/server-lease.go, and the other errors of `core`
pub data CoreError : Type 0 where
  steam_id_already_bound invalid_steam_id revision_mismatch generation_mismatch : CoreError
  intent_already_used preparation_not_ready no_result result_already_accepted : CoreError
  invalid_lobby_capacity invalid_account lobby_full no_slot_claimed : CoreError
  grant_unknown grant_mismatch grant_revoked grant_already_used grant_expired : CoreError
  grant_invalid_binding grant_already_minted grant_clock_required grant_ttl_required : CoreError
  grant_random : CoreError
  lease_unknown lease_revoked lease_invalid_binding lease_commit_required lease_random : CoreError
  -- errors.New("core: nil result"), "ready requires a revision", "failed requires a typed reason"
  nil_result nil_revision nil_reason : CoreError
  -- the errors of ScenarioPreparation.transition
  already_terminal cannot_transition : CoreError

pub data Result {ℓ κ} (E : Type ℓ) (A : Type κ) : Type (ℓ ⊔ κ) where
  ok : A → Result E A
  err : E → Result E A

pub Result-cases {ℓ κ} :
    {B : Type ℓ} {A : Type κ} (r : Result B A) → ((a : A) × (r ≡ ok a)) ⊎ ((b : B) × (r ≡ err b))
Result-cases (ok a) = inl (a, refl)
Result-cases (err b) = inr (b, refl)

-- core/grant.go: IsGrantRefusal
unfoldable pub is_grant_refusal : CoreError → Bool
is_grant_refusal grant_unknown = true
is_grant_refusal grant_mismatch = true
is_grant_refusal grant_revoked = true
is_grant_refusal grant_already_used = true
is_grant_refusal grant_expired = true
is_grant_refusal _ = false
