-- ===== src/Core/Lease/Tests.antt =====
-- The lease authority on concrete calls.
use fraglands.Prelude.{
  ℕ, suc, String, ◌≡◌, refl, Option, none, some, List, [], ◌∷◌, string_eq, nat_eq,
}
use fraglands.Prelude.Decimal.{decimal}
use fraglands.Prelude.Dict.{get, put}
use fraglands.Core.Errors.{CoreError, ok}
use fraglands.Core.Lease.{
  LeaseAuthority, ServerLease, new, new_credential, issue_lease, grant_lease, authenticate_server,
}
use fraglands.Core.Lease.Calls.{Authenticates, Draw, new_credential_exact}
use fraglands.Core.Lease.Invariant.{issued, Reach, here, next, issues, exclusive}

abbrev encode_first : List ℕ → String
encode_first [] = ""
encode_first (n ∷ _) = decimal n

abbrev lease : ServerLease
lease = record { participant_id = "server"; generation = 3; version = 1; credential = "7" }

abbrev one_lease : LeaseAuthority
one_lease = (grant_lease new "server" 3 "7").0

issue : issue_lease encode_first (some (7 ∷ []) ∷ []) new "server" 3 ≡ some (one_lease, ok lease)
unfolding issue_lease new_credential get new decimal grant_lease
issue = refl

history : Reach encode_first new (issued 3 ∷ []) one_lease
history = next here (issues (some (7 ∷ []) ∷ []) "server" 3 lease issue)

authenticates : Authenticates one_lease "7" 3
unfolding authenticate_server get grant_lease put new
authenticates = (record { id = "server"; process_generation = 3 }, refl, refl)

exclusive_example : ◌≡◌ {A = String} "7" "7"
exclusive_example =
    exclusive encode_first one_lease (issued 3 ∷ []) "7" "7" 3 history authenticates authenticates

abbrev count_up : ℕ → ℕ × Option CoreError
count_up n = (suc n, none)

-- The first read is in use, the second is not.
new_credential_exact_example :
    Draw encode_first one_lease.credentials
      (some (7 ∷ []) ∷ some (8 ∷ []) ∷ [])
      (new_credential encode_first (some (7 ∷ []) ∷ some (8 ∷ []) ∷ []) one_lease.credentials)
new_credential_exact_example =
    new_credential_exact encode_first (some (7 ∷ []) ∷ some (8 ∷ []) ∷ []) one_lease.credentials
