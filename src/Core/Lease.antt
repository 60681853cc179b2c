-- ===== src/Core/Lease.antt =====
-- core/server-lease.go: the generation-scoped server credential authority. Both of its maps hold
-- pointers to the same records, and the code compares pointers, so the records live in a heap:
-- `cell` reads an address, and the addresses below `next` are allocated. A method runs under the
-- authority's lock, so it is one step.
pub mod Calls
pub mod Invariant
pub mod Supersede
pub mod Revoked
mod Tests
use fraglands.Prelude.{
  ℕ, zero, suc, ◌+◌, ◌%◌, ◌^◌, String, Bool, true, false, not, ◌||◌, Option, none, some, List, [],
  ◌∷◌, ◌==◌, string_eq, nat_eq, if◌then◌else◌,
}
use fraglands.Prelude.Dict.{Dict, empty, get, put}
use fraglands.Core.Errors.{
  CoreError, Result, ok, err, lease_unknown, lease_revoked, lease_invalid_binding,
  lease_commit_required, lease_random,
}

-- serverLeaseRecord
pub record LeaseRecord : Type 0 where
  pub participant_id : String
  pub generation : ℕ
  pub version : ℕ
  pub revoked : Bool

pub record ServerLease : Type 0 where
  pub participant_id : String
  pub generation : ℕ
  pub version : ℕ
  pub credential : String

-- core/server-participant.go
pub record ServerParticipant : Type 0 where
  pub id : String
  pub process_generation : ℕ

-- ServerLeaseAuthority
pub record LeaseAuthority : Type 0 where
  pub active : Dict ℕ ℕ
  pub credentials : Dict String ℕ
  pub cell : ℕ → LeaseRecord
  pub next : ℕ

-- What an address that was never allocated holds: the zero value.
abbrev zero_record : LeaseRecord
zero_record = record { participant_id = ""; generation = 0; version = 0; revoked = false }

-- NewServerLeaseAuthority
unfoldable pub new : LeaseAuthority
new = record { active = empty; credentials = empty; cell = λ _. zero_record; next = 0 }

abbrev pub write : (ℕ → LeaseRecord) → ℕ → LeaseRecord → ℕ → LeaseRecord
write cell l r j = if l == j then r else cell j

module _ (encode : List ℕ → String) where
  -- newLeaseCredential, over the random reads to come (`none` where `rand.Read` fails). The loop
  -- goes on while the credential is taken; `none` as the result: the reads given do not end it.
  unfoldable pub new_credential :
      List (Option (List ℕ)) → Dict String ℕ → Option (Result CoreError String)
  new_credential [] taken = none
  new_credential (none ∷ reads) taken = some (err lease_random)
  new_credential (some raw ∷ reads) taken = elim (get taken (encode raw)) [
    | none ↦ some (ok (encode raw))
    | some _ ↦ new_credential reads taken
  ]

-- One more than the version of the previous lease, as a uint64; 1 with no previous lease.
next_version : LeaseAuthority → Option ℕ → ℕ
next_version a none = 1
next_version a (some prev) = ((a.cell prev).version + 1) % 2 ^ 64

-- The part of IssueLease behind the generation of the credential.
unfoldable pub grant_lease : LeaseAuthority → String → ℕ → String → LeaseAuthority × ServerLease
unfolding next_version
grant_lease a participant generation credential = (
  record {
    active = put a.active generation a.next;
    credentials = put a.credentials credential a.next;
    cell = write a.cell a.next (record {
      participant_id = participant;
      generation = generation;
      version = next_version a (get a.active generation);
      revoked = false;
    });
    next = suc a.next;
  },
  record {
    participant_id = participant;
    generation = generation;
    version = next_version a (get a.active generation);
    credential = credential;
  },
)

module _ (encode : List ℕ → String) where
  -- IssueLease
  unfoldable pub issue_lease :
      List (Option (List ℕ))
      → LeaseAuthority
      → String
      → ℕ
      → Option (LeaseAuthority × Result CoreError ServerLease)
  issue_lease reads a participant generation =
      if participant == "" || generation == 0
      then some (a, err lease_invalid_binding)
      else elim (new_credential encode reads a.credentials) [
        | none ↦ none
        | some (err e) ↦ some (a, err e)
        | some (ok credential) ↦
            let (b, lease) = grant_lease a participant generation credential in some (b, ok lease)
      ]

-- `a.active[generation] == record`, a comparison of pointers; `none` is nil.
points_to : Option ℕ → ℕ → Bool
points_to none l = false
points_to (some m) l = m == l

-- The checks of AuthenticateServer on the record at an address.
authenticate_record : LeaseAuthority → ℕ → Result CoreError ServerParticipant
unfolding points_to
authenticate_record a l =
    if (a.cell l).revoked
    then err lease_revoked
    else if not (points_to (get a.active (a.cell l).generation) l)
    then err lease_unknown
    else ok (record { id = (a.cell l).participant_id; process_generation = (a.cell l).generation })

-- AuthenticateServer
unfoldable pub authenticate_server : LeaseAuthority → String → Result CoreError ServerParticipant
unfolding authenticate_record
authenticate_server a credential = elim (get a.credentials credential) [
  | none ↦ err lease_unknown
  | some l ↦ authenticate_record a l
]

-- Revoke, which returns no error.
unfoldable pub revoke : LeaseAuthority → ℕ → LeaseAuthority
revoke a generation = elim (get a.active generation) [
  | none ↦ a
  | some l ↦ record a { cell = write a.cell l (record (a.cell l) { revoked = true }) }
]

-- The check of CommitLease; `none` where the commit may run.
unfoldable pub check_generation : LeaseAuthority → ℕ → Option CoreError
check_generation a generation = elim (get a.active generation) [
  | none ↦ some lease_unknown
  | some l ↦ if (a.cell l).revoked then some lease_revoked else none
]

-- The check of CommitCredential.
unfoldable pub check_credential : LeaseAuthority → String → ℕ → Option CoreError
unfolding points_to
check_credential a credential generation = elim (get a.credentials credential) [
  | none ↦ some lease_unknown
  | some l ↦
      if not ((a.cell l).generation == generation)
      then some lease_unknown
      else if (a.cell l).revoked
      then some lease_revoked
      else if not (points_to (get a.active generation) l)
      then some lease_unknown
      else none
]

-- A commit closure acts on the state of its owner, and may fail with an error of its own; `lift`
-- is how the owner sees a lease error. The lease authority is not changed.
module _ {S E : Type 0} (lift : CoreError → E) where
  -- The closure runs where the check has no objection.
  unfoldable pub commit_if : Option CoreError → (S → S × Option E) → S → S × Option E
  commit_if none commit s = commit s
  commit_if (some e) commit s = (s, some (lift e))

  -- CommitLease
  unfoldable pub commit_lease : LeaseAuthority → ℕ → Option (S → S × Option E) → S → S × Option E
  unfolding commit_if
  commit_lease a generation none s = (s, some (lift lease_commit_required))
  commit_lease a generation (some commit) s = commit_if (check_generation a generation) commit s

  -- CommitCredential
  unfoldable pub commit_credential :
      LeaseAuthority → String → ℕ → Option (S → S × Option E) → S → S × Option E
  unfolding commit_if
  commit_credential a credential generation none s = (s, some (lift lease_commit_required))
  commit_credential a credential generation (some commit) s =
      commit_if (check_credential a credential generation) commit s
