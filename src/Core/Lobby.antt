-- ===== src/Core/Lobby.antt =====
-- core/lobby.go: a lobby of numbered slots. Claim and Release run under the lobby's mutex; each
-- takes the lobby and returns it. The slot -1 of a failed Claim is left out of its error result.
pub mod Occupancy
pub mod Claims
pub mod Slots
mod Tests
use fraglands.Prelude.{
  ℕ, zero, suc, String, Bool, Option, none, some, List, [], ◌∷◌, ◌==◌, leb, string_eq, nat_eq,
  if◌then◌else◌,
}
use fraglands.Prelude.Int.{ℤ, is_nonpos, to_ℕ}
use fraglands.Prelude.Dict.{Dict, empty, get, put, delete, size}
use fraglands.Core.Errors.{
  CoreError, Result, ok, err, invalid_lobby_capacity, invalid_account, lobby_full, no_slot_claimed,
}

pub record Lobby : Type 0 where
  pub id : String
  pub capacity : ℕ
  pub slots : Dict ℕ String
  pub by_account : Dict String ℕ

-- NewLobby
unfoldable pub new : String → ℤ → Result CoreError Lobby
new id capacity =
    if is_nonpos capacity
    then err invalid_lobby_capacity
    else ok (record { id = id; capacity = to_ℕ capacity; slots = empty; by_account = empty })

-- The loop of Claim, with the rounds left: the first slot from `slot` on that is not taken.
unfoldable pub find_free : ℕ → ℕ → Dict ℕ String → Option ℕ
find_free zero slot slots = none
find_free (suc rounds) slot slots =
    let rest = find_free rounds (suc slot) slots in
    elim (get slots slot) [ none ↦ some slot | some _ ↦ rest ]

-- The part of Claim for an account that holds no slot.
claim_new : Lobby → String → Lobby × Result CoreError ℕ
claim_new l account =
    if leb l.capacity (size l.slots)
    then (l, err lobby_full)
    else elim (find_free l.capacity 0 l.slots) [
      | none ↦ (l, err lobby_full)
      | some slot ↦ (
        record l { slots = put l.slots slot account; by_account = put l.by_account account slot },
        ok slot,
      )
    ]

-- Claim
unfoldable pub claim : Lobby → String → Lobby × Result CoreError ℕ
unfolding claim_new
claim l account =
    if account == ""
    then (l, err invalid_account)
    else elim (get l.by_account account) [ some slot ↦ (l, ok slot) | none ↦ claim_new l account ]

-- Release
unfoldable pub release : Lobby → String → Lobby × Option CoreError
release l account =
    if account == "" then (l, some invalid_account) else elim (get l.by_account account) [
      | none ↦ (l, some no_slot_claimed)
      | some slot ↦
          (record l { by_account = delete l.by_account account; slots = delete l.slots slot }, none)
    ]

-- Slot
abbrev pub slot : Lobby → String → Option ℕ
slot l account = get l.by_account account

-- Occupied
abbrev pub occupied : Lobby → ℕ
occupied l = size l.slots
