-- ===== src/Core/Account.antt =====
-- core/account.go: an account and its Steam identity, where 0 is no identity.
use fraglands.Prelude.{
  ℕ, String, ◌≡◌, ◌≢◌, refl, Option, none, some, List, [], ◌∷◌, ◌==◌, nat_eq, not, if◌then◌else◌,
  arith,
}
use fraglands.Core.Errors.{CoreError, steam_id_already_bound, invalid_steam_id}

pub record Account : Type 0 where
  pub id : String
  pub steam_id : ℕ
  pub display_name : String

-- BindSteamID
unfoldable pub bind_steam_id : Account → ℕ → Account × Option CoreError
bind_steam_id a id =
    if not (a.steam_id == 0)
    then (if a.steam_id == id then (a, none) else (a, some steam_id_already_bound))
    else if id == 0
    then (a, some invalid_steam_id)
    else (record a { steam_id = id }, none)

pub bind_all : Account → List ℕ → Account
bind_all a [] = a
bind_all a (id ∷ ids) = bind_all (bind_steam_id a id).0 ids

bound_stays : (a : Account) (ids : List ℕ) → a.steam_id ≢ 0 → (bind_all a ids).steam_id ≡ a.steam_id
unfolding bind_all bind_steam_id
bound_stays a [] h = refl
bound_stays a (id ∷ ids) h = ground (arith, bound_stays (bind_steam_id a id).0 ids)

-- The first binding that is accepted decides the Steam identity: after any later calls, accepted or
-- refused, the account has that identity, which is not 0.
pub first_binding_stays :
    (a : Account) (id : ℕ) (later : List ℕ)
    → (bind_steam_id a id).1 ≡ none
    → ((bind_all (bind_steam_id a id).0 later).steam_id ≡ id) × (id ≢ 0)
unfolding bind_steam_id
first_binding_stays a id later h = ground (arith, bound_stays (bind_steam_id a id).0 later)
