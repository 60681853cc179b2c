-- ===== src/Core/Lobby/Tests.antt =====
-- A lobby on concrete calls.
use fraglands.Prelude.{
  ◌≤◌, ◌<◌, String, ◌≡◌, ◌≢◌, ◌↔◌, refl, true, false, none, some, List, [], ◌∷◌, arith, string_eq,
  nat_eq, eq_iff,
}
use fraglands.Prelude.Int.{pos}
use fraglands.Prelude.Dict.{empty, get, put}
use fraglands.Core.Errors.{err, lobby_full}
use fraglands.Core.Lobby.{Lobby, new, find_free, claim, release, slot, occupied}
use fraglands.Core.Lobby.Claims.{Inv, new-Inv, claim-Inv}
use fraglands.Core.Lobby.Slots.{claim_full_iff, Call, claims, releases, run, run_exclusive}

abbrev bare : Lobby
bare = record { id = "l"; capacity = 1; slots = empty; by_account = empty }

bare-Inv : Inv bare
unfolding new
bare-Inv = new-Inv "l" (pos 1) bare refl

abbrev taken : Lobby
taken = (claim bare "a").0

taken-Inv : Inv taken
taken-Inv = claim-Inv bare "a" bare-Inv

named : ◌≢◌ {A = String} "b" ""
named e = let x : false ≡ true = (eq_iff "b" "").1 e in ground (arith, x)

holder_named : ◌≢◌ {A = String} "a" ""
holder_named e = let x : false ≡ true = (eq_iff "a" "").1 e in ground (arith, x)

claim_full_iff_example :
    ((claim taken "b").1 ≡ err lobby_full)
    ↔ ((slot taken "b" ≡ none) × (occupied taken ≡ taken.capacity))
claim_full_iff_example = claim_full_iff taken "b" taken-Inv named

abbrev calls : List Call
calls = claims "a" ∷ claims "b" ∷ releases "b" ∷ []

run_exclusive_example :
    (slot (run bare calls) "a" ≡ some 0 → ◌≡◌ {A = String} "a" "a")
    × (0 < (run bare calls).capacity)
    × (occupied (run bare calls) ≤ (run bare calls).capacity)
unfolding new run claim release find_free get put
run_exclusive_example = run_exclusive "l" (pos 1) bare calls "a" "a" 0 refl refl
