-- ===== src/Core/Grant/Tests.antt =====
-- The grant authority on concrete calls.
use fraglands.Prelude.{
  ℕ, ◌≤◌, ◌<◌, String, ◌≡◌, ◌≢◌, refl, true, false, none, some, List, [], ◌∷◌, arith, string_eq,
}
use mathlib.Core.List.{Memᴰ}
use fraglands.Prelude.Decimal.{decimal}
use fraglands.Prelude.Dict.{empty, get, put}
use fraglands.Core.Grant.{
  Crypto, Authority, ReplayGrant, ReplayRequest, mint, verify, revoke, token_of,
}
use fraglands.Core.Grant.History.{
  minted, accepted, Reach, here, next, mints, accepts, times_accepted,
}
use fraglands.Core.Grant.OneUse.{accepted_at_most_once, revoked_forever}
use fraglands.Core.Grant.Authentic.{accepted_was_minted}
use fraglands.Core.Grant.Usable.{minted_is_usable}

-- A cryptography that a run can evaluate.
abbrev encode_first : List ℕ → String
encode_first [] = ""
encode_first (n ∷ _) = decimal n

abbrev toy : Crypto
toy = record { bytes = λ _. []; encode = encode_first; hmac = λ k m. k }

abbrev start : Authority
start = record { ttl = 60; key = 5 ∷ []; grants = empty; by_preparation = empty }

abbrev request : ReplayRequest
request = record { preparation_id = "p"; replay_id = "r"; grant = "7.5" }

abbrev grant : ReplayGrant
grant = record {
  preparation_id = "p";
  owner_account_id = "o";
  replay_id = "r";
  expires = 160;
  token = "7.5";
}

abbrev after_mint : Authority
after_mint = (mint toy (some (7 ∷ [])) 100 start "p" "o" "r").0

abbrev after_accept : Authority
after_accept = (verify 120 after_mint request).0

mint_step : Reach toy start (minted 100 grant ∷ []) after_mint
unfolding mint token_of get decimal
mint_step = next here (mints (some (7 ∷ [])) 100 "p" "o" "r" grant refl refl)

accept_step : Reach toy start (accepted 120 request ∷ minted 100 grant ∷ []) after_accept
unfolding mint token_of verify get put decimal
accept_step = next mint_step (accepts 120 request refl)

request_accepted : (verify 120 after_mint request).1 ≡ none
unfolding mint token_of verify get put decimal
request_accepted = refl

abbrev void : Authority
void = record after_mint {
  grants = put after_mint.grants "7.5" (record {
    preparation_id = "p";
    owner_account_id = "o";
    replay_id = "r";
    expires = 160;
    used = false;
    revoked = true;
  });
}

accepted_at_most_once_example :
    times_accepted "7.5" (accepted 120 request ∷ minted 100 grant ∷ []) ≤ 1
accepted_at_most_once_example = accepted_at_most_once toy start after_accept _ "7.5" accept_step

revoked_forever_example : (verify 120 void request).1 ≢ none
unfolding mint revoke token_of get put decimal
revoked_forever_example = revoked_forever toy after_mint void void "p" [] 120 request refl refl here

accepted_was_minted_example :
    (issued : ℕ) × (g : ReplayGrant) × Memᴰ (minted issued g) (minted 100 grant ∷ [])
    × (g.token ≡ "7.5")
    × (g.preparation_id ≡ "p")
    × (g.replay_id ≡ "r")
    × (120 < g.expires)
accepted_was_minted_example =
    accepted_was_minted toy start after_mint _ 120 request (refl, refl) mint_step request_accepted

minted_is_usable_example : (verify 120 after_mint request).1 ≡ none
unfolding mint token_of get decimal
minted_is_usable_example =
    minted_is_usable toy start start after_mint after_mint [] [] (some (7 ∷ [])) 100 120 "p" "o" "r"
      grant (refl, refl) here refl refl here refl refl (omega arith)
