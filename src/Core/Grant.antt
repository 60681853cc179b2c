-- ===== src/Core/Grant.antt =====
-- core/grant.go: the HMAC grant authority. An authority is a value, and each method takes it and
-- returns it. The records behind `grants` are reached through their token alone, so no pointer is
-- shared. A method reads the injected clock at most once: `now` is what it reads. A Go `error` is
-- `Option CoreError`, `none` for nil.
pub mod History
pub mod OneUse
pub mod Linked
pub mod Authentic
pub mod Usable
pub mod Verify
mod Tests
use Prim.Native.String.{◌++◌ as ◌⧺◌}
use fraglands.Prelude.{
  ℕ, ◌+◌, ◌/◌, ◌%◌, ◌^◌, String, Bool, true, false, not, ◌||◌, Option, none, some, List, [], ◌∷◌,
  ◌++◌, string_eq, ◌==◌, ltb, if◌then◌else◌,
}
use fraglands.Prelude.Int.{ℤ, is_nonpos, to_ℕ}
use fraglands.Prelude.Dict.{Dict, empty, get, put}
use fraglands.Core.Errors.{
  CoreError, Result, ok, err, grant_unknown, grant_mismatch, grant_revoked, grant_already_used,
  grant_expired, grant_invalid_binding, grant_already_minted, grant_random, grant_clock_required,
  grant_ttl_required,
}

-- The cryptography of Go's standard library: the bytes of a text, `base64.RawURLEncoding`, and
-- HMAC-SHA256 of a message under a key.
pub record Crypto : Type 0 where
  pub bytes : String → List ℕ
  pub encode : List ℕ → String
  pub hmac : List ℕ → List ℕ → List ℕ

pub record ReplayGrant : Type 0 where
  pub preparation_id : String
  pub owner_account_id : String
  pub replay_id : String
  pub expires : ℕ
  pub token : String

pub record ReplayRequest : Type 0 where
  pub preparation_id : String
  pub replay_id : String
  pub grant : String

pub record GrantRecord : Type 0 where
  pub preparation_id : String
  pub owner_account_id : String
  pub replay_id : String
  pub expires : ℕ
  pub used : Bool
  pub revoked : Bool

-- HMACGrantAuthority
pub record Authority : Type 0 where
  pub ttl : ℕ
  pub key : List ℕ
  pub grants : Dict String GrantRecord
  pub by_preparation : Dict String String

build : ℤ → List ℕ → Authority
build ttl key = record { ttl = to_ℕ ttl; key = key; grants = empty; by_preparation = empty }

-- `len(key) == 0` asks for 32 random bytes, `none` where `rand.Read` fails.
choose_key : List ℕ → Option (List ℕ) → Option (List ℕ)
choose_key [] random = random
choose_key (b ∷ key) random = some (b ∷ key)

-- NewHMACGrantAuthority: whether a clock is given, the TTL, the key, and the random bytes.
unfoldable pub new : Bool → ℤ → List ℕ → Option (List ℕ) → Result CoreError Authority
unfolding build choose_key
new has_clock ttl key random =
    if not has_clock
    then err grant_clock_required
    else if is_nonpos ttl
    then err grant_ttl_required
    else elim (choose_key key random) [ none ↦ err grant_random | some k ↦ ok (build ttl k) ]

-- binary.LittleEndian.PutUint64(expiry[:], uint64(n))
little_endian_64 : ℕ → List ℕ
little_endian_64 n =
    n % 256
    ∷ n / 256 % 256
    ∷ n / 65536 % 256
    ∷ n / 16777216 % 256
    ∷ n / 2 ^ 32 % 256
    ∷ n / 2 ^ 40 % 256
    ∷ n / 2 ^ 48 % 256
    ∷ n / 2 ^ 56 % 256
    ∷ []

module _ (c : Crypto) where
  -- What Mint writes into the MAC.
  binding : String → String → String → ℕ → List ℕ
  unfolding little_endian_64
  binding prep owner replay expires =
      c.bytes "fraglands-replay-grant"
      ++ 0
        ∷ (c.bytes prep
            ++ 0
              ∷ (c.bytes owner ++ 0 ∷ (c.bytes replay ++ 0 ∷ little_endian_64 (expires % 2 ^ 64))))

  -- The token of a binding: the nonce, a dot, and the MAC.
  unfoldable pub token_of : Authority → List ℕ → String → String → String → ℕ → String
  unfolding binding
  token_of a nonce prep owner replay expires =
      c.encode nonce ⧺ ("." ⧺ c.encode (c.hmac a.key (binding prep owner replay expires)))

  -- Mint. `nonce` is the 32 random bytes, `none` where `rand.Read` fails.
  unfoldable pub mint :
      Option (List ℕ)
      → ℕ
      → Authority
      → String
      → String
      → String
      → Authority × Result CoreError ReplayGrant
  mint nonce now a prep owner replay =
      if prep == "" || owner == "" || replay == ""
      then (a, err grant_invalid_binding)
      else elim (get a.by_preparation prep) [
        | some t ↦ (a, err grant_already_minted)
        | none ↦ elim nonce [
          | none ↦ (a, err grant_random)
          | some bytes ↦ bind (now + a.ttl) (token_of a bytes prep owner replay (now + a.ttl))
        ]
      ]
    where
      bind : ℕ → String → Authority × Result CoreError ReplayGrant
      bind expires token = (
        record a {
          grants = put a.grants token (record {
            preparation_id = prep;
            owner_account_id = owner;
            replay_id = replay;
            expires = expires;
            used = false;
            revoked = false;
          });
          by_preparation = put a.by_preparation prep token;
        },
        ok (record {
          preparation_id = prep;
          owner_account_id = owner;
          replay_id = replay;
          expires = expires;
          token = token;
        }),
      )

-- The part of Verify behind the lookup of the record.
verify_record : ℕ → Authority → ReplayRequest → GrantRecord → Authority × Option CoreError
verify_record now a req rec =
    if not (req.preparation_id == rec.preparation_id) || not (req.replay_id == rec.replay_id)
    then (a, some grant_mismatch)
    else if rec.revoked
    then (a, some grant_revoked)
    else if rec.used
    then (a, some grant_already_used)
    else if not (ltb now rec.expires)
    then (a, some grant_expired)
    else (record a { grants = put a.grants req.grant (record rec { used = true }) }, none)

-- Verify
unfoldable pub verify : ℕ → Authority → ReplayRequest → Authority × Option CoreError
unfolding verify_record
verify now a req =
    if req.grant == "" then (a, some grant_unknown) else elim (get a.grants req.grant) [
      | none ↦ (a, some grant_unknown)
      | some rec ↦ verify_record now a req rec
    ]

-- Revoke returns no error; `none` is the panic of reading a field of a record that `grants` lacks.
unfoldable pub revoke : Authority → String → Option Authority
revoke a prep = elim (get a.by_preparation prep) [
  | none ↦ some a
  | some token ↦ elim (get a.grants token) [
    | none ↦ none
    | some rec ↦ some (
        if rec.used
        then a
        else record a { grants = put a.grants token (record rec { revoked = true }) })
  ]
]
