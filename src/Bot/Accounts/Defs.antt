-- ===== src/Bot/Accounts/Defs.antt =====
-- The accounts of the bots and their tokens. `jwt.encode`, `hmac.new(…).digest()`, `time.time` and
-- `secrets.token_hex` are packages' functions: the first two are parameters, the values of the other two arguments.
use pybotx.Common.{
  ℕ, ◌+◌, ◌-◌, ◌/◌, ◌%◌, ltb, false, Option, none, some, List, [], ◌∷◌, Result, ok, err,
  unknown_bot_account, ◌>>=◌, ◌==◌, if◌then◌else◌,
}
use pybotx.Common.Text.{Str, codes}
use pybotx.Common.Uuid.{Uuid, print_uuid}
use pybotx.Common.Json.{str, int, Fields, end, field}
use pybotx.Models.BotAccount.{BotAccountWithSecret, host}

pub data BotXAuthVersion : Type 0 where
  v1 v2 : BotXAuthVersion

-- `_auth_tokens` is a dictionary from bots to tokens, in insertion order.
pub record BotAccountsStorage : Type 0 where
  pub bot_accounts : List BotAccountWithSecret
  pub auth_tokens : List (Uuid × Str)
  pub auth_version : BotXAuthVersion

-- `__init__`
unfoldable pub new_storage : List BotAccountWithSecret → BotXAuthVersion → BotAccountsStorage
new_storage bot_accounts auth_version = record {
  bot_accounts = bot_accounts;
  auth_tokens = [];
  auth_version = auth_version;
}

unfoldable pub account_in : Uuid → List BotAccountWithSecret → Result BotAccountWithSecret
account_in bot_id [] = err (unknown_bot_account bot_id)
account_in bot_id (bot_account ∷ accounts) =
    if bot_account.id == bot_id then ok bot_account else account_in bot_id accounts

-- `get_bot_account`
unfoldable pub get_bot_account : BotAccountsStorage → Uuid → Result BotAccountWithSecret
unfolding account_in
get_bot_account storage bot_id = account_in bot_id storage.bot_accounts

-- `get_cts_url`
unfoldable pub get_cts_url : BotAccountsStorage → Uuid → Result Str
get_cts_url storage bot_id = get_bot_account storage bot_id >>= λ account. ok account.cts_url

unfoldable pub token_in : Uuid → List (Uuid × Str) → Option Str
token_in bot_id [] = none
token_in bot_id ((id, token) ∷ tokens) = if id == bot_id then some token else token_in bot_id tokens

unfoldable pub put_token : Uuid → Str → List (Uuid × Str) → List (Uuid × Str)
put_token bot_id token [] = (bot_id, token) ∷ []
put_token bot_id token ((id, old) ∷ tokens) =
    if id == bot_id then (id, token) ∷ tokens else (id, old) ∷ put_token bot_id token tokens

-- `set_token`
unfoldable pub set_token : BotAccountsStorage → Uuid → Str → BotAccountsStorage
unfolding put_token
set_token storage bot_id token = record storage {
  auth_tokens = put_token bot_id token storage.auth_tokens;
}

-- `get_token_or_none`
unfoldable pub get_token_or_none : BotAccountsStorage → Uuid → Option Str
unfolding token_in
get_token_or_none storage bot_id = token_in bot_id storage.auth_tokens

-- `ensure_bot_id_exists`
unfoldable pub ensure_bot_id_exists : BotAccountsStorage → Uuid → Result (Unit {0})
ensure_bot_id_exists storage bot_id = get_bot_account storage bot_id >>= λ account. ok tt

abbrev pub Encode : Type 0
Encode = (payload : Fields) (key : Str) → Str

-- The payload of `build_botx_jwt_v2`.
abbrev pub jwt_payload : Uuid → Str → (iat : ℕ) (jti : Str) → Fields
jwt_payload bot_id bot_host iat jti = field (codes "iss") (str (print_uuid bot_id)) (
    field (codes "aud") (str bot_host) (
      field (codes "exp") (int false (iat + 60)) (
        field (codes "nbf") (int false iat) (
          field (codes "jti") (str jti)
            (field (codes "iat") (int false iat) (field (codes "version") (int false 2) end))))))

-- `build_botx_jwt_v2`, where `iat` and `jti` are given or are what the clock and the generator return
unfoldable pub build_botx_jwt_v2 : Encode → Uuid → Str → Str → (iat : ℕ) (jti : Str) → Str
build_botx_jwt_v2 encode bot_id bot_host secret_key iat jti =
    encode (jwt_payload bot_id bot_host iat jti) secret_key

-- `build_jwt_v2`
unfoldable pub build_jwt_v2 :
    Encode → BotAccountsStorage → Uuid → (iat : ℕ) (jti : Str) → Result Str
build_jwt_v2 encode storage bot_id iat jti = get_bot_account storage bot_id >>= λ account.
    host account >>= λ h. ok (build_botx_jwt_v2 encode account.id h account.secret_key iat jti)

-- `base64.b16encode(…).decode()`
abbrev hex_upper : ℕ → ℕ
hex_upper n = if ltb n 10 then n + b'0' else n - 10 + b'A'

unfoldable pub b16encode : List ℕ → Str
b16encode [] = []
b16encode (b ∷ bs) = hex_upper (b / 16) ∷ hex_upper (b % 16) ∷ b16encode bs

-- `hmac.new(key, msg, hashlib.sha256).digest()` of the two texts' encodings
abbrev pub Digest : Type 0
Digest = (key msg : Str) → List ℕ

-- `build_signature`
unfoldable pub build_signature : Digest → BotAccountsStorage → Uuid → Result Str
build_signature digest storage bot_id = get_bot_account storage bot_id >>= λ account.
    ok (b16encode (digest account.secret_key (print_uuid account.id)))
