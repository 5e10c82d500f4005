-- ===== src/Bot/Verification/Defs.antt =====
-- `verify_request` and the functions that it calls.
use pybotx.Common.{
  ℕ, Bool, true, false, not, ◌||◌, Option, none, some, List, [], ◌∷◌, ◌++◌, get_last?, length,
  Error, index_error, type_error, headers_not_provided, unverified_request, unknown_bot_account,
  Result, ok, err, or_raise, ◌>>=◌, ◌==◌, if◌then◌else◌,
}
use pybotx.Common.Text.{Str, codes, str_eq, elem, split}
use pybotx.Common.Uuid.{Uuid, parse_uuid, print_uuid}
use pybotx.Common.Dict.{lookup}
use pybotx.Common.Json.{
  Json, null, str, arr, obj, items, Fields, get, truthy, is_two, is_str, as_str, uuid_of,
}
use pybotx.Models.BotAccount.{BotAccountWithSecret, host}
use pybotx.Bot.Verification.Jwt.{DecodeCall, Decode, hs256, catch_decode_error, catch_invalid_token}

-- `_get_bot_account`
unfoldable pub get_bot_account : Uuid → List BotAccountWithSecret → Result BotAccountWithSecret
get_bot_account bot_id [] = err (unknown_bot_account bot_id)
get_bot_account bot_id (account ∷ credentials) =
    if account.id == bot_id then ok account else get_bot_account bot_id credentials

unfoldable pub is_ok {ℓ} : {A : Type ℓ} → Result A → Bool
is_ok (ok a) = true
is_ok (err e) = false

-- `_is_v2_payload`
unfoldable pub is_v2_payload : Fields → Bool
is_v2_payload payload =
    is_two (get (codes "version") payload) || elim (as_str (get (codes "aud") payload)) [
      | none ↦ false
      | some audience ↦ elim (as_str (get (codes "iss") payload)) [
        | none ↦ false
        | some issuer ↦ is_ok (parse_uuid issuer)
      ]
    ]

abbrev pub invalid_audience : Error
invalid_audience = unverified_request (codes "Invalid audience parameter was provided.")

abbrev pub invalid_issuer : Error
invalid_issuer = unverified_request (codes "Invalid issuer")

abbrev pub missing_issuer : Error
missing_issuer = unverified_request (codes "Token is missing the \"iss\" claim")

abbrev pub no_token : Error
no_token = unverified_request (codes "The authorization token was not provided.")

-- The first call, which does not check the signature.
abbrev pub unverified_call : Str → DecodeCall
unverified_call token = record {
  jwt = token;
  key = none;
  algorithms = hs256;
  issuer = none;
  audience = none;
  leeway = 0;
  verify_signature = false;
  verify_aud = true;
  verify_iss = true;
}

-- `except (TypeError, ValueError)` around `UUID(issuer)` of a text
unfoldable pub issuer_uuid : Str → Result Uuid
issuer_uuid issuer = elim (parse_uuid issuer) [ ok id ↦ ok id | err e ↦ err invalid_issuer ]

-- The `iss` claim of a V2 token.
unfoldable pub issuer_of : Json → Result Str
issuer_of null = err missing_issuer
issuer_of (str issuer) = ok issuer
issuer_of _ = err invalid_issuer

-- `if not audience or not isinstance(audience, str): raise`
unfoldable pub audience_of : Json → Result Str
audience_of (str (c ∷ s)) = ok (c ∷ s)
audience_of (str []) = err invalid_audience
audience_of _ = err invalid_audience

abbrev pub guard : Bool → Error → Result (Unit {0})
guard true e = ok tt
guard false e = err e

abbrev pub v2_call : Str → BotAccountWithSecret → Str → DecodeCall
v2_call token account h = record {
  jwt = token;
  key = some account.secret_key;
  algorithms = hs256;
  issuer = some (print_uuid account.id);
  audience = some h;
  leeway = 1;
  verify_signature = true;
  verify_aud = true;
  verify_iss = true;
}

abbrev pub v1_call : Str → BotAccountWithSecret → Str → DecodeCall
v1_call token account h = record {
  jwt = token;
  key = some account.secret_key;
  algorithms = hs256;
  issuer = some h;
  audience = none;
  leeway = 1;
  verify_signature = true;
  verify_aud = false;
  verify_iss = false;
}

-- `isinstance(v, Sequence)` of a value of JSON
unfoldable pub is_sequence : Json → Bool
is_sequence (str s) = true
is_sequence (arr vs) = true
is_sequence _ = false

unfoldable pub is_text : Json → Bool
is_text (str s) = true
is_text _ = false

-- The items of a list, and the characters of a text.
unfoldable pub sequence_length : Json → ℕ
sequence_length (arr vs) = length (items vs)
sequence_length (str s) = length s
sequence_length _ = 0

unfoldable pub is_bad_audience : Json → Bool
unfolding truthy is_sequence is_text sequence_length
is_bad_audience audience =
    not (truthy audience)
    || not (is_sequence audience)
    || is_text audience
    || not (sequence_length audience == 1)

-- `audience[-1]` of a list
unfoldable pub last_item : Json → Result Json
last_item (arr vs) = or_raise index_error (get_last? (items vs))
last_item _ = err type_error

-- `except UnknownBotAccountError as e: raise UnverifiedRequestError(e.args[0])`
unfoldable pub catch_unknown_bot {ℓ} : {A : Type ℓ} → Result A → Result A
catch_unknown_bot (err (unknown_bot_account bot_id)) =
    err (
      unverified_request
        (codes "No bot account with bot_id: `" ++ (print_uuid bot_id ++ b'`' ∷ [])))
catch_unknown_bot (err e) = err e
catch_unknown_bot (ok a) = ok a

-- `issuer in trusted_issuers`: a list or an object has no hash.
unfoldable pub in_set : Json → List Str → Result Bool
in_set (str s) trusted = ok (elem s trusted)
in_set (arr vs) trusted = err type_error
in_set (obj fs) trusted = err type_error
in_set _ trusted = ok false

-- `if not trusted_issuers or issuer not in trusted_issuers: raise`
unfoldable pub check_trusted : Option (List Str) → Json → Result (Unit {0})
check_trusted none issuer = err invalid_issuer
check_trusted (some []) issuer = err invalid_issuer
check_trusted (some (t ∷ ts)) issuer =
    in_set issuer (t ∷ ts) >>= λ found. guard found invalid_issuer

-- `if issuer is None: raise`
unfoldable pub present : Json → Result Json
present null = err missing_issuer
present v = ok v

-- `if not authorization_header: raise`
unfoldable pub header_of : Option Str → Result Str
header_of none = err no_token
header_of (some []) = err no_token
header_of (some (c ∷ s)) = ok (c ∷ s)

module _ (decode : Decode) where
  -- `_verify_request_v2`
  unfoldable pub verify_request_v2 :
      Str → Fields → List BotAccountWithSecret → Result BotAccountWithSecret
  verify_request_v2 token payload credentials = issuer_of (get (codes "iss") payload) >>= λ issuer.
      issuer_uuid issuer >>= λ bot_id. get_bot_account bot_id credentials >>= λ account.
      audience_of (get (codes "aud") payload) >>= λ audience. host account >>= λ h.
      guard (str_eq audience h) invalid_audience >>= λ _.
      catch_invalid_token (decode (v2_call token account h)) >>= λ _. ok account

  -- `_verify_request_v1`
  unfoldable pub verify_request_v1 :
      Str → Fields → List BotAccountWithSecret → Option (List Str) → Result BotAccountWithSecret
  verify_request_v1 token payload credentials trusted_issuers =
      guard (not (is_bad_audience (get (codes "aud") payload))) invalid_audience >>= λ _.
      catch_unknown_bot (
        last_item (get (codes "aud") payload) >>= λ item.
        uuid_of item >>= λ bot_id. get_bot_account bot_id credentials)
      >>= λ account. host account >>= λ h.
          catch_invalid_token (decode (v1_call token account h)) >>= λ _.
          present (get (codes "iss") payload) >>= λ issuer.
          (if is_str issuer h then ok tt else check_trusted trusted_issuers issuer) >>= λ _.
          ok account

  unfoldable pub verify_request :
      Option (List (Str × Str))
      → List BotAccountWithSecret
      → Option (List Str)
      → Result BotAccountWithSecret
  verify_request none credentials trusted_issuers = err headers_not_provided
  verify_request (some headers) credentials trusted_issuers =
      header_of (lookup (codes "authorization") headers) >>= λ header.
      or_raise index_error (get_last? (split header)) >>= λ token.
      catch_decode_error (decode (unverified_call token)) >>= λ payload.
      if is_v2_payload payload
      then verify_request_v2 token payload credentials
      else verify_request_v1 token payload credentials trusted_issuers
