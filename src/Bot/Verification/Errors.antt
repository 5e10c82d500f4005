-- ===== src/Bot/Verification/Errors.antt =====
-- Tokens of bots that are not among the accounts.
use pybotx.Common.{
  ℕ, ◌≡◌, ◌≢◌, refl, ◌∙◌, true, false, Option, some, List, [], ◌∷◌, ◌++◌, All, get_last?, ok, err,
  unknown_bot_account, unverified_request, arith, if◌then◌else◌,
}
use pybotx.Common.Text.{Str, codes, split}
use pybotx.Common.Uuid.{Uuid, parse_uuid, print_uuid}
use pybotx.Common.Dict.{lookup}
use pybotx.Common.Json.{str, arr, nil, cons, Fields, get, uuid_of}
use pybotx.Models.BotAccount.{BotAccountWithSecret}
use pybotx.Bot.Verification.Jwt.{Decode, catch_decode_error}
use pybotx.Bot.Verification.Defs.{
  get_bot_account, is_v2_payload, unverified_call, issuer_uuid, issuer_of, is_bad_audience,
  last_item, catch_unknown_bot, header_of, verify_request_v2, verify_request_v1, verify_request,
}

abbrev pub HasNoAccount : Uuid → List BotAccountWithSecret → Type 0
HasNoAccount bot_id = All (λ a. a.id ≢ bot_id)

pub get_bot_account_missing :
    (bot_id : Uuid) (credentials : List BotAccountWithSecret)
    → HasNoAccount bot_id credentials
    → get_bot_account bot_id credentials ≡ err (unknown_bot_account bot_id)
unfolding get_bot_account
get_bot_account_missing bot_id [] h = refl
get_bot_account_missing bot_id (a ∷ as') (n, h) =
    ground (arith, get_bot_account_missing bot_id as' h)

-- A request whose token can be read.
pub record Carries (decode : Decode) (headers : List (Str × Str)) (token : Str) (payload : Fields)
    : Type 0 where
  pub start : ℕ
  pub header : Str
  pub given : lookup (codes "authorization") headers ≡ some (start ∷ header)
  pub last : get_last? (split (start ∷ header)) ≡ some token
  pub read : decode (unverified_call token) ≡ ok payload

module _ (decode : Decode) (headers : List (Str × Str)) (credentials : List BotAccountWithSecret)
    (trusted_issuers : Option (List Str)) (token : Str) (payload : Fields) where
  verify_request-Carries :
      Carries decode headers token payload
      → verify_request decode (some headers) credentials trusted_issuers ≡ (
          if is_v2_payload payload
          then verify_request_v2 decode token payload credentials
          else verify_request_v1 decode token payload credentials trusted_issuers)
  unfolding verify_request header_of catch_decode_error
  verify_request-Carries c = rw (c.given, c.last, c.read)

  -- A V2 token whose issuer is a UUID of no account raises `UnknownBotAccountError`, not
  -- `UnverifiedRequestError`, whatever its signature.
  pub unknown_bot_v2 :
      (issuer : Str) (bot_id : Uuid)
      → Carries decode headers token payload
      → is_v2_payload payload ≡ true
      → get (codes "iss") payload ≡ str issuer
      → parse_uuid issuer ≡ ok bot_id
      → HasNoAccount bot_id credentials
      → verify_request decode (some headers) credentials trusted_issuers
        ≡ err (unknown_bot_account bot_id)
  unfolding verify_request_v2 issuer_of issuer_uuid
  unknown_bot_v2 issuer bot_id c v iss id missing =
      verify_request-Carries c
      ∙ rw (v, iss) (rw (id, issuer_uuid) (rw (get_bot_account_missing bot_id credentials missing)))

  -- A V1 token whose only audience is a UUID of no account raises `UnverifiedRequestError`.
  pub unknown_bot_v1 :
      (audience : Str) (bot_id : Uuid)
      → Carries decode headers token payload
      → is_v2_payload payload ≡ false
      → get (codes "aud") payload ≡ arr (cons (str audience) nil)
      → parse_uuid audience ≡ ok bot_id
      → HasNoAccount bot_id credentials
      → verify_request decode (some headers) credentials trusted_issuers
        ≡ err (
            unverified_request
              (codes "No bot account with bot_id: `" ++ (print_uuid bot_id ++ b'`' ∷ [])))
  unfolding verify_request_v1 is_bad_audience last_item uuid_of catch_unknown_bot
  unknown_bot_v1 audience bot_id c v aud id missing =
      verify_request-Carries c ∙ rw (v, aud, id, get_bot_account_missing bot_id credentials missing)
