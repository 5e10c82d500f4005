-- ===== src/Bot/Accounts/Token.antt =====
-- The tokens of `build_jwt_v2` against `verify_request`.
use pybotx.Common.{ℕ, ◌<◌, ◌≡◌, refl, sym, ◌∙◌, ap, true, Option, some, List, [], ◌∷◌, ◌++◌, ok}
use pybotx.Common.Text.{
  Str, codes, str_eq, str_eq_refl, is_space, split, IsWord, split-command, split-word,
}
use pybotx.Common.Uuid.{Uuid, uuid_bound, print_uuid, parse_uuid-print_uuid}
use pybotx.Common.Dict.{lookup}
use pybotx.Common.Json.{str, get, is_two}
use pybotx.Models.BotAccount.{BotAccountWithSecret, host}
use pybotx.Bot.Verification.{
  Decode, is_v2_payload, unverified_call, issuer_uuid, issuer_of, audience_of, guard, v2_call,
  header_of, verify_request_v2, verify_request, catch_decode_error, catch_invalid_token,
}
use pybotx.Bot.Verification
use pybotx.Bot.Accounts.Defs.{
  BotAccountsStorage, account_in, get_bot_account, Encode, jwt_payload, build_botx_jwt_v2,
  build_jwt_v2,
}

-- What PyJWT does with a token of an account: reading it gives the payload back, with or without the
-- checks of its signature, issuer and audience, while it has not expired; a token has no whitespace.
pub record Reads (decode : Decode) (encode : Encode) (account : BotAccountWithSecret) (h : Str)
    (iat : ℕ) (jti : Str) : Type 0 where
  pub start : ℕ
  pub token : Str
  pub encoded : encode (jwt_payload account.id h iat jti) account.secret_key ≡ start ∷ token
  pub word : IsWord (start ∷ token)
  pub read : decode (unverified_call (start ∷ token)) ≡ ok (jwt_payload account.id h iat jti)
  pub verified : decode (v2_call (start ∷ token) account h) ≡ ok (jwt_payload account.id h iat jti)

split-bearer :
    (start : ℕ) (token : Str)
    → IsWord (start ∷ token)
    → split (codes "Bearer " ++ (start ∷ token)) ≡ codes "Bearer" ∷ (start ∷ token) ∷ []
unfolding is_space
split-bearer start token h =
    split-command (codes "Bearer") b' ' (start ∷ token)
      (refl, (refl, (refl, (refl, (refl, (refl, tt)))))) refl
    ∙ ap (λ ws. codes "Bearer" ∷ ws) (split-word start token h)

claims :
    (bot_id : Uuid) (h : Str) (iat : ℕ) (jti : Str)
    → (get (codes "iss") (jwt_payload bot_id h iat jti) ≡ str (print_uuid bot_id))
      × (get (codes "aud") (jwt_payload bot_id h iat jti) ≡ str h)
      × (is_v2_payload (jwt_payload bot_id h iat jti) ≡ true)
unfolding get str_eq is_v2_payload is_two
claims bot_id h iat jti = (refl, refl, refl)

own_payload_verified :
    (decode : Decode) (credentials : List BotAccountWithSecret) (account : BotAccountWithSecret)
    (c : ℕ) (h token : Str) (iat : ℕ) (jti : Str)
    → account.id < uuid_bound
    → Verification.get_bot_account account.id credentials ≡ ok account
    → host account ≡ ok (c ∷ h)
    → decode (v2_call token account (c ∷ h)) ≡ ok (jwt_payload account.id (c ∷ h) iat jti)
    → verify_request_v2 decode token (jwt_payload account.id (c ∷ h) iat jti) credentials
      ≡ ok account
unfolding verify_request_v2 issuer_of audience_of issuer_uuid catch_invalid_token
own_payload_verified decode credentials account c h token iat jti bound found hosted verified =
    let (iss, aud, v2) = claims account.id (c ∷ h) iat jti in
    rw (iss, aud)
      (rw (parse_uuid-print_uuid account.id bound, issuer_uuid)
        (rw (found, hosted, str_eq_refl (c ∷ h), verified) refl))

-- The storage and the verification look accounts up alike.
account_in-get_bot_account :
    (bot_id : Uuid) (accounts : List BotAccountWithSecret)
    → account_in bot_id accounts ≡ Verification.get_bot_account bot_id accounts
unfolding account_in Verification.get_bot_account
account_in-get_bot_account bot_id [] = refl
account_in-get_bot_account bot_id (a ∷ accounts) =
    rw (account_in-get_bot_account bot_id accounts, account_in, Verification.get_bot_account) refl

-- The token that `build_jwt_v2` builds for a bot of the storage, with a 128-bit id and a host that is not
-- empty, is accepted by `verify_request` on the same accounts, in the header "Bearer " and the token, and
-- gives the bot's account, where PyJWT decodes the token that it encoded (`Reads`).
pub own_token_verified :
    (decode : Decode) (encode : Encode) (storage : BotAccountsStorage)
    (trusted_issuers : Option (List Str)) (account : BotAccountWithSecret) (c : ℕ) (h : Str)
    (iat : ℕ) (jti : Str)
    → account.id < uuid_bound
    → get_bot_account storage account.id ≡ ok account
    → host account ≡ ok (c ∷ h)
    → Reads decode encode account (c ∷ h) iat jti
    → (token : Str) × (build_jwt_v2 encode storage account.id iat jti ≡ ok token)
      × (verify_request decode
            (some ((codes "authorization", codes "Bearer " ++ token) ∷ []))
            storage.bot_accounts
            trusted_issuers
          ≡ ok account)
unfolding get_bot_account verify_request build_jwt_v2 build_botx_jwt_v2 lookup header_of
    catch_decode_error str_eq
own_token_verified decode encode storage trusted_issuers account c h iat jti bound found hosted r =
    let (iss, aud, v2) = claims account.id (c ∷ h) iat jti in
    (
      r.start ∷ r.token,
      rw (found, hosted) (ap ok r.encoded),
      rw (split-bearer r.start r.token r.word, r.read, v2)
          (own_payload_verified decode storage.bot_accounts account c h (r.start ∷ r.token) iat jti
            bound (sym (account_in-get_bot_account account.id storage.bot_accounts) ∙ found) hosted
            r.verified),
    )
