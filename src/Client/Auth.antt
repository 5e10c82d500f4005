-- ===== src/Client/Auth.antt =====
-- `AuthorizedBotXMethod` of pybotx/client/authorized_botx_method.py, pybotx/client/get_token.py and
-- pybotx/client/bots_api/get_token.py. The warning on version 1 is left out.
use pybotx.Common.{Option, none, some, List, [], ◌∷◌, ◌++◌, Result}
use pybotx.Common.Text.{Str, codes}
use pybotx.Common.Uuid.{Uuid, print_uuid}
use pybotx.Common.Json.{Json, str}
use pybotx.Models.ApiBase.{plain, Entries, entry, jsonable_dict}
use pybotx.Bot.Accounts.{
  BotXAuthVersion, v1, v2, BotAccountsStorage, get_token_or_none, set_token, build_signature,
  build_jwt_v2,
}
use pybotx.Client.Action.{invalid_bot_account_error, HttpResponse, Action, pure, lift, ◌⟫◌}
use pybotx.Client.Http.{
  Environment, StatusHandlers, response_exception_thrower, build_url, Arguments, with_params,
  botx_method_call, verify_and_extract,
}

-- `AuthorizedBotXMethod.status_handlers`, and those of `GetTokenMethod`
abbrev pub status_handlers : StatusHandlers
status_handlers = (401, response_exception_thrower invalid_bot_account_error) ∷ []

-- A value that is computed from the accounts and the tokens
abbrev pub from_storage {ℓ} : {A : Type ℓ} → (BotAccountsStorage → Result A) → Action A
from_storage f w = lift (f w.storage) w

-- `BotXAPIGetTokenRequestPayload.from_domain`
abbrev pub get_token_payload : Str → Entries
get_token_payload signature = entry (codes "signature") (plain (str signature)) Entries.end

abbrev pub token_path : Uuid → Str
token_path bot_id = codes "/api/v2/botx/bots/" ++ print_uuid bot_id ++ codes "/token"

module _ ⦃env : Environment⦄ where
  -- `GetTokenMethod.execute`
  unfoldable pub get_token_execute : Uuid → Entries → Action Str
  unfolding build_url botx_method_call verify_and_extract jsonable_dict
  get_token_execute bot_id payload =
      from_storage (λ storage. build_url storage bot_id (token_path bot_id)) ⟫ λ url.
      botx_method_call status_handlers (codes "GET") url [] (with_params (jsonable_dict payload))
      ⟫ λ response. verify_and_extract env.validate_token response

  -- `get_token`
  unfoldable pub get_token : Uuid → Action Str
  unfolding build_signature get_token_execute
  get_token bot_id =
      from_storage (λ storage. build_signature env.digest storage bot_id) ⟫ λ signature.
      get_token_execute bot_id (get_token_payload signature)

  abbrev pub store_token : Uuid → Str → Action Str
  store_token bot_id token w = pure token (record w { storage = set_token w.storage bot_id token })

  abbrev pub token_or_request : Uuid → Option Str → Action Str
  token_or_request bot_id (some token) = pure token
  token_or_request bot_id none = get_token bot_id ⟫ store_token bot_id

  abbrev pub token_by : BotXAuthVersion → Uuid → Action Str
  token_by v2 bot_id w =
      lift (build_jwt_v2 env.encode w.storage bot_id (env.time w.sent) (env.token_hex w.sent)) w
  token_by v1 bot_id w = token_or_request bot_id (get_token_or_none w.storage bot_id) w

  -- The token of `_add_authorization_headers`
  unfoldable pub authorization_token : Uuid → Action Str
  unfolding get_token set_token get_token_or_none build_jwt_v2
  authorization_token bot_id w = token_by w.storage.auth_version bot_id w

  abbrev pub authorization_headers : Str → List (Str × Str)
  authorization_headers token = (codes "Authorization", codes "Bearer " ++ token) ∷ []

  -- `self._botx_method_call(method, self._build_url(path), …)` of an `AuthorizedBotXMethod`
  unfoldable pub authorized_call :
      StatusHandlers → Uuid → Str → Str → Arguments → Action HttpResponse
  unfolding build_url authorization_token botx_method_call
  authorized_call handlers bot_id method path args =
      from_storage (λ storage. build_url storage bot_id path) ⟫ λ url.
      authorization_token bot_id ⟫ λ token.
      botx_method_call handlers method url (authorization_headers token) args

-- A class of methods: `execute` gives its verb and path to the call, which looks its handlers up.
pub record Endpoint : Type 0 where
  pub method : Str
  pub path : Str
  pub handlers : StatusHandlers

module _ ⦃env : Environment⦄ where
  -- An `execute` that checks the response's payload
  unfoldable pub execute {ℓ} :
      {A : Type ℓ} → Endpoint → (Json → Result A) → Uuid → Arguments → Action A
  unfolding authorized_call verify_and_extract
  execute endpoint validate bot_id args =
      authorized_call endpoint.handlers bot_id endpoint.method endpoint.path args ⟫ λ response.
      verify_and_extract validate response
