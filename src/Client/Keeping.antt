-- ===== src/Client/Keeping.antt =====
-- Actions that keep a property of the state.
use pybotx.Common.{List, [], Result, ok, err}
use pybotx.Common.Text.{Str, codes}
use pybotx.Common.Uuid.{Uuid}
use pybotx.Common.Json.{Json}
use pybotx.Models.ApiBase.{Entries, jsonable_dict}
use pybotx.Bot.Accounts.{BotAccountsStorage, build_signature}
use pybotx.Client.Action.{
  HttpResponse, Request, Outcome, done, raised, World, Action, lift, continue, ◌⟫◌,
}
use pybotx.Client.Http.{
  Environment, StatusHandlers, build_url, Arguments, with_params, botx_method_call,
  verify_and_extract, loaded, validated,
}
use pybotx.Client.Auth.{
  status_handlers, token_path, get_token_payload, from_storage, get_token, get_token_execute,
}
use pybotx.Client.Calls.{botx_method_call-world}

module _ (P : World → Type 0) where
  -- An action keeps `P`, whether it gives a value or raises.
  abbrev pub IsKeeping : {A : Type 0} → Action A → Type 0
  IsKeeping m = (w : World) → P w → P (m w).1

  pub continue-IsKeeping :
      {A B : Type 0} (k : A → Action B) (r : Outcome A × World)
      → ((a : A) → IsKeeping (k a))
      → P r.1
      → P (continue k r).1
  continue-IsKeeping k (done a, w) h p = h a w p
  continue-IsKeeping k (raised e, w) h p = p

  pub chain-IsKeeping :
      {A B : Type 0} (m : Action A) (k : A → Action B)
      → IsKeeping m
      → ((a : A) → IsKeeping (k a))
      → IsKeeping (m ⟫ k)
  chain-IsKeeping m k h g w p = continue-IsKeeping k (m w) g (h w p)

  pub lift-IsKeeping : {A : Type 0} (r : Result A) → IsKeeping (lift r)
  lift-IsKeeping (ok a) w p = p
  lift-IsKeeping (err e) w p = p

  pub from_storage-IsKeeping :
      {A : Type 0} (f : BotAccountsStorage → Result A) → IsKeeping (from_storage f)
  from_storage-IsKeeping f w p = lift-IsKeeping (f w.storage) w p

  module _ ⦃env : Environment⦄
      (sending : (w : World) (requests : List Request)
        → P w
        → P (record w { sent = requests })) where
    pub botx_method_call-IsKeeping :
        (handlers : StatusHandlers) (method url : Str) (headers : List (Str × Str))
        (args : Arguments)
        → IsKeeping (botx_method_call handlers method url headers args)
    botx_method_call-IsKeeping handlers method url headers args w p =
        rw (botx_method_call-world handlers method url headers args w) (sending w _ p)

    pub loaded-IsKeeping :
        (response : HttpResponse) (r : Result Json) → IsKeeping (loaded response r)
    loaded-IsKeeping response (ok raw_model) w p = p
    loaded-IsKeeping response (err e) w p = p

    pub validated-IsKeeping :
        {A : Type 0} (response : HttpResponse) (r : Result A) → IsKeeping (validated response r)
    validated-IsKeeping response (ok api_model) w p = p
    validated-IsKeeping response (err e) w p = p

    pub verify_and_extract-IsKeeping :
        {A : Type 0} (validate : Json → Result A) (response : HttpResponse)
        → IsKeeping (verify_and_extract validate response)
    unfolding verify_and_extract
    verify_and_extract-IsKeeping validate response =
        chain-IsKeeping (loaded response (env.loads response.content)) _
          (loaded-IsKeeping response (env.loads response.content))
          (λ raw_model. validated-IsKeeping response (validate raw_model))

    -- The call of a method, and the reading of its response
    pub call-IsKeeping :
        (method url : Str) (headers : List (Str × Str)) (args : Arguments)
        → IsKeeping (
            botx_method_call status_handlers method url headers args ⟫ λ response.
            verify_and_extract env.validate_token response)
    call-IsKeeping method url headers args =
        chain-IsKeeping (botx_method_call status_handlers method url headers args)
          (λ response. verify_and_extract env.validate_token response)
          (botx_method_call-IsKeeping status_handlers method url headers args)
          (λ response. verify_and_extract-IsKeeping env.validate_token response)

    pub get_token_execute-IsKeeping :
        (bot_id : Uuid) (payload : Entries) → IsKeeping (get_token_execute bot_id payload)
    unfolding get_token_execute
    get_token_execute-IsKeeping bot_id payload =
        chain-IsKeeping (from_storage (λ storage. build_url storage bot_id (token_path bot_id)))
          (λ url.
            botx_method_call status_handlers (codes "GET") url []
              (with_params (jsonable_dict payload))
            ⟫ λ response. verify_and_extract env.validate_token response)
          (from_storage-IsKeeping (λ storage. build_url storage bot_id (token_path bot_id)))
          (λ url. call-IsKeeping (codes "GET") url [] (with_params (jsonable_dict payload)))

    pub get_token-IsKeeping : (bot_id : Uuid) → IsKeeping (get_token bot_id)
    unfolding get_token
    get_token-IsKeeping bot_id =
        chain-IsKeeping (from_storage (λ storage. build_signature env.digest storage bot_id))
          (λ signature. get_token_execute bot_id (get_token_payload signature))
          (from_storage-IsKeeping (λ storage. build_signature env.digest storage bot_id))
          (λ signature. get_token_execute-IsKeeping bot_id (get_token_payload signature))
