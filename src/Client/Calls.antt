-- ===== src/Client/Calls.antt =====
-- What an authorized call leaves and gives.
use pybotx.Common.{
  ℕ, ◌≤◌, ◌<◌, leb, ltb, ◌≡◌, refl, ◌∙◌, ap, arith, Bool, true, false, ◌&&◌, if◌then◌else◌, Option,
  none, some, List, [], ◌∷◌, ◌++◌, Result, ok, err, bind_total,
}
use pybotx.Common.Text.{Str, codes, str_eq}
use pybotx.Common.Dict.{lookup, put}
use pybotx.Common.Uuid.{Uuid, uuid_bound}
use pybotx.Common.Json.{Json}
use pybotx.Models.BotAccount.{BotAccountWithSecret, host}
use pybotx.Bot.Verification.{Decode, verify_request}
use pybotx.Bot.Accounts.{
  v2, BotAccountsStorage, get_bot_account, get_cts_url, build_jwt_v2, Reads, own_token_verified,
}
use pybotx.Client.Action.{
  HttpResponse, Request, from_response, invalid_botx_status_code_error, done, World, pure, raise,
  lift, continue, chain_done,
}
use pybotx.Client.Http.{
  Environment, StatusHandler, StatusHandlers, status_handler, raise_by_status, raise_for_status,
  build_url, Arguments, bare, with_json, with_params, with_fields, request_of, answered, loaded,
  validated, verify_and_extract, perform, botx_method_call,
}
use pybotx.Client.Auth.{
  from_storage, token_by, authorization_token, authorization_headers, authorized_call, Endpoint,
  execute,
}

-- A success by status: no handler has the status, and it is 2xx.
abbrev pub IsSuccess : StatusHandlers → HttpResponse → Type 0
IsSuccess handlers response =
    (status_handler response.status handlers ≡ none)
    × (200 ≤ response.status)
    × (response.status < 300)

raise_by_status_done :
    (handler : Option StatusHandler) (response result : HttpResponse) (w w' : World)
    → raise_by_status handler response w ≡ (done result, w')
    → (handler ≡ none)
      × (200 ≤ response.status)
      × (response.status < 300)
      × (response ≡ result)
      × (w ≡ w')
unfolding raise_by_status
raise_by_status_done (some handler) response result w w' h = absurd (cc h)
raise_by_status_done none response result w w' h =
    let (lo, hi, y, z) = by_range (leb 200 response.status && ltb response.status 300) refl h in
    (refl, lo, hi, y, z)
  where
    by_range :
        (b : Bool)
        → (leb 200 response.status && ltb response.status 300) ≡ b
        → (if b
              then pure response
              else raise (from_response invalid_botx_status_code_error response))
            w
          ≡ (done result, w')
        → (200 ≤ response.status) × (response.status < 300) × (response ≡ result) × (w ≡ w')
    by_range true e g = (ground arith, ground arith, cc g, cc g)
    by_range false e g = absurd (cc g)

module _ ⦃env : Environment⦄ where
  answered_done :
      (request : Request) (answer : Option HttpResponse) (response : HttpResponse) (w w' : World)
      → answered request answer w ≡ (done response, w')
      → (answer ≡ some response) × (w ≡ w')
  answered_done request none response w w' h = absurd (cc h)
  answered_done request (some r) response w w' h = (cc h, cc h)

  -- The server has answered a request that was sent last.
  abbrev pub IsAnswered : World → HttpResponse → Type 0
  IsAnswered w response =
      (request : Request) × (before : List Request) × (w.sent ≡ request ∷ before)
      × (env.answer before request ≡ some response)

  -- A call that gives a response: the server gave it to the request that was sent last, its status is 2xx,
  -- and no handler of the method has that status.
  pub authorized_call-IsSuccess :
      (handlers : StatusHandlers) (bot_id : Uuid) (method path : Str) (args : Arguments)
      (w w' : World) (response : HttpResponse)
      → authorized_call handlers bot_id method path args w ≡ (done response, w')
      → IsSuccess handlers response × IsAnswered w' response
  unfolding authorized_call botx_method_call raise_for_status
  authorized_call-IsSuccess handlers bot_id method path args w w' response h =
      chain_done (from_storage (λ storage. build_url storage bot_id path)) _ h (λ url w₁ e₁ h₁.
        chain_done (authorization_token bot_id) _ h₁ (λ token w₂ e₂ h₂.
          let request : Request = request_of method url (authorization_headers token) args in
          chain_done (perform request) _ h₂ (λ r w₃ e₃ h₃.
            let (a, x) =
              answered_done request (env.answer w₂.sent request) r
                (record w₂ { sent = request ∷ w₂.sent }) w₃ e₃ in
            let (n, lo, hi, y, z) =
              raise_by_status_done (status_handler r.status handlers) r response w₃ w' h₃ in
            rw (← y, ← z, ← x) ((n, lo, hi), (request, w₂.sent, refl, a)))))

  raise_by_status-world :
      (handler : Option StatusHandler) (response : HttpResponse) (w : World)
      → (raise_by_status handler response w).1 ≡ w
  unfolding raise_by_status
  raise_by_status-world (some handler) response w = refl
  raise_by_status-world none response w = ground arith

  -- Whatever a call comes to, it leaves its request as the one that was sent last, and changes nothing else.
  pub botx_method_call-world :
      (handlers : StatusHandlers) (method url : Str) (headers : List (Str × Str)) (args : Arguments)
      (w : World)
      → (botx_method_call handlers method url headers args w).1
        ≡ record w { sent = request_of method url headers args ∷ w.sent }
  unfolding botx_method_call raise_for_status
  botx_method_call-world handlers method url headers args w =
      let request : Request = request_of method url headers args in
      by_answer request (env.answer w.sent request)
    where
      by_answer :
          (request : Request) (answer : Option HttpResponse)
          → (continue
              (raise_for_status handlers)
              (answered request answer (record w { sent = request ∷ w.sent }))).1
            ≡ record w { sent = request ∷ w.sent }
      by_answer request none = refl
      by_answer request (some response) =
          raise_by_status-world (status_handler response.status handlers) response
            (record w { sent = request ∷ w.sent })

  Authorization_of :
      (method url token : Str) (args : Arguments)
      → lookup
          (codes "Authorization")
          (request_of method url (authorization_headers token) args).headers
        ≡ some (codes "Bearer " ++ token)
  unfolding request_of lookup put str_eq
  Authorization_of method url token bare = refl
  Authorization_of method url token (with_json json) = refl
  Authorization_of method url token (with_params params) = refl
  Authorization_of method url token (with_fields form filename content) = refl

  -- A call for which the URL and the token are there sends one request with this token.
  pub authorized_call_sent :
      (handlers : StatusHandlers) (bot_id : Uuid) (method path url token : Str) (args : Arguments)
      (w : World)
      → build_url w.storage bot_id path ≡ ok url
      → authorization_token bot_id w ≡ (done token, w)
      → (authorized_call handlers bot_id method path args w).1
        ≡ record w { sent = request_of method url (authorization_headers token) args ∷ w.sent }
  unfolding authorized_call
  authorized_call_sent handlers bot_id method path url token args w b t =
      rw (b, t) (botx_method_call-world handlers method url (authorization_headers token) args w)

  v2_token :
      (bot_id : Uuid) (token : Str) (w : World)
      → w.storage.auth_version ≡ v2
      → build_jwt_v2 env.encode w.storage bot_id (env.time w.sent) (env.token_hex w.sent) ≡ ok token
      → authorization_token bot_id w ≡ (done token, w)
  unfolding authorization_token
  v2_token bot_id token w version b = ap (λ v. token_by v bot_id w) version ∙ ap (λ r. lift r w) b

  pub url_built :
      (storage : BotAccountsStorage) (bot_id : Uuid) (account : BotAccountWithSecret) (path : Str)
      → get_bot_account storage bot_id ≡ ok account
      → (url : Str) × (build_url storage bot_id path ≡ ok url)
  unfolding build_url get_cts_url
  url_built storage bot_id account path found =
      bind_total (get_cts_url storage bot_id) _
        (bind_total (get_bot_account storage bot_id) _ (account, found) (λ a. (a.cts_url, refl)))
        (λ cts_url. (_, refl))

  -- With version 2 of the authorization, a call of a bot that has an account with a 128-bit id and a host that is
  -- not empty sends exactly one request, whatever the answer, and `verify_request`, with the same accounts, accepts its
  -- Authorization header and gives the bot's account, where PyJWT decodes the token that it encoded (`Reads`).
  pub authorized_call_verified :
      (decode : Decode) (trusted_issuers : Option (List Str)) (handlers : StatusHandlers)
      (account : BotAccountWithSecret) (c : ℕ) (h method path : Str) (args : Arguments) (w : World)
      → w.storage.auth_version ≡ v2
      → account.id < uuid_bound
      → get_bot_account w.storage account.id ≡ ok account
      → host account ≡ ok (c ∷ h)
      → Reads decode env.encode account (c ∷ h) (env.time w.sent) (env.token_hex w.sent)
      → (request : Request) × (value : Str) × ((authorized_call handlers account.id method path args
            w).1
          ≡ record w { sent = request ∷ w.sent })
        × (lookup (codes "Authorization") request.headers ≡ some value)
        × (verify_request decode
              (some ((codes "authorization", value) ∷ []))
              w.storage.bot_accounts
              trusted_issuers
            ≡ ok account)
  authorized_call_verified decode trusted_issuers handlers account c h method path args w version
        bound found hosted r =
      let (token, b, v) =
        own_token_verified decode env.encode w.storage trusted_issuers account c h (env.time w.sent)
          (env.token_hex w.sent) bound found hosted r in
      let (url, u) = url_built w.storage account.id account path found in
      (
        request_of method url (authorization_headers token) args,
        codes "Bearer " ++ token,
        authorized_call_sent handlers account.id method path url token args w u
            (v2_token account.id token w version b),
        Authorization_of method url token args,
        v,
      )

  loaded_done :
      (response : HttpResponse) (r : Result Json) (raw : Json) (w w' : World)
      → loaded response r w ≡ (done raw, w')
      → (r ≡ ok raw) × (w ≡ w')
  loaded_done response (ok j) raw w w' h = (cc h, cc h)
  loaded_done response (err e) raw w w' h = absurd (cc h)

  validated_done :
      {A : Type 0} (response : HttpResponse) (r : Result A) (a : A) (w w' : World)
      → validated response r w ≡ (done a, w')
      → (r ≡ ok a) × (w ≡ w')
  validated_done response (ok b) a w w' h = (cc h, cc h)
  validated_done response (err e) a w w' h = absurd (cc h)

  -- A value was read from a successful response to the request that was sent last.
  abbrev pub IsRead : {A : Type 0} → StatusHandlers → (Json → Result A) → World → A → Type 0
  IsRead handlers validate w a =
      (response : HttpResponse) × (raw : Json) × IsSuccess handlers response
      × IsAnswered w response
      × (env.loads response.content ≡ ok raw)
      × (validate raw ≡ ok a)

  -- Where `execute` gives a value, it was read from the response to the request that was sent last:
  -- the status of that response is 2xx, the method has no handler for it, its content is the
  -- JSON value that the value was validated from.
  pub execute-IsRead :
      {A : Type 0} (endpoint : Endpoint) (validate : Json → Result A) (bot_id : Uuid)
      (args : Arguments) (w w' : World) (a : A)
      → execute endpoint validate bot_id args w ≡ (done a, w')
      → IsRead endpoint.handlers validate w' a
  unfolding execute verify_and_extract
  execute-IsRead endpoint validate bot_id args w w' a h =
      chain_done (authorized_call endpoint.handlers bot_id endpoint.method endpoint.path args) _ h
        (λ response w₁ e₁ h₁.
          chain_done (loaded response (env.loads response.content)) _ h₁ (λ raw w₂ e₂ h₂.
            let (success, answered) =
              authorized_call-IsSuccess endpoint.handlers bot_id endpoint.method endpoint.path args
                w w₁ response e₁ in
            let (l, x) = loaded_done response (env.loads response.content) raw w₁ w₂ e₂ in
            let (d, y) = validated_done response (validate raw) a w₂ w' h₂ in
            rw (← y, ← x) (response, raw, success, answered, l, d)))
