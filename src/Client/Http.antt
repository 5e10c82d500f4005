-- ===== src/Client/Http.antt =====
-- `BotXMethod` of pybotx/client/botx_method.py, and pybotx/client/exceptions. Logging and the connection's release are left out.
use pybotx.Common.{
  ℕ, leb, ltb, ◌&&◌, Option, none, some, List, [], ◌∷◌, ◌++◌, Error, json_decode_error,
  validation_error, attribute_error, Result, ok, err, ◌>>=◌, ◌==◌, if◌then◌else◌,
}
use pybotx.Common.Text.{Str, codes, strip_by}
use pybotx.Common.Dict.{put}
use pybotx.Common.Uuid.{Uuid}
use pybotx.Common.Json.{Json, null, obj, get, Fields, truthy}
use pybotx.Common.Base64.{Bytes}
use pybotx.Bot.Accounts.{BotAccountsStorage, Encode, Digest, get_cts_url}
use pybotx.Client.Action.{
  ErrorClass, invalid_botx_status_code_error, invalid_botx_response_payload_error, HttpResponse,
  Content, no_content, json_content, form_content, Request, Raised, python, from_response,
  network_error, Action, pure, raise, ◌⟫◌,
}

-- The packages: what the server answers to a request after those sent before (`none` for an `HTTPError` of `urllib3`), the
-- clock and the random values at that moment, and the functions of `urllib`, `json`, `jwt` and `hmac`.
pub record Environment : Type 0 where
  pub answer : (before : List Request) → Request → Option HttpResponse
  pub time : (before : List Request) → ℕ
  pub token_hex : (before : List Request) → Str
  pub uuid4 : (before : List Request) → ℕ → Uuid
  pub urlencode : Fields → Str
  pub dumps : Fields → Str
  pub loads : Bytes → Result Json
  pub encode : Encode
  pub digest : Digest
  -- `response.stream(amt=…)` of a response with this content
  pub stream : (amt : ℕ) → Bytes → List Bytes
  -- `model_validate` of `BotXAPIGetTokenResponsePayload`, with the `result`
  pub validate_token : Json → Result Str
  -- `model_validate` of a class whose only field is `status: Literal["ok"]`
  pub validate_status : Json → Result (Unit {0})

-- A handler always raises: it is the exception.
abbrev pub StatusHandler : Type 0
StatusHandler = HttpResponse → Raised

-- A dictionary from statuses to handlers
abbrev pub StatusHandlers : Type 0
StatusHandlers = List (ℕ × StatusHandler)

unfoldable pub status_handler : ℕ → StatusHandlers → Option StatusHandler
status_handler status [] = none
status_handler status ((code, handler) ∷ handlers) =
    if code == status then some handler else status_handler status handlers

unfoldable pub put_handler : ℕ → StatusHandler → StatusHandlers → StatusHandlers
put_handler status handler [] = (status, handler) ∷ []
put_handler status handler ((code, old) ∷ handlers) =
    if code == status
    then (code, handler) ∷ handlers
    else (code, old) ∷ put_handler status handler handlers

-- `{**handlers, …}`
unfoldable pub update_handlers : StatusHandlers → StatusHandlers → StatusHandlers
unfolding put_handler
update_handlers handlers [] = handlers
update_handlers handlers ((status, handler) ∷ more) =
    update_handlers (put_handler status handler handlers) more

-- `response_exception_thrower`
abbrev pub response_exception_thrower : ErrorClass → StatusHandler
response_exception_thrower exc response = from_response exc response

-- `_raise_for_status`
unfoldable pub raise_by_status : Option StatusHandler → HttpResponse → Action HttpResponse
raise_by_status (some handler) response = raise (handler response)
raise_by_status none response =
    if leb 200 response.status && ltb response.status 300
    then pure response
    else raise (from_response invalid_botx_status_code_error response)

unfoldable pub raise_for_status : StatusHandlers → HttpResponse → Action HttpResponse
unfolding status_handler raise_by_status
raise_for_status handlers response =
    raise_by_status (status_handler response.status handlers) response

abbrev strip_slash : Str → Str
strip_slash = strip_by (λ c. c == b'/')

-- `_build_url`
unfoldable pub build_url : BotAccountsStorage → Uuid → Str → Result Str
unfolding get_cts_url strip_by
build_url storage bot_id path =
    get_cts_url storage bot_id >>= λ cts_url. ok (strip_slash cts_url ++ b'/' ∷ strip_slash path)

-- The keyword arguments of a call: none, `json`, `params` or `fields`.
pub data Arguments : Type 0 where
  bare : Arguments
  with_json : Fields → Arguments
  with_params : Fields → Arguments
  with_fields : List (Str × Str) → (filename : Str) → Bytes → Arguments

module _ ⦃env : Environment⦄ where
  abbrev pub full_url : Str → Arguments → Str
  full_url url (with_params params) =
      if truthy (obj params) then url ++ b'?' ∷ env.urlencode params else url
  full_url url bare = url
  full_url url (with_json json) = url
  full_url url (with_fields form filename content) = url

  -- The request that `_botx_method_call` gives to `urllib3`
  unfoldable pub request_of : Str → Str → List (Str × Str) → Arguments → Request
  unfolding put
  request_of method url headers args = record {
    method = method;
    url = full_url url args;
    headers = headers_of args;
    body = body_of args;
  }
    where
      headers_of : Arguments → List (Str × Str)
      headers_of (with_json json) = put (codes "Content-Type") (codes "application/json") headers
      headers_of bare = headers
      headers_of (with_params params) = headers
      headers_of (with_fields form filename content) = headers

      body_of : Arguments → Content
      body_of (with_json json) = json_content (obj json)
      body_of bare = no_content
      body_of (with_params params) = no_content
      body_of (with_fields form filename content) = form_content form filename content

  abbrev pub answered : Request → Option HttpResponse → Action HttpResponse
  answered request (some response) = pure response
  answered request none = raise (network_error request.method request.url)

  -- `_http_client.request`
  abbrev pub perform : Request → Action HttpResponse
  perform request w =
      answered request (env.answer w.sent request) (record w { sent = request ∷ w.sent })

  -- `_botx_method_call`, and `_botx_method_stream` up to its `yield`
  unfoldable pub botx_method_call :
      StatusHandlers → Str → Str → List (Str × Str) → Arguments → Action HttpResponse
  unfolding raise_for_status request_of
  botx_method_call handlers method url headers args =
      perform (request_of method url headers args) ⟫ raise_for_status handlers

  -- `except JSONDecodeError`, and `except ValidationError`
  abbrev loading_error : HttpResponse → Error → Raised
  loading_error response json_decode_error =
      from_response invalid_botx_response_payload_error response
  loading_error response e = python e

  abbrev validation_raised : HttpResponse → Error → Raised
  validation_raised response validation_error =
      from_response invalid_botx_response_payload_error response
  validation_raised response e = python e

  abbrev pub loaded : HttpResponse → Result Json → Action Json
  loaded response (ok raw_model) = pure raw_model
  loaded response (err e) = raise (loading_error response e)

  abbrev pub validated {ℓ} : {A : Type ℓ} → HttpResponse → Result A → Action A
  validated response (ok api_model) = pure api_model
  validated response (err e) = raise (validation_raised response e)

  -- `_verify_and_extract_api_model`, where `validate` is the `model_validate` of the model's class
  unfoldable pub verify_and_extract {ℓ} :
      {A : Type ℓ} → (validate : Json → Result A) → HttpResponse → Action A
  verify_and_extract validate response = loaded response (env.loads response.content) ⟫ λ raw_model.
      validated response (validate raw_model)

  -- `json.loads(response.data).get("reason")`
  abbrev pub reason_of : HttpResponse → Result Json
  reason_of response = env.loads response.content >>= reason_in
    where
      reason_in : Json → Result Json
      reason_in (obj fs) = ok (get (codes "reason") fs)
      reason_in null = err attribute_error
      reason_in _ = err attribute_error

  -- A handler that raises by the reason, unless it cannot read it
  abbrev pub by_reason : (Json → ErrorClass) → StatusHandler
  by_reason choose response = raised_by (reason_of response)
    where
      raised_by : Result Json → Raised
      raised_by (ok reason) = from_response (choose reason) response
      raised_by (err e) = python e
