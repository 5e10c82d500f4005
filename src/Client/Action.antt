-- ===== src/Client/Action.antt =====
-- What a method of the client does: it changes the tokens that the storage keeps, sends requests, and gives
-- a value or raises. What was sent or stored stays so after an exception.
use pybotx.Common.{ℕ, ◌≡◌, refl, List, Error, Result, ok, err}
use pybotx.Common.Text.{Str}
use pybotx.Common.Json.{Json}
use pybotx.Common.Base64.{Bytes}
use pybotx.Bot.Accounts.{BotAccountsStorage}

-- The classes of pybotx/client/exceptions that carry the response, by their names.
pub data ErrorClass : Type 0 where
  invalid_botx_status_code_error invalid_botx_response_payload_error : ErrorClass
  invalid_bot_account_error rate_limit_reached_error permission_denied_error chat_not_found_error :
      ErrorClass
  cant_update_personal_chat_error invalid_users_list_error chat_creation_prohibited_error
        chat_creation_error :
      ErrorClass
  chat_link_creation_prohibited_error chat_link_creation_error thread_already_exists_error :
      ErrorClass
  thread_creation_error thread_creation_prohibited_error event_not_found_error
        message_not_found_error :
      ErrorClass
  file_deleted_error file_metadata_not_found file_type_not_allowed : ErrorClass
  bot_is_not_chat_member_error final_recipients_list_empty_error stealth_mode_disabled_error :
      ErrorClass
  user_not_found_error invalid_profile_data_error no_user_kind_selected_error
        user_profile_update_unavailable_error :
      ErrorClass
  sync_smartapp_event_handler_not_found_error sticker_pack_or_sticker_not_found_error
        invalid_emoji_error invalid_image_error :
      ErrorClass
  call_not_found_error conference_not_found_error : ErrorClass

-- What the sources read of a `urllib3` response.
pub record HttpResponse : Type 0 where
  pub status : ℕ
  pub content : Bytes

-- The body of a request: none, a JSON value that is dumped, or a form with a file.
pub data Content : Type 0 where
  no_content : Content
  json_content : Json → Content
  form_content : List (Str × Str) → (filename : Str) → Bytes → Content

pub record Request : Type 0 where
  pub method : Str
  pub url : Str
  pub headers : List (Str × Str)
  pub body : Content

-- An exception: one of Python or of a package, one of the client with or without a response, or a network error.
pub data Raised : Type 0 where
  python : Error → Raised
  from_response : ErrorClass → HttpResponse → Raised
  without_response : ErrorClass → Raised
  network_error : (method url : Str) → Raised

pub data Outcome {ℓ} (A : Type ℓ) : Type ℓ where
  done : A → Outcome A
  raised : Raised → Outcome A

-- The accounts with the tokens, and the requests that were sent, the last one first.
pub record World : Type 0 where
  pub storage : BotAccountsStorage
  pub sent : List Request

abbrev pub Action {ℓ} : Type ℓ → Type ℓ
Action A = World → Outcome A × World

module _ {ℓ} {A : Type ℓ} where
  abbrev pub pure : A → Action A
  pure a w = (done a, w)

  abbrev pub raise : Raised → Action A
  raise e w = (raised e, w)

  -- A computation that sends nothing.
  abbrev pub lift : Result A → Action A
  lift (ok a) w = (done a, w)
  lift (err e) w = (raised (python e), w)

-- The rest of a chain, after what its first part has come to.
abbrev pub continue {ℓ κ} :
    {A : Type ℓ} {B : Type κ} → (A → Action B) → Outcome A × World → Outcome B × World
continue k (done a, w) = k a w
continue k (raised e, w) = (raised e, w)

infixl 4 ◌⟫◌
abbrev pub ◌⟫◌ {ℓ κ} : {A : Type ℓ} {B : Type κ} → Action A → (A → Action B) → Action B
◌⟫◌ m k w = continue k (m w)

continue_done {ℓ κ μ} :
    {A : Type ℓ} {B : Type κ} {P : Type μ} (k : A → Action B) (r : Outcome A × World) {w' : World}
    {b : B}
    → continue k r ≡ (done b, w')
    → ((a : A) (v : World) → r ≡ (done a, v) → k a v ≡ (done b, w') → P)
    → P
continue_done k (done a, v) h next = next a v refl h
continue_done k (raised e, v) h next = absurd (cc h)

-- A chain that gives a value: its first part gave one.
pub chain_done {ℓ κ μ} :
    {A : Type ℓ} {B : Type κ} {P : Type μ} (m : Action A) (k : A → Action B) {w w' : World} {b : B}
    → (m ⟫ k) w ≡ (done b, w')
    → ((a : A) (v : World) → m w ≡ (done a, v) → k a v ≡ (done b, w') → P)
    → P
chain_done m k {w = w} h next = continue_done k (m w) h next
