-- ===== src/Bot/Resources/Requests.antt =====
-- What the resources take and give: commands, responses, the menu, and the parts of a request. What a
-- request does is the list of the handlers it calls, with their arguments, and its response or the
-- exception that reaches the server.
use pybotx.Common.{
  Bool, Option, List, [], ◌∷◌, ◌++◌, map, head?, Error, index_error, attribute_error, value_error,
  validation_error, unverified_request, Result, ok, err, or_raise, ◌>>=◌, if◌then◌else◌,
}
use pybotx.Common.Text.{Str, codes, lower, split, str_eq}
use pybotx.Common.Uuid.{Uuid, print_uuid}
use pybotx.Common.Dict.{put}
use pybotx.Common.Json.{Json, null, obj, is_str, Fields, end, field}
use pybotx.Models.Enums.{
  BotApiSystemEventTypes, OrText, Incoming, ApiChatTypes, ChatTypes, convert_chat_type_to_domain,
}
use pybotx.Models.Message.{IncomingMessage, BotApiIncomingMessage, to_domain}
use pybotx.Models.SystemEvents
use pybotx.Bot.Verification.{Decode}
use pybotx.Bot.Accounts.{BotAccountsStorage}

-- `BotCommand`
pub data BotCommand : Type 0 where
  message : IncomingMessage → BotCommand
  event : SystemEvents.SystemEvent → BotCommand

-- `command.bot.id`
abbrev pub bot_id_of : BotCommand → Uuid
bot_id_of (message m) = m.bot.id
bot_id_of (event e) = (SystemEvents.event_base e).bot.id

pub record BotApiBotMenuItem : Type 0 where
  pub description : Str
  pub body : Str
  pub name : Str

-- `BotAPIStatus` with its constant fields left out
pub record BotApiStatus : Type 0 where
  pub commands : List BotApiBotMenuItem
  pub status_message : Str

-- `build_bot_status_response`; a menu is a dictionary from commands to descriptions
unfoldable pub build_bot_status_response : List (Str × Str) → BotApiStatus
build_bot_status_response bot_menu = record {
  commands = map (λ item. record { body = item.0; name = item.0; description = item.1 }) bot_menu;
  status_message = codes "Bot is working";
}

-- The responses: HTTP 200 with the accepted command, the received callback or the status, and HTTP 401
-- with the message of `UnverifiedRequestError`.
pub data Response : Type 0 where
  accepted callback_received : Response
  status : BotApiStatus → Response
  unverified : Str → Response

-- `BotAPIStatusRecipient` and `StatusRecipient`
pub record BotApiStatusRecipient : Type 0 where
  pub bot_id : Uuid
  pub user_huid : Uuid
  pub ad_login : Option Str
  pub ad_domain : Option Str
  pub is_admin : Option Bool
  pub chat_type : OrText ApiChatTypes

pub record StatusRecipient : Type 0 where
  pub bot_id : Uuid
  pub huid : Uuid
  pub ad_login : Option Str
  pub ad_domain : Option Str
  pub is_admin : Option Bool
  pub chat_type : Incoming ChatTypes

unfoldable pub recipient_to_domain : BotApiStatusRecipient → Result StatusRecipient
recipient_to_domain api = convert_chat_type_to_domain api.chat_type >>= λ chat_type. ok (record {
  bot_id = api.bot_id;
  huid = api.user_huid;
  ad_login = api.ad_login;
  ad_domain = api.ad_domain;
  is_admin = api.is_admin;
  chat_type = chat_type;
})

-- `StatusRecipient.from_incoming_message`
unfoldable pub from_incoming_message : IncomingMessage → StatusRecipient
from_incoming_message m = record {
  bot_id = m.bot.id;
  huid = m.sender.huid;
  ad_login = m.sender.ad_login;
  ad_domain = m.sender.ad_domain;
  is_admin = m.sender.is_chat_admin;
  chat_type = m.chat.type;
}

-- What pydantic calls on three fields of a status recipient before it validates them
unfoldable pub replace_empty_string : Json → Json
replace_empty_string field_value = if is_str field_value (codes "") then null else field_value

-- `{key.lower(): value for key, value in headers.items()}`: a later key overwrites
unfoldable pub lower_headers_into : List (Str × Str) → List (Str × Str) → List (Str × Str)
unfolding put lower
lower_headers_into d [] = d
lower_headers_into d ((key, value) ∷ headers) = lower_headers_into (put (lower key) value d) headers

unfoldable pub lower_headers : List (Str × Str) → List (Str × Str)
unfolding lower_headers_into
lower_headers headers = lower_headers_into [] headers

-- `except ValidationError as e: raise ValueError(…) from e`
unfoldable pub catch_validation_error {ℓ} : {A : Type ℓ} → Result A → Result A
catch_validation_error (err validation_error) = err value_error
catch_validation_error (err e) = err e
catch_validation_error (ok a) = ok a

-- `d.get(k, default)` with the default `{}`, and `.get(k)` of what it gives
unfoldable pub get_or_empty : Str → Fields → Json
unfolding str_eq
get_or_empty k end = obj end
get_or_empty k (field j v fs) = if str_eq j k then v else get_or_empty k fs

unfoldable pub get_of : Str → Json → Result Json
get_of k (obj end) = ok null
get_of k (obj (field j v fs)) = if str_eq j k then ok v else get_of k (obj fs)
get_of k _ = err attribute_error

unfoldable pub command_type_of : Json → Result Json
command_type_of (obj raw_command) =
    get_of (codes "command_type") (get_or_empty (codes "command") raw_command)
command_type_of _ = err attribute_error

-- What the raw command validates as.
pub data BotApiCommand : Type 0 where
  api_message : BotApiIncomingMessage → BotApiCommand
  api_event : SystemEvents.BotApiSystemEvent → BotApiCommand

unfoldable pub command_to_domain : BotApiCommand → Fields → Result BotCommand
command_to_domain (api_message m) raw_command = to_domain m raw_command >>= λ d. ok (message d)
command_to_domain (api_event e) raw_command =
    SystemEvents.event_to_domain e raw_command >>= λ d. ok (event d)

abbrev pub mismatch : Str → Uuid → Uuid → Error
mismatch name token given = unverified_request (
    codes "Bot ID mismatch: token="
    ++ (print_uuid token ++ (codes ", " ++ (name ++ b'=' ∷ print_uuid given))))

-- `body.split()[0] if body else ""`
unfoldable pub command_bot : Str → Result Str
command_bot [] = ok []
command_bot (c ∷ s) = or_raise index_error (head? (split (c ∷ s)))

-- The fields of a JSON object, which `to_domain` keeps.
abbrev pub fields_of : Json → Fields
fields_of (obj fields) = fields
fields_of _ = end

-- `type(event)`, a key of the dictionary of handlers
unfoldable pub event_type : SystemEvents.SystemEvent → BotApiSystemEventTypes
event_type (SystemEvents.smartapp_event b d files chat sender) =
    BotApiSystemEventTypes.smartapp_event
event_type (SystemEvents.internal_bot_notification b n opts chat sender) =
    BotApiSystemEventTypes.internal_bot_notification
event_type (SystemEvents.chat_created b chat sync_id chat_name creator_id members) =
    BotApiSystemEventTypes.chat_created
event_type (SystemEvents.chat_deleted_by_user b sync_id chat_id huid) =
    BotApiSystemEventTypes.chat_deleted_by_user
event_type (SystemEvents.added_to_chat b huids chat) = BotApiSystemEventTypes.added_to_chat
event_type (SystemEvents.deleted_from_chat b huids chat) = BotApiSystemEventTypes.deleted_from_chat
event_type (SystemEvents.left_from_chat b huids chat) = BotApiSystemEventTypes.left_from_chat
event_type (SystemEvents.join_to_chat b huids chat) = BotApiSystemEventTypes.join_to_chat
event_type (SystemEvents.cts_login b huid) = BotApiSystemEventTypes.cts_login
event_type (SystemEvents.cts_logout b huid) = BotApiSystemEventTypes.cts_logout
event_type (SystemEvents.event_deleted b deleted_at group_chat_id sync_ids meta) =
    BotApiSystemEventTypes.event_deleted
event_type (SystemEvents.event_edit b body sync_id chat_id huid attachments entities) =
    BotApiSystemEventTypes.event_edit
event_type (SystemEvents.conference_changed b c t) = BotApiSystemEventTypes.conference_changed
event_type (SystemEvents.conference_created b call_id) = BotApiSystemEventTypes.conference_created
event_type (SystemEvents.conference_deleted b call_id) = BotApiSystemEventTypes.conference_deleted

-- What the resources are built with: the storage, the switch of verification, the handlers, and the menu.
pub record Resources (C : Type 0) : Type 0 where
  pub storage : BotAccountsStorage
  pub verify_requests : Bool
  pub commands : List (Str × C)
  pub events : BotApiSystemEventTypes → Option C
  pub bot_menu : List (Str × Str)

-- The functions of packages: `jwt.decode`, the validations, and the handlers' `execute`. `K` is a callback.
pub record Packages (C K : Type 0) : Type 0 where
  pub decode : Decode
  pub validate_message : Json → Result BotApiIncomingMessage
  pub validate_event : Json → Result SystemEvents.BotApiSystemEvent
  pub validate_callback : Json → Result K
  pub validate_recipient : List (Str × Str) → Result BotApiStatusRecipient
  pub execute : C → BotCommand → Result (Unit {0})
  pub execute_callback : K → Result (Unit {0})

-- The calls of handlers, and the response or exception.
abbrev pub Outcome : Type 0 → Type 0
Outcome A = List A × Result Response
