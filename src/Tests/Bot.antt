-- ===== src/Tests/Bot.antt =====
-- Concrete accounts, tokens and requests.
use pybotx.Common.{
  ℕ, ◌==◌, ◌≡◌, ◌⊎◌, refl, true, if◌then◌else◌, none, some, List, [], ◌∷◌, ◌++◌, In, inl, ok, err,
  index_error, unknown_bot_account, unverified_request, arith,
}
use pybotx.Common.Text.{Str, codes, is_space, str_eq, split, lower, lower_char}
use pybotx.Common.Uuid.{print_uuid, parse_uuid, parse_uuid-print_uuid, hex_digits, hex_char}
use pybotx.Common.Dict
use pybotx.Common.Json
use pybotx.Models.BotAccount
use pybotx.Bot.Verification
use pybotx.Bot.Accounts
use pybotx.Bot.Resources
use pybotx.Models.Message
use pybotx.Models.Attachments
use pybotx.Models.Enums
use pybotx.Tests.Commands.{a_command, the_message, a_login}

abbrev pub account : BotAccount.BotAccountWithSecret
account = record { id = 9; cts_url = codes "https://h"; secret_key = codes "s" }

abbrev pub storage : Accounts.BotAccountsStorage
storage = record {
  bot_accounts = account ∷ [];
  auth_tokens = [];
  auth_version = Accounts.BotXAuthVersion.v2;
}

abbrev payload : Json.Fields
payload = Accounts.jwt_payload 9 (codes "h") 0 (codes "j")

abbrev pub decode : Verification.Decode
decode call = ok payload

abbrev pub encode : Accounts.Encode
encode claims key = codes "t"

pub host_of_account : BotAccount.host account ≡ ok (codes "h")
unfolding BotAccount.host BotAccount.hostname
host_of_account = refl

pub known_account : Accounts.get_bot_account storage 9 ≡ ok account
unfolding Accounts.get_bot_account Accounts.account_in
known_account = refl

own_token_verified_example :
    (token : Str) × (Accounts.build_jwt_v2 encode storage account.id 0 (codes "j") ≡ ok token)
    × (Verification.verify_request decode
          (some ((codes "authorization", codes "Bearer " ++ token) ∷ []))
          storage.bot_accounts
          none
        ≡ ok account)
unfolding is_space
own_token_verified_example =
    Accounts.own_token_verified decode encode storage none account b'h' [] 0 (codes "j")
      (omega arith) known_account host_of_account
      (record {
        start = b't';
        token = [];
        encoded = refl;
        word = (refl, tt);
        read = refl;
        verified = refl;
      })

abbrev headers : List (Str × Str)
headers = (codes "authorization", codes "Bearer t") ∷ []

verified : Verification.verify_request decode (some headers) storage.bot_accounts none ≡ ok account
unfolding Verification.verify_request Verification.header_of Dict.lookup str_eq split is_space
    Verification.catch_decode_error Verification.is_v2_payload Json.is_two Json.get
    Verification.verify_request_v2 Verification.issuer_of Verification.issuer_uuid parse_uuid
    print_uuid Verification.get_bot_account Verification.audience_of BotAccount.host
    BotAccount.hostname Verification.catch_invalid_token hex_digits hex_char
verified = refl

verify_request_sound_example :
    In account storage.bot_accounts × Verification.IsVerified decode headers none account
verify_request_sound_example =
    Verification.verify_request_sound decode headers storage.bot_accounts none account verified

set_token_lem_example :
    (Accounts.get_token_or_none (Accounts.set_token storage 9 (codes "x")) 9
      ≡ (if 9 == 9 then some (codes "x") else Accounts.get_token_or_none storage 9))
    × (Accounts.get_bot_account (Accounts.set_token storage 9 (codes "x")) 9
        ≡ Accounts.get_bot_account storage 9)
set_token_lem_example = Accounts.set_token_lem storage 9 9 (codes "x")

get_bot_account_lem_example :
    ((found : BotAccount.BotAccountWithSecret) × (Accounts.get_bot_account storage 9 ≡ ok found)
      × In found storage.bot_accounts
      × (found.id ≡ 9))
    ⊎ ((Accounts.get_bot_account storage 9 ≡ err (unknown_bot_account 9))
        × Accounts.HasNoId 9 storage.bot_accounts)
get_bot_account_lem_example = Accounts.get_bot_account_lem storage 9

abbrev recipient : Resources.BotApiStatusRecipient
recipient = record {
  bot_id = 9;
  user_huid = 1;
  ad_login = none;
  ad_domain = none;
  is_admin = none;
  chat_type = Enums.OrText.text (codes "?");
}

abbrev packages_for : Message.BotApiIncomingMessage → Resources.Packages ℕ ℕ
packages_for command = record {
  decode = decode;
  validate_message = λ _. ok command;
  validate_event = λ _. ok a_login;
  validate_callback = λ _. ok 5;
  validate_recipient = λ _. ok recipient;
  execute = λ _ _. ok tt;
  execute_callback = λ _. ok tt;
}

abbrev resources : Resources.Resources ℕ
resources = record {
  storage = storage;
  verify_requests = true;
  commands = (codes "/echo", 3) ∷ [];
  events = λ _. none;
  bot_menu = (codes "/echo", codes "says it") ∷ [];
}

abbrev raw_command : Json.Json
raw_command = Json.Json.obj (
    Json.Fields.field (codes "command")
      (Json.Json.obj
        (Json.Fields.field (codes "command_type") (Json.Json.str (codes "user")) Json.Fields.end))
      Json.Fields.end)

abbrev sent_headers : List (Str × Str)
sent_headers = (codes "Authorization", codes "Bearer t") ∷ []

headers_lowered : Resources.lower_headers sent_headers ≡ headers
unfolding Resources.lower_headers Resources.lower_headers_into Dict.put lower lower_char
headers_lowered = refl

request_verified :
    Resources.verify_resource_request decode storage true (Resources.lower_headers sent_headers)
    ≡ ok account
unfolding Resources.verify_resource_request
request_verified = rw headers_lowered verified

abbrev received : Message.IncomingMessage
received = record the_message { raw_command = some (Resources.fields_of raw_command) }

parsed :
    Resources.parse_command
      (packages_for a_command)
      resources
      raw_command
      (Resources.lower_headers sent_headers)
    ≡ ok (Resources.BotCommand.message received)
unfolding Resources.parse_command Resources.catch_validation_error Resources.validate_command
    Resources.command_type_of Resources.get_or_empty Resources.get_of Json.is_str
    Resources.command_to_domain Message.to_domain Message.platform_of
    Enums.convert_client_platform_to_domain Enums.client_platform_to_domain_mapping
    Enums.convert_chat_type_to_domain Enums.chat_type_to_domain_mapping Enums.member?
    Enums.api_chat_types_value str_eq Message.attach_first Message.attach
    Attachments.convert_api_attachment_to_domain Message.collect_entities Message.collect
    Message.convert_bot_api_entity_to_domain Message.convert_bot_api_mention_to_domain
    Message.mention_of_type Message.mentioned
parsed = rw request_verified refl

handled :
    (Resources.on_command (packages_for a_command) resources raw_command sent_headers).0
    ≡ (3, Resources.BotCommand.message received) ∷ []
unfolding Resources.on_command Resources.handler_of Resources.command_bot split is_space Dict.lookup
handled = rw parsed refl

handler_verified_example :
    (Resources.handler_of (packages_for a_command) resources (Resources.BotCommand.message received)
      ≡ ok (some 3))
    × ((found : BotAccount.BotAccountWithSecret) × Resources.IsVerifiedFor
          (packages_for a_command)
          resources
          sent_headers
          found
        × (Resources.bot_id_of (Resources.BotCommand.message received) ≡ found.id))
handler_verified_example =
    Resources.handler_verified (packages_for a_command) resources raw_command sent_headers 3
      (Resources.BotCommand.message received) refl (rw handled (inl refl))

called_back :
    (Resources.on_callback (packages_for a_command) resources raw_command sent_headers).0 ≡ 5 ∷ []
unfolding Resources.on_callback Resources.parse_callback
called_back = rw request_verified refl

callback_verified_example :
    (found : BotAccount.BotAccountWithSecret) × Resources.IsVerifiedFor
      (packages_for a_command)
      resources
      sent_headers
      found
callback_verified_example =
    Resources.callback_verified (packages_for a_command) resources raw_command sent_headers 5 refl
      (rw called_back (inl refl))

abbrev menu : Resources.BotApiStatus
menu = record {
  commands =
      record { body = codes "/echo"; name = codes "/echo"; description = codes "says it" } ∷ [];
  status_message = codes "Bot is working";
}

shown :
    Resources.on_status (packages_for a_command) resources [] sent_headers
    ≡ ok (Resources.Response.status menu)
unfolding Resources.on_status Resources.single_params Resources.get_status
    Resources.catch_validation_error Resources.recipient_to_domain Enums.convert_chat_type_to_domain
    Enums.member? Enums.api_chat_types_value str_eq Resources.build_bot_status_response
shown = rw request_verified refl

status_verified_example :
    (menu ≡ Resources.build_bot_status_response resources.bot_menu)
    × ((found : BotAccount.BotAccountWithSecret) × Resources.IsVerifiedFor
          (packages_for a_command)
          resources
          sent_headers
          found)
status_verified_example =
    Resources.status_verified (packages_for a_command) resources [] sent_headers menu refl shown

abbrev blank_command : Message.BotApiIncomingMessage
blank_command = record a_command {
  payload = record {
    body = codes "  ";
    command_data = Json.Fields.end;
    metadata = Json.Fields.end;
  };
}

abbrev blank_message : Message.IncomingMessage
blank_message = record received { body = codes "  " }

blank_parsed :
    Resources.parse_command
      (packages_for blank_command)
      resources
      raw_command
      (Resources.lower_headers sent_headers)
    ≡ ok (Resources.BotCommand.message blank_message)
unfolding Resources.parse_command Resources.catch_validation_error Resources.validate_command
    Resources.command_type_of Resources.get_or_empty Resources.get_of Json.is_str
    Resources.command_to_domain Message.to_domain Message.platform_of
    Enums.convert_client_platform_to_domain Enums.client_platform_to_domain_mapping
    Enums.convert_chat_type_to_domain Enums.chat_type_to_domain_mapping Enums.member?
    Enums.api_chat_types_value str_eq Message.attach_first Message.attach
    Attachments.convert_api_attachment_to_domain Message.collect_entities Message.collect
    Message.convert_bot_api_entity_to_domain Message.convert_bot_api_mention_to_domain
    Message.mention_of_type Message.mentioned
blank_parsed = rw request_verified refl

blank_body_example :
    Resources.on_command (packages_for blank_command) resources raw_command sent_headers
    ≡ ([], err index_error)
unfolding is_space
blank_body_example =
    Resources.blank_body (packages_for blank_command) resources raw_command sent_headers
      blank_message b' ' (codes " ") blank_parsed refl (refl, (refl, tt))

abbrev nobody : Resources.Resources ℕ
nobody = record resources { storage = record storage { bot_accounts = [] } }

carried : Verification.Carries decode (Resources.lower_headers sent_headers) (codes "t") payload
unfolding Dict.lookup str_eq split is_space
carried = record {
  start = b'B';
  header = codes "earer t";
  given = rw headers_lowered refl;
  last = refl;
  read = refl;
}

unknown_bot_escapes_example :
    Resources.on_command (packages_for a_command) nobody raw_command sent_headers
    ≡ ([], err (unknown_bot_account 9))
unfolding Verification.is_v2_payload Json.get str_eq Json.is_two
unknown_bot_escapes_example =
    Resources.unknown_bot_escapes (packages_for a_command) nobody raw_command sent_headers
      (codes "t") (print_uuid 9) 9 payload refl carried refl refl
      (parse_uuid-print_uuid 9 (omega arith)) tt

abbrev payload_v1 : Json.Fields
payload_v1 =
    Json.Fields.field (codes "aud")
      (Json.Json.arr (Json.Items.cons (Json.Json.str (print_uuid 9)) Json.Items.nil))
      Json.Fields.end

carried_v1 : Verification.Carries (λ call. ok payload_v1) headers (codes "t") payload_v1
unfolding Dict.lookup str_eq split is_space
carried_v1 = record {
  start = b'B';
  header = codes "earer t";
  given = refl;
  last = refl;
  read = refl;
}

unknown_bot_v1_example :
    Verification.verify_request (λ call. ok payload_v1) (some headers) [] none
    ≡ err
        (unverified_request (codes "No bot account with bot_id: `" ++ (print_uuid 9 ++ b'`' ∷ [])))
unfolding Verification.is_v2_payload Json.get str_eq Json.is_two
unknown_bot_v1_example =
    Verification.unknown_bot_v1 (λ call. ok payload_v1) headers [] none (codes "t") payload_v1
      (print_uuid 9) 9 carried_v1 refl refl (parse_uuid-print_uuid 9 (omega arith)) tt
