-- ===== src/Client/SmartApps/Events.antt =====
-- Events and notifications of smart apps.
use pybotx.Common.{ℕ, Bool, Option, List, [], ◌∷◌, Result, ok, map_result, ◌>>=◌, if◌then◌else◌}
use pybotx.Common.Text.{Str, codes, str_eq}
use pybotx.Common.Uuid.{Uuid}
use pybotx.Common.Json.{obj, Fields, field}
use pybotx.Missing.{Missing, undefined, given}
use pybotx.Models.Files.{File, ApiAsyncFile, async_file_dump, convert_async_file_from_domain}
use pybotx.Models.ApiBase.{
  list, dict, Entries, entry, values_of, missing_value, optional_value, text_value, int_value,
  bool_value, uuid_value, dict_value, jsonable_dict,
}
use pybotx.Client.Action.{Action, lift, ◌⟫◌}
use pybotx.Client.Http.{Environment, with_json}
use pybotx.Client.Auth.{status_handlers, Endpoint, execute}

abbrev pub smartapp_api_version : ℕ
smartapp_api_version = 1

-- The arguments of `send_smartapp_event`
pub record SmartAppEvent : Type 0 where
  pub bot_id : Uuid
  pub chat_id : Uuid
  pub event_data : Fields
  pub encrypted : Bool
  pub ref : Missing (Option Uuid)
  pub opts : Missing Fields
  pub files : Missing (List File)

-- `api_async_files`: an empty list is taken for none.
unfoldable pub async_files_of : Missing (List File) → Result (Missing (List ApiAsyncFile))
unfolding convert_async_file_from_domain
async_files_of undefined = ok undefined
async_files_of (given []) = ok undefined
async_files_of (given (file ∷ files)) =
    map_result convert_async_file_from_domain (file ∷ files) >>= λ api_files. ok (given api_files)

abbrev event_dump : SmartAppEvent → Missing (List ApiAsyncFile) → Entries
event_dump e files = entry (codes "ref") (missing_value (optional_value uuid_value) e.ref) (
    entry (codes "smartapp_id") (uuid_value e.bot_id) (
      entry (codes "group_chat_id") (uuid_value e.chat_id) (
        entry (codes "data") (dict_value e.event_data) (
          entry (codes "opts") (missing_value dict_value e.opts) (
            entry (codes "smartapp_api_version") (int_value smartapp_api_version) (
              entry (codes "async_files")
                (missing_value (λ fs. list (values_of (λ f. dict (async_file_dump f)) fs)) files)
                (entry (codes "encrypted") (bool_value e.encrypted) Entries.end)))))))

-- `BotXAPISmartAppEventRequestPayload.from_domain`
unfoldable pub smartapp_event_payload : SmartAppEvent → Result Entries
unfolding async_files_of async_file_dump
smartapp_event_payload e = async_files_of e.files >>= λ files. ok (event_dump e files)

-- `BotXAPISmartAppNotificationRequestPayload.from_domain`
unfoldable pub smartapp_notification_payload :
    (chat_id : Uuid) (smartapp_counter : ℕ) (body : Missing Str) (opts meta : Missing Fields)
    → Entries
smartapp_notification_payload chat_id smartapp_counter body opts meta =
    entry (codes "group_chat_id") (uuid_value chat_id) (
      entry (codes "smartapp_counter") (int_value smartapp_counter) (
        entry (codes "body") (missing_value text_value body) (
          entry (codes "opts") (missing_value dict_value opts) (
            entry (codes "meta") (missing_value dict_value meta) (
              entry (codes "smartapp_api_version") (int_value smartapp_api_version) Entries.end)))))

-- `json["opts"] = json.get("opts", {})`
unfoldable pub with_opts : Fields → Fields
unfolding str_eq
with_opts Fields.end = field (codes "opts") (obj Fields.end) Fields.end
with_opts (field k v fs) =
    let rest = with_opts fs in if str_eq k (codes "opts") then field k v fs else field k v rest

unfoldable pub smartapp_event_method : Endpoint
smartapp_event_method = record {
  method = codes "POST";
  path = codes "/api/v3/botx/smartapps/event";
  handlers = status_handlers;
}

unfoldable pub smartapp_notification_method : Endpoint
smartapp_notification_method = record {
  method = codes "POST";
  path = codes "/api/v3/botx/smartapps/notification";
  handlers = status_handlers;
}

module _ ⦃env : Environment⦄ where
  unfoldable pub send_smartapp_event : SmartAppEvent → Action (Unit {0})
  unfolding smartapp_event_payload jsonable_dict with_opts execute smartapp_event_method
  send_smartapp_event event = lift (smartapp_event_payload event) ⟫ λ payload.
      execute smartapp_event_method env.validate_status event.bot_id
        (with_json (with_opts (jsonable_dict payload)))

  unfoldable pub send_smartapp_notification :
      (bot_id chat_id : Uuid) (smartapp_counter : ℕ) (body : Missing Str)
      (opts meta : Missing Fields)
      → Action (Unit {0})
  unfolding smartapp_notification_payload jsonable_dict with_opts execute
      smartapp_notification_method
  send_smartapp_notification bot_id chat_id smartapp_counter body opts meta =
      execute smartapp_notification_method env.validate_status bot_id (
        with_json (
          with_opts (
            jsonable_dict (smartapp_notification_payload chat_id smartapp_counter body opts meta))))
