-- ===== src/Client/SmartApps/Methods.antt =====
-- The other methods of `Client` for smart apps.
use pybotx.Common.{ℕ, Bool, Option, List, [], ◌∷◌, map, Result}
use pybotx.Common.Text.{Str, codes}
use pybotx.Common.Uuid.{Uuid}
use pybotx.Common.Json.{Json, Fields}
use pybotx.Common.Base64.{Bytes}
use pybotx.Missing.{Missing}
use pybotx.Models.ApiBase.{
  dict, Entries, entry, missing_value, text_value, int_value, uuid_value, dict_value, jsonable_dict,
}
use pybotx.Client.Action.{file_type_not_allowed, Action, pure, ◌⟫◌}
use pybotx.Client.Http.{
  Environment, response_exception_thrower, update_handlers, with_json, with_params, with_fields,
}
use pybotx.Client.Auth.{status_handlers, Endpoint, execute}
use pybotx.Client.Files.{Buffer, copy_buffer, file_chunk_size, enough_fuel, bytes_or_none}

pub record SmartApp : Type 0 where
  pub app_id : Str
  pub enabled : Bool
  pub id : Uuid
  pub name : Str
  pub avatar : Option Str
  pub avatar_preview : Option Str

-- `BotXAPISmartAppEntity`
pub record ApiSmartApp : Type 0 where
  pub app_id : Str
  pub enabled : Bool
  pub id : Uuid
  pub name : Str
  pub avatar : Option Str
  pub avatar_preview : Option Str

-- `BotXAPISmartAppsListResult`
pub record ApiSmartApps : Type 0 where
  pub phonebook_version : ℕ
  pub smartapps : List ApiSmartApp

abbrev smartapp_to_domain : ApiSmartApp → SmartApp
smartapp_to_domain a = record {
  app_id = a.app_id;
  enabled = a.enabled;
  id = a.id;
  name = a.name;
  avatar = a.avatar;
  avatar_preview = a.avatar_preview;
}

-- `BotXAPISmartAppsListResponsePayload.to_domain`
unfoldable pub smartapps_to_domain : ApiSmartApps → List SmartApp × ℕ
smartapps_to_domain result = (map smartapp_to_domain result.smartapps, result.phonebook_version)

unfoldable pub smartapps_list_payload : (version : Missing ℕ) → Entries
smartapps_list_payload version =
    entry (codes "version") (missing_value int_value version) Entries.end

unfoldable pub custom_notification_payload :
    (group_chat_id : Uuid) (title body : Str) (meta : Missing Fields) → Entries
custom_notification_payload group_chat_id title body meta =
    entry (codes "group_chat_id") (uuid_value group_chat_id) (
      entry (codes "payload")
        (dict (
          entry (codes "title") (text_value title)
            (entry (codes "body") (text_value body) Entries.end)))
        (entry (codes "meta") (missing_value dict_value meta) Entries.end))

unfoldable pub unread_counter_payload : (group_chat_id : Uuid) (counter : ℕ) → Entries
unread_counter_payload group_chat_id counter =
    entry (codes "group_chat_id") (uuid_value group_chat_id)
      (entry (codes "counter") (int_value counter) Entries.end)

unfoldable pub smartapps_list_method : Endpoint
smartapps_list_method = record {
  method = codes "GET";
  path = codes "/api/v3/botx/smartapps/list";
  handlers = status_handlers;
}

unfoldable pub custom_notification_method : Endpoint
custom_notification_method = record {
  method = codes "POST";
  path = codes "/api/v4/botx/smartapps/notification";
  handlers = status_handlers;
}

unfoldable pub unread_counter_method : Endpoint
unread_counter_method = record {
  method = codes "POST";
  path = codes "/api/v4/botx/smartapps/unread_counter";
  handlers = status_handlers;
}

unfoldable pub upload_static_file_method : Endpoint
unfolding update_handlers
upload_static_file_method = record {
  method = codes "POST";
  path = codes "/api/v3/botx/smartapps/upload_file";
  handlers =
      update_handlers status_handlers
        ((400, response_exception_thrower file_type_not_allowed) ∷ []);
}

module _ ⦃env : Environment⦄ where
  unfoldable pub get_smartapps_list :
      (validate : Json → Result ApiSmartApps)
      → (bot_id : Uuid) (version : Missing ℕ) → Action (List SmartApp × ℕ)
  unfolding execute smartapps_list_method smartapps_list_payload jsonable_dict smartapps_to_domain
  get_smartapps_list validate bot_id version =
      execute smartapps_list_method validate bot_id
        (with_params (jsonable_dict (smartapps_list_payload version)))
      ⟫ λ result. pure (smartapps_to_domain result)

  unfoldable pub send_smartapp_custom_notification :
      (validate : Json → Result Uuid) (bot_id group_chat_id : Uuid) (title body : Str)
      (meta : Missing Fields)
      → Action Uuid
  unfolding execute custom_notification_method custom_notification_payload jsonable_dict
  send_smartapp_custom_notification validate bot_id group_chat_id title body meta =
      execute custom_notification_method validate bot_id
        (with_json (jsonable_dict (custom_notification_payload group_chat_id title body meta)))

  unfoldable pub send_smartapp_unread_counter :
      (validate : Json → Result Uuid) (bot_id group_chat_id : Uuid) (counter : ℕ) → Action Uuid
  unfolding execute unread_counter_method unread_counter_payload jsonable_dict
  send_smartapp_unread_counter validate bot_id group_chat_id counter =
      execute unread_counter_method validate bot_id
        (with_json (jsonable_dict (unread_counter_payload group_chat_id counter)))

  -- `UploadFileMethod.execute` of smartapps_api, where the loop has read the content
  unfoldable pub upload_static_file_execute :
      (validate : Json → Result Str) → (bot_id : Uuid) (filename : Str) → Bytes → Action Str
  unfolding execute upload_static_file_method
  upload_static_file_execute validate bot_id filename content =
      execute upload_static_file_method validate bot_id (with_fields [] filename content)

  unfoldable pub upload_static_file :
      (validate : Json → Result Str) → (bot_id : Uuid) → Buffer → (filename : Str) → Action Str
  unfolding copy_buffer upload_static_file_execute
  upload_static_file validate bot_id buffer filename =
      upload_static_file_execute validate bot_id filename
        (bytes_or_none (copy_buffer file_chunk_size (enough_fuel buffer) buffer))
