-- ===== src/Models/SyncSmartApp.antt =====
-- pybotx/models/sync_smartapp_event.py. Of `SmartAppEvent` and its parts, the fields that are always `None` are left out.
use pybotx.Common.{
  ◌≡◌, refl, Option, none, some, List, [], Result, ok, ◌>>=◌, map_result, bind_total, All-unit,
}
use pybotx.Common.Text.{Str, codes}
use pybotx.Common.Uuid.{Uuid}
use pybotx.Common.Json.{Json, str, arr, nil, obj, Items, Fields, end, field}
use pybotx.Missing.{Missing, undefined, given}
use pybotx.Models.Enums.{
  ClientPlatforms, ClientNetworkContours, BotApiClientPlatforms, BotApiClientNetworkContours,
  ChatTypes, supported, convert_client_network_contour_to_domain,
  client_network_contour_to_domain_mapping,
}
use pybotx.Models.BotAccount.{BotAccount}
use pybotx.Models.Message.{Chat, platform_of, platform_of_total, map_result_total}
use pybotx.Models.Files.{
  File, ApiAsyncFile, convert_async_file_to_domain, convert_async_file_from_domain, async_file_dump,
  async_file_total,
}
use pybotx.Models.ApiBase.{plain, list, dict, Entries, entry, jsonable_dict, values_of, text_value}

-- `BotAPISyncSmartAppSender`
pub record BotApiSyncSmartAppSender : Type 0 where
  pub user_huid : Uuid
  pub udid : Option Uuid
  pub platform : Option BotApiClientPlatforms
  pub client_network_contour : Option BotApiClientNetworkContours

-- `BotAPISyncSmartAppEvent`; `params` and `files` are the fields of its payload.
pub record BotApiSyncSmartAppEvent : Type 0 where
  pub bot_id : Uuid
  pub group_chat_id : Uuid
  pub sender_info : BotApiSyncSmartAppSender
  pub method : Str
  pub params : Fields
  pub files : List ApiAsyncFile

pub record SyncSmartAppSender : Type 0 where
  pub huid : Uuid
  pub udid : Option Uuid
  pub platform : Option ClientPlatforms
  pub client_network_contour : Option ClientNetworkContours

pub record SyncSmartAppEvent : Type 0 where
  pub bot : BotAccount
  pub chat : Chat
  pub sender : SyncSmartAppSender
  pub event_data : Fields
  pub smartapp_id : Uuid
  pub files : List File
  pub raw_command : Fields

-- `convert_client_network_contour_to_domain(contour) if contour else None`; a member is true
unfoldable pub contour_of :
    Option BotApiClientNetworkContours → Result (Option ClientNetworkContours)
contour_of none = ok none
contour_of (some c) = convert_client_network_contour_to_domain c >>= λ contour. ok (some contour)

abbrev rpc_data : Str → Fields → Fields
rpc_data method params =
    field (codes "method") (str method)
      (field (codes "type") (str (codes "smartapp_rpc")) (field (codes "params") (obj params) end))

abbrev event_of :
    BotApiSyncSmartAppEvent
    → Fields
    → Option ClientPlatforms
    → Option ClientNetworkContours
    → List File
    → SyncSmartAppEvent
event_of e raw_smartapp_event platform contour files = record {
  bot = record { id = e.bot_id; host = none };
  chat = record { id = e.group_chat_id; type = supported ChatTypes.personal_chat };
  sender = record {
    huid = e.sender_info.user_huid;
    udid = e.sender_info.udid;
    platform = platform;
    client_network_contour = contour;
  };
  event_data = rpc_data e.method e.params;
  smartapp_id = e.bot_id;
  files = files;
  raw_command = raw_smartapp_event;
}

-- `to_domain`
unfoldable pub sync_event_to_domain : BotApiSyncSmartAppEvent → Fields → Result SyncSmartAppEvent
unfolding contour_of
sync_event_to_domain e raw_smartapp_event = platform_of e.sender_info.platform >>= λ platform.
    contour_of e.sender_info.client_network_contour >>= λ contour.
    map_result convert_async_file_to_domain e.files >>= λ files.
    ok (event_of e raw_smartapp_event platform contour files)

-- `api_async_files` of `from_domain`
unfoldable pub result_files : Missing (List File) → Result (List ApiAsyncFile)
result_files undefined = ok []
result_files (given files) = map_result convert_async_file_from_domain files

abbrev result_dump : Json → List ApiAsyncFile → Entries
result_dump result_data files =
    entry (codes "data") (plain result_data)
      (entry (codes "files") (list (values_of (λ f. dict (async_file_dump f)) files)) Entries.end)

-- `from_domain` and `jsonable_dict` of `BotAPISyncSmartAppEventResultResponse`
unfoldable pub result_response : Json → Missing (List File) → Result Fields
unfolding result_files
result_response result_data files = result_files files >>= λ api_files. ok (
    field (codes "status") (str (codes "ok"))
      (field (codes "result") (obj (jsonable_dict (result_dump result_data api_files))) end))

abbrev or_default {ℓ} : {A : Type ℓ} → A → Missing A → A
or_default default undefined = default
or_default default (given value) = value

abbrev error_dump : Missing Str → Missing Items → Missing Fields → Entries
error_dump reason errors error_data =
    entry (codes "reason") (text_value (or_default (codes "smartapp_error") reason)) (
      entry (codes "errors") (plain (arr (or_default nil errors)))
        (entry (codes "error_data") (plain (obj (or_default end error_data))) Entries.end))

-- `from_domain` and `jsonable_dict` of `BotAPISyncSmartAppEventErrorResponse`
unfoldable pub error_response : Missing Str → Missing Items → Missing Fields → Fields
error_response reason errors error_data =
    field (codes "status") (str (codes "error"))
      (jsonable_dict (error_dump reason errors error_data))

contour_of_total :
    (c : Option BotApiClientNetworkContours)
    → (contour : Option ClientNetworkContours) × (contour_of c ≡ ok contour)
unfolding contour_of convert_client_network_contour_to_domain
    client_network_contour_to_domain_mapping
contour_of_total none = (_, refl)
contour_of_total (some BotApiClientNetworkContours.internal) = (_, refl)
contour_of_total (some BotApiClientNetworkContours.external) = (_, refl)

-- Every synchronous event is converted, whatever its fields.
sync_event_to_domain_total :
    (e : BotApiSyncSmartAppEvent) (raw_smartapp_event : Fields)
    → (event : SyncSmartAppEvent) × (sync_event_to_domain e raw_smartapp_event ≡ ok event)
unfolding sync_event_to_domain
sync_event_to_domain_total e raw_smartapp_event =
    bind_total (platform_of e.sender_info.platform) _ (platform_of_total e.sender_info.platform)
      λ platform.
        bind_total (contour_of e.sender_info.client_network_contour) _
          (contour_of_total e.sender_info.client_network_contour)
          λ contour.
            bind_total (map_result convert_async_file_to_domain e.files) _
              (map_result_total convert_async_file_to_domain (λ f. Unit {0})
                (λ f _. async_file_total f) e.files (All-unit e.files))
              λ files. (_, refl)
