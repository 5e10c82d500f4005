-- ===== src/Client/Other.antt =====
-- pybotx/client/bots_api/bot_catalog.py, voex_api, openid_api and mertics_api, with the methods of `Client` that use them.
use pybotx.Common.{Bool, Option, List, [], ◌∷◌, ◌++◌, map, Result}
use pybotx.Common.Text.{Str, codes}
use pybotx.Common.Uuid.{Uuid, print_uuid}
use pybotx.Common.Json.{Json}
use pybotx.Missing.{Missing}
use pybotx.Models.ApiBase.{
  Entries, entry, missing_value, optional_value, text_value, uuid_value, uuid_values, jsonable_dict,
}
use pybotx.Client.Action.{call_not_found_error, conference_not_found_error, Action, pure, ◌⟫◌}
use pybotx.Client.Http.{
  Environment, response_exception_thrower, update_handlers, bare, with_json, with_params,
}
use pybotx.Client.Auth.{status_handlers, Endpoint, execute}
use pybotx.Client.Chats.{Datetime}

pub record BotsListItem : Type 0 where
  pub id : Uuid
  pub name : Str
  pub description : Str
  pub avatar : Option Str
  pub enabled : Bool

-- `BotXAPIBotItem`
pub record ApiBotItem : Type 0 where
  pub user_huid : Uuid
  pub name : Str
  pub description : Str
  pub avatar : Option Str
  pub enabled : Bool

-- `BotXAPIBotsListResult`
pub record ApiBotsList : Type 0 where
  pub generated_at : Datetime
  pub bots : List ApiBotItem

abbrev bot_to_domain : ApiBotItem → BotsListItem
bot_to_domain b = record {
  id = b.user_huid;
  name = b.name;
  description = b.description;
  avatar = b.avatar;
  enabled = b.enabled;
}

-- `BotXAPIBotsListResponsePayload.to_domain`
unfoldable pub bots_list_to_domain : ApiBotsList → List BotsListItem × Datetime
bots_list_to_domain result = (map bot_to_domain result.bots, result.generated_at)

unfoldable pub bots_list_payload : (since : Missing Datetime) → Entries
bots_list_payload since = entry (codes "since") (missing_value text_value since) Entries.end

pub record Call : Type 0 where
  pub id : Uuid
  pub members : List Uuid

-- `BotXAPIGetCallResult`
pub record ApiCall : Type 0 where
  pub id : Uuid
  pub members : List Uuid

unfoldable pub call_to_domain : ApiCall → Call
call_to_domain c = record { id = c.id; members = c.members }

pub record Conference : Type 0 where
  pub id : Uuid
  pub name : Str
  pub link : Str
  pub members : List Uuid

-- `BotXAPIGetConferenceResult`
pub record ApiConference : Type 0 where
  pub id : Uuid
  pub name : Str
  pub link : Str
  pub members : List Uuid

unfoldable pub conference_to_domain : ApiConference → Conference
conference_to_domain c = record { id = c.id; name = c.name; link = c.link; members = c.members }

unfoldable pub refresh_access_token_payload : (huid : Uuid) (ref : Option Uuid) → Entries
refresh_access_token_payload huid ref =
    entry (codes "user_huid") (uuid_value huid)
      (entry (codes "ref") (optional_value uuid_value ref) Entries.end)

unfoldable pub collect_bot_function_payload :
    (chat_id : Uuid) (huids : List Uuid) (bot_function : Str) → Entries
collect_bot_function_payload chat_id huids bot_function =
    entry (codes "group_chat_id") (uuid_value chat_id) (
      entry (codes "user_huids") (uuid_values huids)
        (entry (codes "bot_function") (text_value bot_function) Entries.end))

unfoldable pub bots_list_method : Endpoint
bots_list_method = record {
  method = codes "GET";
  path = codes "/api/v1/botx/bots/catalog";
  handlers = status_handlers;
}

unfoldable pub get_call_method : (call_id : Uuid) → Endpoint
unfolding update_handlers
get_call_method call_id = record {
  method = codes "GET";
  path = codes "/api/v3/botx/voex/calls/" ++ print_uuid call_id;
  handlers =
      update_handlers status_handlers ((404, response_exception_thrower call_not_found_error) ∷ []);
}

unfoldable pub get_conference_method : (call_id : Uuid) → Endpoint
unfolding update_handlers
get_conference_method call_id = record {
  method = codes "GET";
  path = codes "/api/v3/botx/voex/conferences/" ++ print_uuid call_id;
  handlers =
      update_handlers status_handlers
        ((404, response_exception_thrower conference_not_found_error) ∷ []);
}

unfoldable pub refresh_access_token_method : Endpoint
refresh_access_token_method = record {
  method = codes "POST";
  path = codes "/api/v3/botx/openid/refresh_access_token";
  handlers = status_handlers;
}

unfoldable pub collect_bot_function_method : Endpoint
collect_bot_function_method = record {
  method = codes "POST";
  path = codes "/api/v3/botx/metrics/bot_function";
  handlers = status_handlers;
}

module _ ⦃env : Environment⦄ where
  unfoldable pub get_bots_list :
      (validate : Json → Result ApiBotsList)
      → (bot_id : Uuid) (since : Missing Datetime) → Action (List BotsListItem × Datetime)
  unfolding execute bots_list_method bots_list_payload jsonable_dict bots_list_to_domain
  get_bots_list validate bot_id since =
      execute bots_list_method validate bot_id
        (with_params (jsonable_dict (bots_list_payload since)))
      ⟫ λ result. pure (bots_list_to_domain result)

  unfoldable pub get_call :
      (validate : Json → Result ApiCall) → (bot_id call_id : Uuid) → Action Call
  unfolding execute get_call_method call_to_domain
  get_call validate bot_id call_id =
      execute (get_call_method call_id) validate bot_id bare ⟫ λ result.
      pure (call_to_domain result)

  unfoldable pub get_conference :
      (validate : Json → Result ApiConference) → (bot_id call_id : Uuid) → Action Conference
  unfolding execute get_conference_method conference_to_domain
  get_conference validate bot_id call_id =
      execute (get_conference_method call_id) validate bot_id bare ⟫ λ result.
      pure (conference_to_domain result)

  -- The responses' `result` is read and left.
  unfoldable pub refresh_access_token :
      (validate : Json → Result Bool) → (bot_id huid : Uuid) (ref : Option Uuid) → Action (Unit {0})
  unfolding execute refresh_access_token_method refresh_access_token_payload jsonable_dict
  refresh_access_token validate bot_id huid ref =
      execute refresh_access_token_method validate bot_id
        (with_json (jsonable_dict (refresh_access_token_payload huid ref)))
      ⟫ λ result. pure tt

  unfoldable pub collect_metric :
      (validate : Json → Result Bool)
      → (bot_id : Uuid) (bot_function : Str) (huids : List Uuid) (chat_id : Uuid)
      → Action (Unit {0})
  unfolding execute collect_bot_function_method collect_bot_function_payload jsonable_dict
  collect_metric validate bot_id bot_function huids chat_id =
      execute collect_bot_function_method validate bot_id
        (with_json (jsonable_dict (collect_bot_function_payload chat_id huids bot_function)))
      ⟫ λ result. pure tt
