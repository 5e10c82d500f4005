-- ===== src/Client/Messages/Endpoints.antt =====
-- The classes of methods: verb, path and handlers.
use pybotx.Common.{Option, some, none, ◌++◌, [], ◌∷◌, if◌then◌else◌}
use pybotx.Common.Text.{Str, codes, str_eq}
use pybotx.Common.Uuid.{Uuid, print_uuid}
use pybotx.Client.Action.{
  ErrorClass, HttpResponse, Raised, from_response, invalid_botx_response_payload_error,
  chat_not_found_error, bot_is_not_chat_member_error, final_recipients_list_empty_error,
  stealth_mode_disabled_error, rate_limit_reached_error, message_not_found_error,
  event_not_found_error,
}
use pybotx.Client.Http.{response_exception_thrower, update_handlers}
use pybotx.Client.Auth.{status_handlers, Endpoint}

unfoldable pub direct_notification_method : Endpoint
direct_notification_method = record {
  method = codes "POST";
  path = codes "/api/v4/botx/notifications/direct";
  handlers = status_handlers;
}

unfoldable pub direct_notification_sync_method : Endpoint
direct_notification_sync_method = record {
  method = codes "POST";
  path = codes "/api/v4/botx/notifications/direct/sync";
  handlers = status_handlers;
}

unfoldable pub internal_bot_notification_method : Endpoint
unfolding update_handlers
internal_bot_notification_method = record {
  method = codes "POST";
  path = codes "/api/v4/botx/notifications/internal";
  handlers =
      update_handlers status_handlers
        ((429, response_exception_thrower rate_limit_reached_error) ∷ []);
}

unfoldable pub edit_event_method : Endpoint
edit_event_method = record {
  method = codes "POST";
  path = codes "/api/v3/botx/events/edit_event";
  handlers = status_handlers;
}

unfoldable pub reply_event_method : Endpoint
reply_event_method = record {
  method = codes "POST";
  path = codes "/api/v3/botx/events/reply_event";
  handlers = status_handlers;
}

unfoldable pub typing_event_method : Endpoint
typing_event_method = record {
  method = codes "POST";
  path = codes "/api/v3/botx/events/typing";
  handlers = status_handlers;
}

unfoldable pub stop_typing_event_method : Endpoint
stop_typing_event_method = record {
  method = codes "POST";
  path = codes "/api/v3/botx/events/stop_typing";
  handlers = status_handlers;
}

unfoldable pub delete_event_method : Endpoint
unfolding update_handlers
delete_event_method = record {
  method = codes "POST";
  path = codes "/api/v3/botx/events/delete_event";
  handlers =
      update_handlers status_handlers
        ((404, response_exception_thrower message_not_found_error) ∷ []);
}

unfoldable pub message_status_method : (sync_id : Uuid) → Endpoint
unfolding update_handlers
message_status_method sync_id = record {
  method = codes "GET";
  path = codes "/api/v3/botx/events/" ++ print_uuid sync_id ++ codes "/status";
  handlers =
      update_handlers status_handlers
        ((404, response_exception_thrower event_not_found_error) ∷ []);
}

-- `_DIRECT_NOTIFICATION_SYNC_ERROR_MAP.get`
unfoldable pub sync_error_class : Str → Option ErrorClass
sync_error_class reason =
    if str_eq reason (codes "chat_not_found")
    then some chat_not_found_error
    else if str_eq reason (codes "bot_is_not_a_chat_member")
    then some bot_is_not_chat_member_error
    else if str_eq reason (codes "event_recipients_list_is_empty")
    then some final_recipients_list_empty_error
    else if str_eq reason (codes "stealth_mode_disabled")
    then some stealth_mode_disabled_error
    else none

abbrev class_or_payload_error : Option ErrorClass → ErrorClass
class_or_payload_error none = invalid_botx_response_payload_error
class_or_payload_error (some exc_type) = exc_type

-- `reason or ""`
abbrev text_or_empty : Option Str → Str
text_or_empty none = []
text_or_empty (some reason) = reason

-- `_raise_direct_notification_sync_error`: the exception it always raises
unfoldable pub direct_notification_sync_error : HttpResponse → (reason : Option Str) → Raised
unfolding sync_error_class
direct_notification_sync_error response reason =
    from_response (class_or_payload_error (sync_error_class (text_or_empty reason))) response
