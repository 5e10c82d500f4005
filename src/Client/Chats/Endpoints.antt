-- ===== src/Client/Chats/Endpoints.antt =====
-- The classes of methods: verb, path and handlers.
use pybotx.Common.{if◌then◌else◌, [], ◌∷◌}
use pybotx.Common.Text.{codes}
use pybotx.Common.Json.{Json, is_str}
use pybotx.Client.Action.{
  ErrorClass, invalid_botx_status_code_error, permission_denied_error, chat_not_found_error,
  cant_update_personal_chat_error, invalid_users_list_error, chat_creation_prohibited_error,
  chat_creation_error, chat_link_creation_prohibited_error, chat_link_creation_error,
  thread_already_exists_error, thread_creation_error, thread_creation_prohibited_error,
  event_not_found_error,
}
use pybotx.Client.Http.{
  Environment, StatusHandler, StatusHandlers, response_exception_thrower, update_handlers,
  by_reason,
}
use pybotx.Client.Auth.{status_handlers, Endpoint}

abbrev chat_handlers : StatusHandlers
chat_handlers =
    (403, response_exception_thrower permission_denied_error)
    ∷ (404, response_exception_thrower chat_not_found_error)
    ∷ []

unfoldable pub add_user_method : Endpoint
unfolding update_handlers
add_user_method = record {
  method = codes "POST";
  path = codes "/api/v3/botx/chats/add_user";
  handlers = update_handlers status_handlers chat_handlers;
}

unfoldable pub remove_user_method : Endpoint
unfolding update_handlers
remove_user_method = record {
  method = codes "POST";
  path = codes "/api/v3/botx/chats/remove_user";
  handlers = update_handlers status_handlers chat_handlers;
}

unfoldable pub chat_info_method : Endpoint
unfolding update_handlers
chat_info_method = record {
  method = codes "GET";
  path = codes "/api/v3/botx/chats/info";
  handlers =
      update_handlers status_handlers ((404, response_exception_thrower chat_not_found_error) ∷ []);
}

unfoldable pub personal_chat_method : Endpoint
unfolding update_handlers
personal_chat_method = record {
  method = codes "GET";
  path = codes "/api/v1/botx/chats/personal";
  handlers =
      update_handlers status_handlers ((404, response_exception_thrower chat_not_found_error) ∷ []);
}

unfoldable pub list_chats_method : Endpoint
list_chats_method = record {
  method = codes "GET";
  path = codes "/api/v3/botx/chats/list";
  handlers = status_handlers;
}

unfoldable pub set_stealth_method : Endpoint
unfolding update_handlers
set_stealth_method = record {
  method = codes "POST";
  path = codes "/api/v3/botx/chats/stealth_set";
  handlers = update_handlers status_handlers chat_handlers;
}

unfoldable pub disable_stealth_method : Endpoint
unfolding update_handlers
disable_stealth_method = record {
  method = codes "POST";
  path = codes "/api/v3/botx/chats/stealth_disable";
  handlers = update_handlers status_handlers chat_handlers;
}

unfoldable pub create_chat_method : Endpoint
unfolding update_handlers
create_chat_method = record {
  method = codes "POST";
  path = codes "/api/v3/botx/chats/create";
  handlers = update_handlers status_handlers (
      (403, response_exception_thrower chat_creation_prohibited_error)
      ∷ (422, response_exception_thrower chat_creation_error)
      ∷ []);
}

unfoldable pub pin_message_method : Endpoint
unfolding update_handlers
pin_message_method = record {
  method = codes "POST";
  path = codes "/api/v3/botx/chats/pin_message";
  handlers = update_handlers status_handlers chat_handlers;
}

unfoldable pub unpin_message_method : Endpoint
unfolding update_handlers
unpin_message_method = record {
  method = codes "POST";
  path = codes "/api/v3/botx/chats/unpin_message";
  handlers = update_handlers status_handlers chat_handlers;
}

abbrev bad_request_class : Json → ErrorClass
bad_request_class reason =
    if is_str reason (codes "chat_members_not_modifiable")
    then cant_update_personal_chat_error
    else if is_str reason (codes "admins_not_changed")
    then invalid_users_list_error
    else invalid_botx_status_code_error

abbrev server_error_class : Json → ErrorClass
server_error_class reason =
    if is_str reason (codes "error_from_messaging_service")
    then chat_link_creation_error
    else invalid_botx_status_code_error

abbrev conflict_error_class : Json → ErrorClass
conflict_error_class reason =
    if is_str reason (codes "thread_already_created")
    then thread_already_exists_error
    else thread_creation_error

-- The handlers that read the reason
module _ ⦃env : Environment⦄ where
  unfoldable pub bad_request_error_handler : StatusHandler
  bad_request_error_handler = by_reason bad_request_class

  unfoldable pub server_error_handler : StatusHandler
  server_error_handler = by_reason server_error_class

  unfoldable pub conflict_error_handler : StatusHandler
  conflict_error_handler = by_reason conflict_error_class

  unfoldable pub add_admin_method : Endpoint
  unfolding update_handlers bad_request_error_handler
  add_admin_method = record {
    method = codes "POST";
    path = codes "/api/v3/botx/chats/add_admin";
    handlers = update_handlers status_handlers ((400, bad_request_error_handler) ∷ chat_handlers);
  }

  unfoldable pub create_chat_link_method : Endpoint
  unfolding update_handlers server_error_handler
  create_chat_link_method = record {
    method = codes "POST";
    path = codes "/api/v3/botx/chats/create_link";
    handlers = update_handlers status_handlers (
        (403, response_exception_thrower chat_link_creation_prohibited_error)
        ∷ (404, response_exception_thrower chat_not_found_error)
        ∷ (500, server_error_handler)
        ∷ []);
  }

  unfoldable pub create_thread_method : Endpoint
  unfolding update_handlers conflict_error_handler
  create_thread_method = record {
    method = codes "POST";
    path = codes "/api/v3/botx/chats/create_thread";
    handlers = update_handlers status_handlers (
        (403, response_exception_thrower thread_creation_prohibited_error)
        ∷ (404, response_exception_thrower event_not_found_error)
        ∷ (409, conflict_error_handler)
        ∷ []);
  }
