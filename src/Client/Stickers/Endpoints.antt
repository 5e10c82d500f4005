-- ===== src/Client/Stickers/Endpoints.antt =====
-- The classes of methods: verb, path and handlers.
use pybotx.Common.{Result, ok, err, attribute_error, ◌>>=◌, ◌++◌, if◌then◌else◌, [], ◌∷◌}
use Prim.Native.String.{String}
use pybotx.Common.Text.{Str, codes}
use pybotx.Common.Uuid.{Uuid, print_uuid}
use pybotx.Common.Json.{Json, null, obj, get, is_str}
use pybotx.Client.Action.{
  ErrorClass, HttpResponse, Raised, python, from_response, invalid_botx_status_code_error,
  sticker_pack_or_sticker_not_found_error, invalid_emoji_error, invalid_image_error,
}
use pybotx.Client.Http.{Environment, StatusHandler, response_exception_thrower, update_handlers}
use pybotx.Client.Auth.{status_handlers, Endpoint}

abbrev pack_path : Uuid → Str
pack_path sticker_pack_id = codes "/api/v3/botx/stickers/packs/" ++ print_uuid sticker_pack_id

abbrev sticker_path : (sticker_pack_id sticker_id : Uuid) → Str
sticker_path sticker_pack_id sticker_id =
    pack_path sticker_pack_id ++ codes "/stickers/" ++ print_uuid sticker_id

unfoldable pub create_sticker_pack_method : Endpoint
create_sticker_pack_method = record {
  method = codes "POST";
  path = codes "/api/v3/botx/stickers/packs";
  handlers = status_handlers;
}

unfoldable pub get_sticker_packs_method : Endpoint
get_sticker_packs_method = record {
  method = codes "GET";
  path = codes "/api/v3/botx/stickers/packs";
  handlers = status_handlers;
}

unfoldable pub get_sticker_pack_method : (sticker_pack_id : Uuid) → Endpoint
unfolding update_handlers
get_sticker_pack_method sticker_pack_id = record {
  method = codes "GET";
  path = pack_path sticker_pack_id;
  handlers =
      update_handlers status_handlers
        ((404, response_exception_thrower sticker_pack_or_sticker_not_found_error) ∷ []);
}

unfoldable pub edit_sticker_pack_method : (sticker_pack_id : Uuid) → Endpoint
unfolding update_handlers
edit_sticker_pack_method sticker_pack_id = record {
  method = codes "PUT";
  path = pack_path sticker_pack_id;
  handlers =
      update_handlers status_handlers
        ((404, response_exception_thrower sticker_pack_or_sticker_not_found_error) ∷ []);
}

unfoldable pub delete_sticker_pack_method : (sticker_pack_id : Uuid) → Endpoint
unfolding update_handlers
delete_sticker_pack_method sticker_pack_id = record {
  method = codes "DELETE";
  path = pack_path sticker_pack_id;
  handlers =
      update_handlers status_handlers
        ((404, response_exception_thrower sticker_pack_or_sticker_not_found_error) ∷ []);
}

unfoldable pub get_sticker_method : (sticker_pack_id sticker_id : Uuid) → Endpoint
unfolding update_handlers
get_sticker_method sticker_pack_id sticker_id = record {
  method = codes "GET";
  path = sticker_path sticker_pack_id sticker_id;
  handlers =
      update_handlers status_handlers
        ((404, response_exception_thrower sticker_pack_or_sticker_not_found_error) ∷ []);
}

unfoldable pub delete_sticker_method : (sticker_pack_id sticker_id : Uuid) → Endpoint
unfolding update_handlers
delete_sticker_method sticker_pack_id sticker_id = record {
  method = codes "DELETE";
  path = sticker_path sticker_pack_id sticker_id;
  handlers =
      update_handlers status_handlers
        ((404, response_exception_thrower sticker_pack_or_sticker_not_found_error) ∷ []);
}

-- `d.get(key)`, of a value that may be no dictionary
abbrev get_attribute : String → Json → Result Json
get_attribute key (obj fs) = ok (get (codes key) fs)
get_attribute key null = err attribute_error
get_attribute key _ = err attribute_error

-- The tests on `error_data`, of which the second is made if the first one fails
abbrev sticker_error_class : Json → Result ErrorClass
sticker_error_class error_data = get_attribute "emoji" error_data >>= λ emoji.
    if is_str emoji (codes "invalid")
    then ok invalid_emoji_error
    else (get_attribute "image" error_data >>= λ image.
        if is_str image (codes "invalid")
        then ok invalid_image_error
        else ok invalid_botx_status_code_error)

abbrev bad_sticker_class : Json → Result ErrorClass
bad_sticker_class body = get_attribute "reason" body >>= λ reason.
    if is_str reason (codes "pack_not_found")
    then ok sticker_pack_or_sticker_not_found_error
    else (get_attribute "error_data" body >>= sticker_error_class)

abbrev raised_by : HttpResponse → Result ErrorClass → Raised
raised_by response (ok exc) = from_response exc response
raised_by response (err e) = python e

module _ ⦃env : Environment⦄ where
  unfoldable pub bad_sticker_request_handler : StatusHandler
  bad_sticker_request_handler response =
      raised_by response (env.loads response.content >>= bad_sticker_class)

  unfoldable pub add_sticker_method : (sticker_pack_id : Uuid) → Endpoint
  unfolding update_handlers bad_sticker_request_handler
  add_sticker_method sticker_pack_id = record {
    method = codes "POST";
    path = pack_path sticker_pack_id ++ codes "/stickers";
    handlers = update_handlers status_handlers ((400, bad_sticker_request_handler) ∷ []);
  }
