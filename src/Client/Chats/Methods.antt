-- ===== src/Client/Chats/Methods.antt =====
-- The methods of `Client` for chats. A `validate` is the `model_validate` of the response's class.
use pybotx.Common.{ℕ, Bool, Option, some, none, List, [], ◌∷◌, ◌++◌, Result}
use pybotx.Common.Text.{Str, codes}
use pybotx.Common.Uuid.{Uuid, print_uuid}
use pybotx.Common.Json.{Json}
use pybotx.Missing.{Missing, undefined}
use pybotx.Models.Enums.{ChatTypes}
use pybotx.Models.ApiBase.{json_entries, jsonable_dict}
use pybotx.Client.Action.{
  chat_not_found_error, from_response, Outcome, done, raised, World, Action, lift, ◌⟫◌,
}
use pybotx.Client.Http.{Environment, build_url, bare, with_json, with_params}
use pybotx.Client.Auth.{from_storage, execute}
use pybotx.Client.Chats.Payloads.{
  ChatLinkTypes, add_user_payload, remove_user_payload, add_admin_payload, chat_info_payload,
  personal_chat_payload, set_stealth_payload, disable_stealth_payload, CreateChatPayload,
  create_chat_dump, create_chat_link_payload, create_thread_payload, pin_message_payload,
  unpin_message_payload,
}
use pybotx.Client.Chats.Responses.{
  Item, ApiChatInfo, ChatInfo, chat_info_to_domain, personal_chat_to_domain, ApiChatListItem,
  ChatListItem, list_chats_to_domain, ChatLink,
}
use pybotx.Client.Chats.Endpoints.{
  add_user_method, remove_user_method, chat_info_method, personal_chat_method, list_chats_method,
  set_stealth_method, disable_stealth_method, create_chat_method, pin_message_method,
  unpin_message_method, add_admin_method, create_chat_link_method, create_thread_method,
}

module _ ⦃env : Environment⦄ where
  unfoldable pub list_chats :
      (Json → Result (List (Item ApiChatListItem))) → (bot_id : Uuid) → Action (List ChatListItem)
  unfolding execute list_chats_method list_chats_to_domain
  list_chats validate bot_id =
      execute list_chats_method validate bot_id bare ⟫ λ result. lift (list_chats_to_domain result)

  unfoldable pub chat_info : (Json → Result ApiChatInfo) → (bot_id chat_id : Uuid) → Action ChatInfo
  unfolding execute chat_info_method chat_info_payload json_entries chat_info_to_domain
  chat_info validate bot_id chat_id =
      execute chat_info_method validate bot_id
        (with_params (json_entries (chat_info_payload chat_id)))
      ⟫ λ result. lift (chat_info_to_domain result)

  unfoldable pub personal_chat :
      (Json → Result ApiChatInfo) → (bot_id user_huid : Uuid) → Action ChatInfo
  unfolding execute personal_chat_method personal_chat_payload json_entries personal_chat_to_domain
  personal_chat validate bot_id user_huid =
      execute personal_chat_method validate bot_id
        (with_params (json_entries (personal_chat_payload user_huid)))
      ⟫ λ result. lift (personal_chat_to_domain result)

  unfoldable pub add_users_to_chat : (bot_id chat_id : Uuid) (huids : List Uuid) → Action (Unit {0})
  unfolding execute add_user_method add_user_payload jsonable_dict
  add_users_to_chat bot_id chat_id huids =
      execute add_user_method env.validate_status bot_id
        (with_json (jsonable_dict (add_user_payload chat_id huids)))

  unfoldable pub remove_users_from_chat :
      (bot_id chat_id : Uuid) (huids : List Uuid) → Action (Unit {0})
  unfolding execute remove_user_method remove_user_payload jsonable_dict
  remove_users_from_chat bot_id chat_id huids =
      execute remove_user_method env.validate_status bot_id
        (with_json (jsonable_dict (remove_user_payload chat_id huids)))

  unfoldable pub promote_to_chat_admins :
      (bot_id chat_id : Uuid) (huids : List Uuid) → Action (Unit {0})
  unfolding execute add_admin_method add_admin_payload jsonable_dict
  promote_to_chat_admins bot_id chat_id huids =
      execute add_admin_method env.validate_status bot_id
        (with_json (jsonable_dict (add_admin_payload chat_id huids)))

  unfoldable pub enable_stealth :
      (bot_id chat_id : Uuid) (disable_web_client : Missing Bool)
      (ttl_after_read total_ttl : Missing ℕ)
      → Action (Unit {0})
  unfolding execute set_stealth_method set_stealth_payload jsonable_dict
  enable_stealth bot_id chat_id disable_web_client ttl_after_read total_ttl =
      execute set_stealth_method env.validate_status bot_id (
        with_json
          (jsonable_dict (set_stealth_payload chat_id disable_web_client ttl_after_read total_ttl)))

  unfoldable pub disable_stealth : (bot_id chat_id : Uuid) → Action (Unit {0})
  unfolding execute disable_stealth_method disable_stealth_payload jsonable_dict
  disable_stealth bot_id chat_id =
      execute disable_stealth_method env.validate_status bot_id
        (with_json (jsonable_dict (disable_stealth_payload chat_id)))

  -- The body is dumped once the URL is built: either may raise, before anything is sent.
  unfoldable pub create_chat :
      (Json → Result Uuid) → (bot_id : Uuid) → CreateChatPayload → Action Uuid
  unfolding build_url execute create_chat_method create_chat_dump json_entries
  create_chat validate bot_id payload =
      from_storage (λ storage. build_url storage bot_id create_chat_method.path) ⟫ λ url.
      lift (create_chat_dump payload) ⟫ λ body.
      execute create_chat_method validate bot_id (with_json (json_entries body))

  unfoldable pub create_chat_link :
      (Json → Result ChatLink)
      → (bot_id chat_id : Uuid) → ChatLinkTypes
      → Missing (Option Str)
      → Missing (Option ℕ)
      → Action ChatLink
  unfolding execute create_chat_link_method create_chat_link_payload jsonable_dict
  create_chat_link validate bot_id chat_id link_type access_code link_ttl =
      execute create_chat_link_method validate bot_id (
        with_json (jsonable_dict (create_chat_link_payload chat_id link_type access_code link_ttl)))

  unfoldable pub create_thread : (Json → Result Uuid) → (bot_id sync_id : Uuid) → Action Uuid
  unfolding execute create_thread_method create_thread_payload jsonable_dict
  create_thread validate bot_id sync_id =
      execute create_thread_method validate bot_id
        (with_json (jsonable_dict (create_thread_payload sync_id)))

  unfoldable pub pin_message : (bot_id chat_id sync_id : Uuid) → Action (Unit {0})
  unfolding execute pin_message_method pin_message_payload jsonable_dict
  pin_message bot_id chat_id sync_id =
      execute pin_message_method env.validate_status bot_id
        (with_json (jsonable_dict (pin_message_payload chat_id sync_id)))

  unfoldable pub unpin_message : (bot_id chat_id : Uuid) → Action (Unit {0})
  unfolding execute unpin_message_method unpin_message_payload jsonable_dict
  unpin_message bot_id chat_id =
      execute unpin_message_method env.validate_status bot_id
        (with_json (jsonable_dict (unpin_message_payload chat_id)))

  -- `except ChatNotFoundError`
  abbrev or_if_chat_not_found : {A : Type 0} → Action A → Outcome A × World → Outcome A × World
  or_if_chat_not_found m (raised (from_response chat_not_found_error response), w) = m w
  or_if_chat_not_found m (raised e, w) = (raised e, w)
  or_if_chat_not_found m (done a, w) = (done a, w)

  -- `name or f"Personal chat {user_huid}"`
  abbrev chat_name : Option Str → Uuid → Str
  chat_name (some (c ∷ name)) user_huid = c ∷ name
  chat_name (some []) user_huid = codes "Personal chat " ++ print_uuid user_huid
  chat_name none user_huid = codes "Personal chat " ++ print_uuid user_huid

  -- The arguments of `create_chat` for the user
  abbrev pub personal_chat_arguments : Option Str → Uuid → CreateChatPayload
  personal_chat_arguments name user_huid = record {
    name = chat_name name user_huid;
    description = none;
    chat_type = ChatTypes.personal_chat;
    members = user_huid ∷ [];
    shared_history = undefined;
    avatar = none;
  }

  unfoldable pub ensure_personal_chat :
      (validate_personal : Json → Result ApiChatInfo) (validate_created : Json → Result Uuid)
      (validate_info : Json → Result ApiChatInfo) (bot_id user_huid : Uuid) (name : Option Str)
      → Action ChatInfo
  unfolding personal_chat create_chat chat_info
  ensure_personal_chat validate_personal validate_created validate_info bot_id user_huid name w =
      or_if_chat_not_found
        (create_chat validate_created bot_id (personal_chat_arguments name user_huid) ⟫ λ chat_id.
          chat_info validate_info bot_id chat_id)
        (personal_chat validate_personal bot_id user_huid w)
