-- ===== src/Client/Chats/Payloads.antt =====
-- The payloads of the requests, as `model_dump` gives them.
use pybotx.Common.{ℕ, Bool, Option, List, Result, ok, ◌>>=◌}
use pybotx.Common.Text.{Str, codes}
use pybotx.Common.Uuid.{Uuid}
use pybotx.Missing.{Missing, undefined, given}
use pybotx.Models.Enums.{ChatTypes, api_chat_types_value, convert_chat_type_from_domain}
use pybotx.Models.ApiBase.{
  dict, Entries, entry, text_value, int_value, bool_value, uuid_value, uuid_values, optional_value,
  missing_value,
}

-- pybotx/models/enums.py: `ChatLinkTypes`
pub data ChatLinkTypes : Type 0 where
  public trusts corporate server : ChatLinkTypes

abbrev pub chat_link_types_value : ChatLinkTypes → Str
chat_link_types_value ChatLinkTypes.public = codes "public"
chat_link_types_value ChatLinkTypes.trusts = codes "trusts"
chat_link_types_value ChatLinkTypes.corporate = codes "corporate"
chat_link_types_value ChatLinkTypes.server = codes "server"

abbrev no_more : Entries
no_more = Entries.end

unfoldable pub add_user_payload : (chat_id : Uuid) (huids : List Uuid) → Entries
add_user_payload chat_id huids =
    entry (codes "group_chat_id") (uuid_value chat_id)
      (entry (codes "user_huids") (uuid_values huids) no_more)

unfoldable pub remove_user_payload : (chat_id : Uuid) (huids : List Uuid) → Entries
remove_user_payload chat_id huids =
    entry (codes "group_chat_id") (uuid_value chat_id)
      (entry (codes "user_huids") (uuid_values huids) no_more)

unfoldable pub add_admin_payload : (chat_id : Uuid) (huids : List Uuid) → Entries
add_admin_payload chat_id huids =
    entry (codes "group_chat_id") (uuid_value chat_id)
      (entry (codes "user_huids") (uuid_values huids) no_more)

unfoldable pub chat_info_payload : (chat_id : Uuid) → Entries
chat_info_payload chat_id = entry (codes "group_chat_id") (uuid_value chat_id) no_more

unfoldable pub personal_chat_payload : (user_huid : Uuid) → Entries
personal_chat_payload user_huid = entry (codes "user_huid") (uuid_value user_huid) no_more

unfoldable pub set_stealth_payload :
    (chat_id : Uuid) (disable_web_client : Missing Bool) (ttl_after_read total_ttl : Missing ℕ)
    → Entries
set_stealth_payload chat_id disable_web_client ttl_after_read total_ttl =
    entry (codes "group_chat_id") (uuid_value chat_id) (
      entry (codes "disable_web") (missing_value bool_value disable_web_client) (
        entry (codes "burn_in") (missing_value int_value ttl_after_read)
          (entry (codes "expire_in") (missing_value int_value total_ttl) no_more)))

unfoldable pub disable_stealth_payload : (chat_id : Uuid) → Entries
disable_stealth_payload chat_id = entry (codes "group_chat_id") (uuid_value chat_id) no_more

-- `BotXAPICreateChatRequestPayload`. Its `__init__` is that of `UnverifiedPayloadBaseModel`, which runs no validator.
pub record CreateChatPayload : Type 0 where
  pub name : Str
  pub description : Option Str
  pub chat_type : ChatTypes
  pub members : List Uuid
  pub shared_history : Missing Bool
  pub avatar : Option Str

abbrev shared_history_entry : Missing Bool → Entries → Entries
shared_history_entry undefined rest = rest
shared_history_entry (given b) rest = entry (codes "shared_history") (bool_value b) rest

-- `payload.model_dump(mode="json", exclude=…)`, which serializes the type
unfoldable pub create_chat_dump : CreateChatPayload → Result Entries
create_chat_dump payload = convert_chat_type_from_domain payload.chat_type >>= λ chat_type. ok (
    entry (codes "name") (text_value payload.name) (
      entry (codes "description") (optional_value text_value payload.description) (
        entry (codes "chat_type") (text_value (api_chat_types_value chat_type)) (
          entry (codes "members") (uuid_values payload.members) (
            shared_history_entry payload.shared_history
              (entry (codes "avatar") (optional_value text_value payload.avatar) no_more))))))

unfoldable pub chat_link_params :
    ChatLinkTypes → Missing (Option Str) → Missing (Option ℕ) → Entries
chat_link_params link_type access_code link_ttl =
    entry (codes "link_type") (text_value (chat_link_types_value link_type)) (
      entry (codes "access_code") (missing_value (optional_value text_value) access_code)
        (entry (codes "link_ttl") (missing_value (optional_value int_value) link_ttl) no_more))

unfoldable pub create_chat_link_payload :
    (chat_id : Uuid)
    → ChatLinkTypes
    → (access_code : Missing (Option Str)) (link_ttl : Missing (Option ℕ)) → Entries
unfolding chat_link_params
create_chat_link_payload chat_id link_type access_code link_ttl =
    entry (codes "chat_id") (uuid_value chat_id)
      (entry (codes "link") (dict (chat_link_params link_type access_code link_ttl)) no_more)

unfoldable pub create_thread_payload : (sync_id : Uuid) → Entries
create_thread_payload sync_id = entry (codes "sync_id") (uuid_value sync_id) no_more

unfoldable pub pin_message_payload : (chat_id sync_id : Uuid) → Entries
pin_message_payload chat_id sync_id =
    entry (codes "chat_id") (uuid_value chat_id)
      (entry (codes "sync_id") (uuid_value sync_id) no_more)

unfoldable pub unpin_message_payload : (chat_id : Uuid) → Entries
unpin_message_payload chat_id = entry (codes "chat_id") (uuid_value chat_id) no_more
