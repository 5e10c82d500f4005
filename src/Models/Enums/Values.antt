-- ===== src/Models/Enums/Values.antt =====
-- The value of each member, and the lookup of a member by its value, `Enum(value)`.

use pybotx.Common.{Option, none, some, List, [], ◌∷◌, if◌then◌else◌}
use pybotx.Common.Text.{Str, codes, str_eq}
use pybotx.Models.Enums.Types.{
  MentionTypes, ApiChatTypes, BotApiCommandTypes, BotApiSystemEventTypes, BotApiEntityTypes,
  BotApiMentionTypes, ApiSyncSourceTypes,
}

module _ {A : Type 0} (value : A → Str) where
  -- The member that has the value, as `Enum.__call__` finds it.
  unfoldable pub member? : List A → Str → Option A
  unfolding str_eq
  member? [] s = none
  member? (a ∷ members) s = if str_eq (value a) s then some a else member? members s

unfoldable pub mention_types_value : MentionTypes → Str
mention_types_value MentionTypes.contact = codes "CONTACT"
mention_types_value MentionTypes.chat = codes "CHAT"
mention_types_value MentionTypes.channel = codes "CHANNEL"
mention_types_value MentionTypes.user = codes "USER"
mention_types_value MentionTypes.all = codes "ALL"

abbrev pub mention_types_members : List MentionTypes
mention_types_members =
    MentionTypes.contact ∷ MentionTypes.chat ∷ MentionTypes.channel ∷ MentionTypes.user
    ∷ MentionTypes.all ∷ []

unfoldable pub api_chat_types_value : ApiChatTypes → Str
api_chat_types_value ApiChatTypes.chat = codes "chat"
api_chat_types_value ApiChatTypes.notes = codes "notes"
api_chat_types_value ApiChatTypes.group_chat = codes "group_chat"
api_chat_types_value ApiChatTypes.channel = codes "channel"
api_chat_types_value ApiChatTypes.thread = codes "thread"
api_chat_types_value ApiChatTypes.voex_call = codes "voex_call"

abbrev pub api_chat_types_members : List ApiChatTypes
api_chat_types_members =
    ApiChatTypes.chat ∷ ApiChatTypes.notes ∷ ApiChatTypes.group_chat ∷ ApiChatTypes.channel
    ∷ ApiChatTypes.thread ∷ ApiChatTypes.voex_call ∷ []

unfoldable pub bot_api_mention_types_value : BotApiMentionTypes → Str
bot_api_mention_types_value BotApiMentionTypes.contact = codes "contact"
bot_api_mention_types_value BotApiMentionTypes.chat = codes "chat"
bot_api_mention_types_value BotApiMentionTypes.channel = codes "channel"
bot_api_mention_types_value BotApiMentionTypes.user = codes "user"
bot_api_mention_types_value BotApiMentionTypes.all = codes "all"

abbrev pub bot_api_mention_types_members : List BotApiMentionTypes
bot_api_mention_types_members =
    BotApiMentionTypes.contact ∷ BotApiMentionTypes.chat ∷ BotApiMentionTypes.channel
    ∷ BotApiMentionTypes.user ∷ BotApiMentionTypes.all ∷ []

unfoldable pub bot_api_system_event_types_value : BotApiSystemEventTypes → Str
bot_api_system_event_types_value BotApiSystemEventTypes.added_to_chat = codes "system:added_to_chat"
bot_api_system_event_types_value BotApiSystemEventTypes.chat_created = codes "system:chat_created"
bot_api_system_event_types_value BotApiSystemEventTypes.chat_deleted_by_user =
    codes "system:chat_deleted_by_user"
bot_api_system_event_types_value BotApiSystemEventTypes.cts_login = codes "system:cts_login"
bot_api_system_event_types_value BotApiSystemEventTypes.cts_logout = codes "system:cts_logout"
bot_api_system_event_types_value BotApiSystemEventTypes.deleted_from_chat =
    codes "system:deleted_from_chat"
bot_api_system_event_types_value BotApiSystemEventTypes.internal_bot_notification =
    codes "system:internal_bot_notification"
bot_api_system_event_types_value BotApiSystemEventTypes.left_from_chat =
    codes "system:left_from_chat"
bot_api_system_event_types_value BotApiSystemEventTypes.smartapp_event =
    codes "system:smartapp_event"
bot_api_system_event_types_value BotApiSystemEventTypes.event_deleted = codes "system:event_deleted"
bot_api_system_event_types_value BotApiSystemEventTypes.event_edit = codes "system:event_edit"
bot_api_system_event_types_value BotApiSystemEventTypes.join_to_chat =
    codes "system:user_joined_to_chat"
bot_api_system_event_types_value BotApiSystemEventTypes.conference_changed =
    codes "system:conference_changed"
bot_api_system_event_types_value BotApiSystemEventTypes.conference_created =
    codes "system:conference_created"
bot_api_system_event_types_value BotApiSystemEventTypes.conference_deleted =
    codes "system:conference_deleted"

abbrev pub bot_api_system_event_types_members : List BotApiSystemEventTypes
bot_api_system_event_types_members =
    BotApiSystemEventTypes.added_to_chat ∷ BotApiSystemEventTypes.chat_created
    ∷ BotApiSystemEventTypes.chat_deleted_by_user ∷ BotApiSystemEventTypes.cts_login
    ∷ BotApiSystemEventTypes.cts_logout ∷ BotApiSystemEventTypes.deleted_from_chat
    ∷ BotApiSystemEventTypes.internal_bot_notification ∷ BotApiSystemEventTypes.left_from_chat
    ∷ BotApiSystemEventTypes.smartapp_event ∷ BotApiSystemEventTypes.event_deleted
    ∷ BotApiSystemEventTypes.event_edit ∷ BotApiSystemEventTypes.join_to_chat
    ∷ BotApiSystemEventTypes.conference_changed ∷ BotApiSystemEventTypes.conference_created
    ∷ BotApiSystemEventTypes.conference_deleted ∷ []

unfoldable pub bot_api_command_types_value : BotApiCommandTypes → Str
bot_api_command_types_value BotApiCommandTypes.user = codes "user"
bot_api_command_types_value BotApiCommandTypes.system = codes "system"

abbrev pub bot_api_command_types_members : List BotApiCommandTypes
bot_api_command_types_members = BotApiCommandTypes.user ∷ BotApiCommandTypes.system ∷ []

unfoldable pub bot_api_entity_types_value : BotApiEntityTypes → Str
bot_api_entity_types_value BotApiEntityTypes.mention = codes "mention"
bot_api_entity_types_value BotApiEntityTypes.forward = codes "forward"
bot_api_entity_types_value BotApiEntityTypes.reply = codes "reply"

abbrev pub bot_api_entity_types_members : List BotApiEntityTypes
bot_api_entity_types_members =
    BotApiEntityTypes.mention ∷ BotApiEntityTypes.forward ∷ BotApiEntityTypes.reply ∷ []

unfoldable pub api_sync_source_types_value : ApiSyncSourceTypes → Str
api_sync_source_types_value ApiSyncSourceTypes.ad = codes "ad"
api_sync_source_types_value ApiSyncSourceTypes.admin = codes "admin"
api_sync_source_types_value ApiSyncSourceTypes.email = codes "email"
api_sync_source_types_value ApiSyncSourceTypes.openid = codes "openid"
api_sync_source_types_value ApiSyncSourceTypes.botx = codes "botx"

abbrev pub api_sync_source_types_members : List ApiSyncSourceTypes
api_sync_source_types_members =
    ApiSyncSourceTypes.ad ∷ ApiSyncSourceTypes.admin ∷ ApiSyncSourceTypes.email
    ∷ ApiSyncSourceTypes.openid ∷ ApiSyncSourceTypes.botx ∷ []
