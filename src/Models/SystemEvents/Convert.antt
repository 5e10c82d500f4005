-- ===== src/Models/SystemEvents/Convert.antt =====
-- `to_domain` of the system events.
use pybotx.Common.{Bool, List, Option, none, some, Result, ok, ◌>>=◌, map_result}
use pybotx.Common.Text.{Str}
use pybotx.Common.Uuid.{Uuid}
use pybotx.Common.Json.{Fields}
use pybotx.Models.Enums.{
  BotApiConferenceLinkTypes, ClientPlatforms, member, convert_chat_type_to_domain,
  convert_user_kind_to_domain, convert_conference_link_type_to_domain,
}
use pybotx.Models.Attachments.{convert_api_attachment_to_domain}
use pybotx.Models.Message.{
  Chat, UserDevice, BotApiContext, convert_bot_api_entity_to_domain, platform_of, sender_of,
}
use pybotx.Models.Files.{ApiAsyncFile, convert_async_file_to_domain}
use pybotx.Models.SystemEvents.Types.{
  SmartAppData, BotApiChatCreatedData, BotApiEventEditData, Conference, BotCommandBase,
  ChatCreatedMember, BotApiChatMember, BotApiChatContext, SystemEvent, smartapp_event,
  internal_bot_notification, chat_created, chat_deleted_by_user, added_to_chat, deleted_from_chat,
  left_from_chat, join_to_chat, cts_login, cts_logout, event_deleted, event_edit,
  conference_changed, conference_created, conference_deleted, BotApiSystemEvent,
  BotApiSystemEventData, api_smartapp_event, api_internal_bot_notification, api_chat_created,
  api_chat_deleted_by_user, api_added_to_chat, api_deleted_from_chat, api_left_from_chat,
  api_join_to_chat, api_cts_login, api_cts_logout, api_event_deleted, api_event_edit,
  api_conference_changed, api_conference_created, api_conference_deleted,
}

-- `Chat(id=…, type=convert_chat_type_to_domain(…))`, the same in every event of a chat
abbrev pub chat_of : BotApiChatContext → Result Chat
chat_of sender = convert_chat_type_to_domain sender.chat_type >>= λ t.
    ok (record { id = sender.group_chat_id; type = t })

abbrev pub member_of : BotApiChatMember → Result ChatCreatedMember
member_of m = convert_user_kind_to_domain m.user_kind >>= λ kind.
    ok (record { is_admin = m.is_admin; huid = m.huid; username = m.name; kind = kind })

-- The device of a smart app has no `pushes`, `timezone` and `permissions`.
abbrev pub smartapp_device_of : BotApiContext → Option ClientPlatforms → UserDevice
smartapp_device_of sender platform = record {
  manufacturer = sender.manufacturer;
  device_name = sender.device;
  os = sender.device_software;
  pushes = none;
  timezone = none;
  permissions = none;
  platform = platform;
  platform_package_id = sender.platform_package_id;
  app_version = sender.app_version;
  locale = sender.locale;
}

-- `bot=BotAccount(id=…, host=…)` and `raw_command=…`, which each `to_domain` gives the base class
abbrev pub command_base : Uuid → Str → Fields → BotCommandBase
command_base bot_id host raw_command = record {
  bot = record { id = bot_id; host = some host };
  raw_command = some raw_command;
}

-- `to_domain` of each class
abbrev pub smartapp_event_to_domain :
    BotApiSystemEvent
    → Fields
    → SmartAppData
    → BotApiContext
    → List ApiAsyncFile
    → Result SystemEvent
smartapp_event_to_domain api raw_command d sender async_files =
    platform_of sender.platform >>= λ platform.
    map_result convert_async_file_to_domain async_files >>= λ files.
    chat_of (record { group_chat_id = sender.group_chat_id; chat_type = sender.chat_type })
    >>= λ chat. ok (
        smartapp_event (command_base api.bot_id api.host raw_command) d files chat
          (sender_of sender (smartapp_device_of sender platform)))

abbrev pub internal_bot_notification_to_domain :
    BotApiSystemEvent
    → Fields
    → Fields
    → Fields
    → BotApiChatContext
    → Uuid
    → Option Bool
    → Option Bool
    → Result SystemEvent
internal_bot_notification_to_domain api raw_command notification opts sender user_huid is_admin
      is_creator =
    chat_of sender >>= λ chat. ok (
      internal_bot_notification (command_base api.bot_id api.host raw_command) notification opts
        chat (record { huid = user_huid; is_chat_admin = is_admin; is_chat_creator = is_creator }))

abbrev pub chat_created_to_domain :
    BotApiSystemEvent → Fields → BotApiChatCreatedData → Result SystemEvent
chat_created_to_domain api raw_command d = map_result member_of d.members >>= λ members.
    chat_of (record { group_chat_id = d.group_chat_id; chat_type = member d.chat_type }) >>= λ chat.
    ok (
      chat_created (command_base api.bot_id api.host raw_command) chat api.sync_id d.name d.creator
        members)

abbrev pub chat_deleted_by_user_to_domain :
    BotApiSystemEvent → Fields → Uuid → Uuid → Result SystemEvent
chat_deleted_by_user_to_domain api raw_command user_huid group_chat_id = ok (
    chat_deleted_by_user (command_base api.bot_id api.host raw_command) api.sync_id group_chat_id
      user_huid)

abbrev pub added_to_chat_to_domain :
    BotApiSystemEvent → Fields → List Uuid → BotApiChatContext → Result SystemEvent
added_to_chat_to_domain api raw_command added_members sender = chat_of sender >>= λ chat.
    ok (added_to_chat (command_base api.bot_id api.host raw_command) added_members chat)

abbrev pub deleted_from_chat_to_domain :
    BotApiSystemEvent → Fields → List Uuid → BotApiChatContext → Result SystemEvent
deleted_from_chat_to_domain api raw_command deleted_members sender = chat_of sender >>= λ chat.
    ok (deleted_from_chat (command_base api.bot_id api.host raw_command) deleted_members chat)

abbrev pub left_from_chat_to_domain :
    BotApiSystemEvent → Fields → List Uuid → BotApiChatContext → Result SystemEvent
left_from_chat_to_domain api raw_command left_members sender = chat_of sender >>= λ chat.
    ok (left_from_chat (command_base api.bot_id api.host raw_command) left_members chat)

abbrev pub cts_login_to_domain : BotApiSystemEvent → Fields → Uuid → Result SystemEvent
cts_login_to_domain api raw_command user_huid =
    ok (cts_login (command_base api.bot_id api.host raw_command) user_huid)

abbrev pub cts_logout_to_domain : BotApiSystemEvent → Fields → Uuid → Result SystemEvent
cts_logout_to_domain api raw_command user_huid =
    ok (cts_logout (command_base api.bot_id api.host raw_command) user_huid)

abbrev pub event_deleted_to_domain :
    BotApiSystemEvent → Fields → Str → Uuid → List Uuid → Option Fields → Result SystemEvent
event_deleted_to_domain api raw_command deleted_at group_chat_id sync_ids meta = ok (
    event_deleted (command_base api.bot_id api.host raw_command) deleted_at group_chat_id sync_ids
      meta)

abbrev pub event_edit_to_domain :
    BotApiSystemEvent → Fields → BotApiEventEditData → Result SystemEvent
event_edit_to_domain api raw_command d =
    map_result (λ a. convert_api_attachment_to_domain a d.payload_body) d.attachments
    >>= λ attachments. map_result convert_bot_api_entity_to_domain d.entities >>= λ entities. ok (
        event_edit (command_base api.bot_id api.host raw_command) d.body api.sync_id d.group_chat_id
          d.user_huid attachments entities)

abbrev pub join_to_chat_to_domain :
    BotApiSystemEvent → Fields → List Uuid → BotApiChatContext → Result SystemEvent
join_to_chat_to_domain api raw_command added_members sender = chat_of sender >>= λ chat.
    ok (join_to_chat (command_base api.bot_id api.host raw_command) added_members chat)

abbrev pub conference_changed_to_domain :
    BotApiSystemEvent → Fields → Conference → BotApiConferenceLinkTypes → Result SystemEvent
conference_changed_to_domain api raw_command c link_type =
    convert_conference_link_type_to_domain link_type >>= λ t.
    ok (conference_changed (command_base api.bot_id api.host raw_command) c t)

abbrev pub conference_created_to_domain : BotApiSystemEvent → Fields → Uuid → Result SystemEvent
conference_created_to_domain api raw_command call_id =
    ok (conference_created (command_base api.bot_id api.host raw_command) call_id)

abbrev pub conference_deleted_to_domain : BotApiSystemEvent → Fields → Uuid → Result SystemEvent
conference_deleted_to_domain api raw_command call_id =
    ok (conference_deleted (command_base api.bot_id api.host raw_command) call_id)

-- `to_domain` of the class that the event has.
unfoldable pub event_of : BotApiSystemEvent → Fields → BotApiSystemEventData → Result SystemEvent
event_of api raw_command (api_smartapp_event d sender async_files) =
    smartapp_event_to_domain api raw_command d sender async_files
event_of api raw_command
      (api_internal_bot_notification notification opts sender user_huid is_admin is_creator) =
    internal_bot_notification_to_domain api raw_command notification opts sender user_huid is_admin
      is_creator
event_of api raw_command (api_chat_created d) = chat_created_to_domain api raw_command d
event_of api raw_command (api_chat_deleted_by_user user_huid group_chat_id) =
    chat_deleted_by_user_to_domain api raw_command user_huid group_chat_id
event_of api raw_command (api_added_to_chat added_members sender) =
    added_to_chat_to_domain api raw_command added_members sender
event_of api raw_command (api_deleted_from_chat deleted_members sender) =
    deleted_from_chat_to_domain api raw_command deleted_members sender
event_of api raw_command (api_left_from_chat left_members sender) =
    left_from_chat_to_domain api raw_command left_members sender
event_of api raw_command (api_cts_login user_huid) = cts_login_to_domain api raw_command user_huid
event_of api raw_command (api_cts_logout user_huid) = cts_logout_to_domain api raw_command user_huid
event_of api raw_command (api_event_deleted deleted_at group_chat_id sync_ids meta) =
    event_deleted_to_domain api raw_command deleted_at group_chat_id sync_ids meta
event_of api raw_command (api_event_edit d) = event_edit_to_domain api raw_command d
event_of api raw_command (api_join_to_chat added_members sender) =
    join_to_chat_to_domain api raw_command added_members sender
event_of api raw_command (api_conference_changed c link_type) =
    conference_changed_to_domain api raw_command c link_type
event_of api raw_command (api_conference_created call_id) =
    conference_created_to_domain api raw_command call_id
event_of api raw_command (api_conference_deleted call_id) =
    conference_deleted_to_domain api raw_command call_id

unfoldable pub event_to_domain : BotApiSystemEvent → Fields → Result SystemEvent
event_to_domain api raw_command = event_of api raw_command api.event

-- `event.bot` and `event.raw_command`
abbrev pub event_base : SystemEvent → BotCommandBase
event_base (smartapp_event b d files chat sender) = b
event_base (internal_bot_notification b notification opts chat sender) = b
event_base (chat_created b chat sync_id chat_name creator_id members) = b
event_base (chat_deleted_by_user b sync_id chat_id huid) = b
event_base (added_to_chat b huids chat) = b
event_base (deleted_from_chat b huids chat) = b
event_base (left_from_chat b huids chat) = b
event_base (join_to_chat b huids chat) = b
event_base (cts_login b huid) = b
event_base (cts_logout b huid) = b
event_base (event_deleted b deleted_at group_chat_id sync_ids meta) = b
event_base (event_edit b body sync_id chat_id huid attachments entities) = b
event_base (conference_changed b c t) = b
event_base (conference_created b call_id) = b
event_base (conference_deleted b call_id) = b
