-- ===== src/Models/SystemEvents/Types.antt =====
-- The system events of the domain and of the API: a constructor for each class. Dates and times are only
-- passed on, as their texts; a SIP number is a natural number.
use pybotx.Common.{ℕ, Bool, Option, List}
use pybotx.Common.Text.{Str}
use pybotx.Common.Uuid.{Uuid}
use pybotx.Common.Json.{Fields}
use pybotx.Models.Enums.{
  ApiChatTypes, ApiUserKinds, UserKinds, OrText, ConferenceLinkTypes, BotApiConferenceLinkTypes,
}
use pybotx.Models.BotAccount.{BotAccount}
use pybotx.Models.Attachments.{IncomingAttachment, BotApiAttachment}
use pybotx.Models.Message.{BotApiEntity, Entity, Chat, UserSender, BotApiContext}
use pybotx.Models.Files.{File, ApiAsyncFile}

-- `BotCommandBase`
pub record BotCommandBase : Type 0 where
  pub bot : BotAccount
  pub raw_command : Option Fields

pub record ChatCreatedMember : Type 0 where
  pub is_admin : Bool
  pub huid : Uuid
  pub username : Option Str
  pub kind : UserKinds

-- The fields that a changed conference has on both sides.
pub record Conference : Type 0 where
  pub access_code : Option Str
  pub actor : Option Uuid
  pub added_users : List Uuid
  pub admins : List Uuid
  pub call_id : Uuid
  pub deleted_users : List Uuid
  pub end_at : Option Str
  pub link : Str
  pub link_id : Uuid
  pub members : List Uuid
  pub name : Str
  pub operation : Str
  pub sip_number : Option ℕ
  pub start_at : Str

-- pybotx/models/bot_sender.py
pub record BotSender : Type 0 where
  pub huid : Uuid
  pub is_chat_admin : Option Bool
  pub is_chat_creator : Option Bool

pub record SmartAppData : Type 0 where
  pub ref : Uuid
  pub smartapp_id : Uuid
  pub smartapp_data : Fields
  pub opts : Fields
  pub smartapp_api_version : ℕ

-- `SystemEvent`; the fields of the base class come first
pub data SystemEvent : Type 0 where
  smartapp_event :
      BotCommandBase → SmartAppData → (files : List File) → Chat → UserSender → SystemEvent
  internal_bot_notification :
      BotCommandBase → (notification opts : Fields) → Chat → BotSender → SystemEvent
  chat_created :
      BotCommandBase
      → Chat
      → (sync_id : Uuid) (chat_name : Str) (creator_id : Uuid) → List ChatCreatedMember
      → SystemEvent
  chat_deleted_by_user : BotCommandBase → (sync_id chat_id huid : Uuid) → SystemEvent
  added_to_chat deleted_from_chat left_from_chat join_to_chat :
      BotCommandBase → (huids : List Uuid) → Chat → SystemEvent
  cts_login cts_logout : BotCommandBase → (huid : Uuid) → SystemEvent
  event_deleted :
      BotCommandBase
      → (deleted_at : Str) (group_chat_id : Uuid) (sync_ids : List Uuid) (meta : Option Fields)
      → SystemEvent
  event_edit :
      BotCommandBase
      → (body : Option Str) (sync_id chat_id huid : Uuid) → List IncomingAttachment
      → List Entity
      → SystemEvent
  conference_changed : BotCommandBase → Conference → ConferenceLinkTypes → SystemEvent
  conference_created conference_deleted : BotCommandBase → (call_id : Uuid) → SystemEvent

pub record BotApiChatMember : Type 0 where
  pub is_admin : Bool
  pub huid : Uuid
  pub name : Option Str
  pub user_kind : ApiUserKinds

pub record BotApiChatCreatedData : Type 0 where
  pub chat_type : ApiChatTypes
  pub creator : Uuid
  pub group_chat_id : Uuid
  pub members : List BotApiChatMember
  pub name : Str

-- The fields of the context `from` that the events with a chat read.
pub record BotApiChatContext : Type 0 where
  pub group_chat_id : Uuid
  pub chat_type : OrText ApiChatTypes

pub record BotApiEventEditData : Type 0 where
  pub payload_body : Str
  pub body : Option Str
  pub group_chat_id : Uuid
  pub user_huid : Uuid
  pub attachments : List BotApiAttachment
  pub entities : List BotApiEntity

-- The payload and the context of each class of `BotAPISystemEvent`.
pub data BotApiSystemEventData : Type 0 where
  api_smartapp_event :
      SmartAppData → BotApiContext → (async_files : List ApiAsyncFile) → BotApiSystemEventData
  api_internal_bot_notification :
      (notification opts : Fields)
      → BotApiChatContext
      → (user_huid : Uuid) (is_admin is_creator : Option Bool) → BotApiSystemEventData
  api_chat_created : BotApiChatCreatedData → BotApiSystemEventData
  api_chat_deleted_by_user : (user_huid group_chat_id : Uuid) → BotApiSystemEventData
  api_added_to_chat : (added_members : List Uuid) → BotApiChatContext → BotApiSystemEventData
  api_deleted_from_chat : (deleted_members : List Uuid) → BotApiChatContext → BotApiSystemEventData
  api_left_from_chat : (left_members : List Uuid) → BotApiChatContext → BotApiSystemEventData
  api_cts_login api_cts_logout : (user_huid : Uuid) → BotApiSystemEventData
  api_event_deleted :
      (deleted_at : Str) (group_chat_id : Uuid) (sync_ids : List Uuid) (meta : Option Fields)
      → BotApiSystemEventData
  api_event_edit : BotApiEventEditData → BotApiSystemEventData
  api_join_to_chat : (added_members : List Uuid) → BotApiChatContext → BotApiSystemEventData
  api_conference_changed : Conference → BotApiConferenceLinkTypes → BotApiSystemEventData
  api_conference_created api_conference_deleted : (call_id : Uuid) → BotApiSystemEventData

-- `BotAPISystemEvent`: the fields of `BotAPIBaseCommand`, the host of the context, and the rest
pub record BotApiSystemEvent : Type 0 where
  pub bot_id : Uuid
  pub sync_id : Uuid
  pub host : Str
  pub event : BotApiSystemEventData
