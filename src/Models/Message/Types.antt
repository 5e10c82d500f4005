-- ===== src/Models/Message/Types.antt =====
-- The incoming message of the domain and of the API. A date and time is only passed on, as its text;
-- `state`, an empty namespace for the handlers, is left out.
use pybotx.Common.{Bool, Option, List}
use pybotx.Common.Text.{Str}
use pybotx.Common.Uuid.{Uuid}
use pybotx.Common.Json.{Fields}
use pybotx.Models.Enums.{
  ClientPlatforms, ClientNetworkContours, ChatTypes, Incoming, OrText, ApiChatTypes,
  BotApiClientPlatforms, BotApiMentionTypes,
}
use pybotx.Models.BotAccount.{BotAccount}
use pybotx.Models.Mentions.{Mention}
use pybotx.Models.Attachments.{
  IncomingFileAttachment, Location, Contact, Link, Sticker, BotApiAttachment,
}

pub record UserDevice : Type 0 where
  pub manufacturer : Option Str
  pub device_name : Option Str
  pub os : Option Str
  pub pushes : Option Bool
  pub timezone : Option Str
  pub permissions : Option Fields
  pub platform : Option ClientPlatforms
  pub platform_package_id : Option Str
  pub app_version : Option Str
  pub locale : Option Str

pub record UserSender : Type 0 where
  pub huid : Uuid
  pub udid : Option Uuid
  pub ad_login : Option Str
  pub ad_domain : Option Str
  pub username : Option Str
  pub is_chat_admin : Option Bool
  pub is_chat_creator : Option Bool
  pub device : UserDevice
  pub client_network_contour : Option ClientNetworkContours

pub record Chat : Type 0 where
  pub id : Uuid
  pub type : Incoming ChatTypes

pub record Forward : Type 0 where
  pub chat_id : Uuid
  pub author_id : Uuid
  pub sync_id : Uuid
  pub chat_name : Str
  pub forward_type : Incoming ChatTypes
  pub inserted_at : Str

pub record Reply : Type 0 where
  pub author_id : Uuid
  pub sync_id : Uuid
  pub body : Str
  pub mentions : List Mention

-- The attributes that attachments set: `file`, `location`, `contact`, `link` and `sticker`.
pub record Attached : Type 0 where
  pub file : Option IncomingFileAttachment
  pub location : Option Location
  pub contact : Option Contact
  pub link : Option Link
  pub sticker : Option Sticker

-- The attributes that entities set.
pub record Collected : Type 0 where
  pub mentions : List Mention
  pub forward : Option Forward
  pub reply : Option Reply

pub record IncomingMessage : Type 0 where
  pub bot : BotAccount
  pub raw_command : Option Fields
  pub sync_id : Uuid
  pub source_sync_id : Option Uuid
  pub body : Str
  pub command_data : Fields
  pub metadata : Fields
  pub sender : UserSender
  pub chat : Chat
  pub collected : Collected
  pub attached : Attached

-- `BotAPIMentionData`; `mention_data` is the entity's id and name, in the personal and the group class
pub record BotApiMentionData : Type 0 where
  pub mention_type : BotApiMentionTypes
  pub mention_id : Uuid
  pub mention_data : Option (Uuid × Str)

pub record BotApiForwardData : Type 0 where
  pub group_chat_id : Uuid
  pub sender_huid : Uuid
  pub source_sync_id : Uuid
  pub source_chat_name : Str
  pub forward_type : ApiChatTypes
  pub source_inserted_at : Str

pub record BotApiReplyData : Type 0 where
  pub source_sync_id : Uuid
  pub sender : Uuid
  pub body : Str
  pub mentions : List BotApiMentionData

-- `BotAPIEntity`
pub data BotApiEntity : Type 0 where
  api_mention : BotApiMentionData → BotApiEntity
  api_forward : BotApiForwardData → BotApiEntity
  api_reply : BotApiReplyData → BotApiEntity

-- `Entity`
pub data Entity : Type 0 where
  mention : Mention → Entity
  forwarded : Forward → Entity
  replied : Reply → Entity

-- An item of `list[BotAPIAttachment | dict]` or `list[BotAPIEntity | dict]`.
pub data Item (A : Type 0) : Type 0 where
  known : A → Item A
  unknown : Fields → Item A

pub record BotApiDeviceMeta : Type 0 where
  pub pushes : Option Bool
  pub timezone : Option Str
  pub permissions : Option Fields

-- `BotAPIIncomingMessageContext`
pub record BotApiContext : Type 0 where
  pub host : Str
  pub user_huid : Uuid
  pub user_udid : Option Uuid
  pub ad_domain : Option Str
  pub ad_login : Option Str
  pub username : Option Str
  pub is_admin : Option Bool
  pub is_creator : Option Bool
  pub group_chat_id : Uuid
  pub chat_type : OrText ApiChatTypes
  pub app_version : Option Str
  pub platform : Option BotApiClientPlatforms
  pub platform_package_id : Option Str
  pub device : Option Str
  pub device_meta : Option BotApiDeviceMeta
  pub device_software : Option Str
  pub manufacturer : Option Str
  pub locale : Option Str

-- `BotAPICommandPayload`, with `data` as `command_data` and without its constant `command_type`
pub record BotApiCommandPayload : Type 0 where
  pub body : Str
  pub command_data : Fields
  pub metadata : Fields

-- `BotAPIIncomingMessage`, without its constant `proto_version`
pub record BotApiIncomingMessage : Type 0 where
  pub bot_id : Uuid
  pub sync_id : Uuid
  pub payload : BotApiCommandPayload
  pub sender : BotApiContext
  pub source_sync_id : Option Uuid
  pub attachments : List (Item BotApiAttachment)
  pub entities : List (Item BotApiEntity)
