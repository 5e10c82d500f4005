-- ===== src/Models/Enums/Convert.antt =====
-- The conversions between the enumerations of the API and of the domain. Each looks its argument
-- up in a mapping and raises `NotImplementedError` where the mapping has no entry.

use pybotx.Common.{Option, none, some, Result, ok, not_implemented, or_raise, ◌>>=◌, List}
use pybotx.Common.Text.{Str}
use pybotx.Models.Enums.Types.{
  UserKinds, AttachmentTypes, ClientPlatforms, ClientNetworkContours, MentionTypes, ChatTypes,
  SyncSourceTypes, ConferenceLinkTypes, ApiChatTypes, BotApiClientPlatforms,
  BotApiClientNetworkContours, BotApiMentionTypes, BotApiConferenceLinkTypes, ApiUserKinds,
  ApiAttachmentTypes, ApiSyncSourceTypes,
}
use pybotx.Models.Enums.Values.{
  member?, api_chat_types_value, api_chat_types_members, api_sync_source_types_value,
  api_sync_source_types_members,
}

unfoldable pub client_platform_to_domain_mapping : BotApiClientPlatforms → Option ClientPlatforms
client_platform_to_domain_mapping BotApiClientPlatforms.web = some ClientPlatforms.web
client_platform_to_domain_mapping BotApiClientPlatforms.android = some ClientPlatforms.android
client_platform_to_domain_mapping BotApiClientPlatforms.ios = some ClientPlatforms.ios
client_platform_to_domain_mapping BotApiClientPlatforms.desktop = some ClientPlatforms.desktop
client_platform_to_domain_mapping BotApiClientPlatforms.aurora = some ClientPlatforms.aurora

unfoldable pub convert_client_platform_to_domain : BotApiClientPlatforms → Result ClientPlatforms
unfolding client_platform_to_domain_mapping
convert_client_platform_to_domain t = or_raise not_implemented (client_platform_to_domain_mapping t)

unfoldable pub client_network_contour_to_domain_mapping :
    BotApiClientNetworkContours → Option ClientNetworkContours
client_network_contour_to_domain_mapping BotApiClientNetworkContours.internal =
    some ClientNetworkContours.internal
client_network_contour_to_domain_mapping BotApiClientNetworkContours.external =
    some ClientNetworkContours.external

unfoldable pub convert_client_network_contour_to_domain :
    BotApiClientNetworkContours → Result ClientNetworkContours
unfolding client_network_contour_to_domain_mapping
convert_client_network_contour_to_domain t =
    or_raise not_implemented (client_network_contour_to_domain_mapping t)

unfoldable pub mention_type_from_domain_mapping : MentionTypes → Option BotApiMentionTypes
mention_type_from_domain_mapping MentionTypes.user = some BotApiMentionTypes.user
mention_type_from_domain_mapping MentionTypes.contact = some BotApiMentionTypes.contact
mention_type_from_domain_mapping MentionTypes.chat = some BotApiMentionTypes.chat
mention_type_from_domain_mapping MentionTypes.channel = some BotApiMentionTypes.channel
mention_type_from_domain_mapping MentionTypes.all = some BotApiMentionTypes.all

unfoldable pub convert_mention_type_from_domain : MentionTypes → Result BotApiMentionTypes
unfolding mention_type_from_domain_mapping
convert_mention_type_from_domain t = or_raise not_implemented (mention_type_from_domain_mapping t)

unfoldable pub user_kind_to_domain_mapping : ApiUserKinds → Option UserKinds
user_kind_to_domain_mapping ApiUserKinds.user = some UserKinds.rts_user
user_kind_to_domain_mapping ApiUserKinds.cts_user = some UserKinds.cts_user
user_kind_to_domain_mapping ApiUserKinds.botx = some UserKinds.bot
user_kind_to_domain_mapping ApiUserKinds.unregistered = some UserKinds.unregistered
user_kind_to_domain_mapping ApiUserKinds.guest = some UserKinds.guest

unfoldable pub convert_user_kind_to_domain : ApiUserKinds → Result UserKinds
unfolding user_kind_to_domain_mapping
convert_user_kind_to_domain t = or_raise not_implemented (user_kind_to_domain_mapping t)

unfoldable pub attachment_type_to_domain_mapping : ApiAttachmentTypes → Option AttachmentTypes
attachment_type_to_domain_mapping ApiAttachmentTypes.image = some AttachmentTypes.image
attachment_type_to_domain_mapping ApiAttachmentTypes.video = some AttachmentTypes.video
attachment_type_to_domain_mapping ApiAttachmentTypes.document = some AttachmentTypes.document
attachment_type_to_domain_mapping ApiAttachmentTypes.voice = some AttachmentTypes.voice
attachment_type_to_domain_mapping ApiAttachmentTypes.location = some AttachmentTypes.location
attachment_type_to_domain_mapping ApiAttachmentTypes.contact = some AttachmentTypes.contact
attachment_type_to_domain_mapping ApiAttachmentTypes.link = some AttachmentTypes.link
attachment_type_to_domain_mapping ApiAttachmentTypes.sticker = some AttachmentTypes.sticker

unfoldable pub convert_attachment_type_to_domain : ApiAttachmentTypes → Result AttachmentTypes
unfolding attachment_type_to_domain_mapping
convert_attachment_type_to_domain t = or_raise not_implemented (attachment_type_to_domain_mapping t)

unfoldable pub conference_link_type_to_domain_mapping :
    BotApiConferenceLinkTypes → Option ConferenceLinkTypes
conference_link_type_to_domain_mapping BotApiConferenceLinkTypes.public =
    some ConferenceLinkTypes.public
conference_link_type_to_domain_mapping BotApiConferenceLinkTypes.trusts =
    some ConferenceLinkTypes.trusts
conference_link_type_to_domain_mapping BotApiConferenceLinkTypes.corporate =
    some ConferenceLinkTypes.corporate
conference_link_type_to_domain_mapping BotApiConferenceLinkTypes.server =
    some ConferenceLinkTypes.server

unfoldable pub convert_conference_link_type_to_domain :
    BotApiConferenceLinkTypes → Result ConferenceLinkTypes
unfolding conference_link_type_to_domain_mapping
convert_conference_link_type_to_domain t =
    or_raise not_implemented (conference_link_type_to_domain_mapping t)

unfoldable pub attachment_type_from_domain_mapping : AttachmentTypes → Option ApiAttachmentTypes
attachment_type_from_domain_mapping AttachmentTypes.image = some ApiAttachmentTypes.image
attachment_type_from_domain_mapping AttachmentTypes.video = some ApiAttachmentTypes.video
attachment_type_from_domain_mapping AttachmentTypes.document = some ApiAttachmentTypes.document
attachment_type_from_domain_mapping AttachmentTypes.voice = some ApiAttachmentTypes.voice
attachment_type_from_domain_mapping AttachmentTypes.location = some ApiAttachmentTypes.location
attachment_type_from_domain_mapping AttachmentTypes.contact = some ApiAttachmentTypes.contact
attachment_type_from_domain_mapping AttachmentTypes.link = some ApiAttachmentTypes.link
attachment_type_from_domain_mapping AttachmentTypes.sticker = none

unfoldable pub convert_attachment_type_from_domain : AttachmentTypes → Result ApiAttachmentTypes
unfolding attachment_type_from_domain_mapping
convert_attachment_type_from_domain t =
    or_raise not_implemented (attachment_type_from_domain_mapping t)

unfoldable pub chat_type_from_domain_mapping : ChatTypes → Option ApiChatTypes
chat_type_from_domain_mapping ChatTypes.personal_chat = some ApiChatTypes.chat
chat_type_from_domain_mapping ChatTypes.group_chat = some ApiChatTypes.group_chat
chat_type_from_domain_mapping ChatTypes.channel = some ApiChatTypes.channel
chat_type_from_domain_mapping ChatTypes.thread = some ApiChatTypes.thread

unfoldable pub convert_chat_type_from_domain : ChatTypes → Result ApiChatTypes
unfolding chat_type_from_domain_mapping
convert_chat_type_from_domain t = or_raise not_implemented (chat_type_from_domain_mapping t)

unfoldable pub chat_type_to_domain_mapping : ApiChatTypes → Option ChatTypes
chat_type_to_domain_mapping ApiChatTypes.chat = some ChatTypes.personal_chat
chat_type_to_domain_mapping ApiChatTypes.notes = some ChatTypes.personal_chat
chat_type_to_domain_mapping ApiChatTypes.group_chat = some ChatTypes.group_chat
chat_type_to_domain_mapping ApiChatTypes.channel = some ChatTypes.channel
chat_type_to_domain_mapping ApiChatTypes.thread = some ChatTypes.thread
chat_type_to_domain_mapping ApiChatTypes.voex_call = some ChatTypes.group_chat

unfoldable pub sync_source_type_to_domain_mapping : ApiSyncSourceTypes → Option SyncSourceTypes
sync_source_type_to_domain_mapping ApiSyncSourceTypes.ad = some SyncSourceTypes.ad
sync_source_type_to_domain_mapping ApiSyncSourceTypes.admin = some SyncSourceTypes.admin
sync_source_type_to_domain_mapping ApiSyncSourceTypes.email = some SyncSourceTypes.email
sync_source_type_to_domain_mapping ApiSyncSourceTypes.openid = some SyncSourceTypes.openid
sync_source_type_to_domain_mapping ApiSyncSourceTypes.botx = some SyncSourceTypes.botx

-- `IncomingChatTypes` and `IncomingSyncSourceTypes`: a known type, or the text "UNSUPPORTED".
pub data Incoming (A : Type 0) : Type 0 where
  supported : A → Incoming A
  unsupported : Incoming A

-- `APIChatTypes | str` and `APISyncSourceTypes | str`
pub data OrText (A : Type 0) : Type 0 where
  member : A → OrText A
  text : Str → OrText A

module _ {A B : Type 0} (value : A → Str) (members : List A) (mapping : A → Option B) where
  -- `Enum(x)`: a member is itself, a text is looked up among the values
  coerce : OrText A → Option A
  coerce (member a) = some a
  coerce (text s) = member? value members s

  abbrev pub of_coerced : Option A → Result (Incoming B)
  of_coerced none = ok unsupported
  of_coerced (some a) = or_raise not_implemented (mapping a) >>= λ b. ok (supported b)

  -- the `try` of both conversions
  pub to_incoming : OrText A → Result (Incoming B)
  unfolding coerce
  to_incoming x = of_coerced (coerce x)

unfoldable pub convert_chat_type_to_domain : OrText ApiChatTypes → Result (Incoming ChatTypes)
unfolding to_incoming
convert_chat_type_to_domain =
    to_incoming api_chat_types_value api_chat_types_members chat_type_to_domain_mapping

unfoldable pub convert_sync_source_type_to_domain :
    OrText ApiSyncSourceTypes → Result (Incoming SyncSourceTypes)
unfolding to_incoming
convert_sync_source_type_to_domain =
    to_incoming api_sync_source_types_value api_sync_source_types_members
      sync_source_type_to_domain_mapping
