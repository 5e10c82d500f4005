-- ===== src/Models/Enums/Types.antt =====
-- pybotx/models/enums.py: the enumerations of the domain and of the API.

pub data UserKinds : Type 0 where
  rts_user cts_user bot unregistered guest : UserKinds

pub data AttachmentTypes : Type 0 where
  image video document voice location contact link sticker : AttachmentTypes

pub data ClientPlatforms : Type 0 where
  web android ios desktop aurora : ClientPlatforms

pub data ClientNetworkContours : Type 0 where
  internal external : ClientNetworkContours

pub data MentionTypes : Type 0 where
  contact chat channel user all : MentionTypes

pub data ChatTypes : Type 0 where
  personal_chat group_chat channel thread : ChatTypes

pub data SyncSourceTypes : Type 0 where
  ad admin email openid botx : SyncSourceTypes

pub data ConferenceLinkTypes : Type 0 where
  public trusts corporate server : ConferenceLinkTypes

pub data ApiChatTypes : Type 0 where
  chat notes group_chat channel thread voex_call : ApiChatTypes

pub data BotApiCommandTypes : Type 0 where
  user system : BotApiCommandTypes

pub data BotApiSystemEventTypes : Type 0 where
  added_to_chat chat_created chat_deleted_by_user cts_login cts_logout deleted_from_chat
        internal_bot_notification left_from_chat smartapp_event event_deleted event_edit
        join_to_chat conference_changed conference_created conference_deleted :
      BotApiSystemEventTypes

pub data BotApiClientPlatforms : Type 0 where
  web android ios desktop aurora : BotApiClientPlatforms

pub data BotApiClientNetworkContours : Type 0 where
  internal external : BotApiClientNetworkContours

pub data BotApiEntityTypes : Type 0 where
  mention forward reply : BotApiEntityTypes

pub data BotApiMentionTypes : Type 0 where
  contact chat channel user all : BotApiMentionTypes

pub data BotApiConferenceLinkTypes : Type 0 where
  public trusts corporate server : BotApiConferenceLinkTypes

pub data ApiUserKinds : Type 0 where
  user cts_user botx unregistered guest : ApiUserKinds

pub data ApiAttachmentTypes : Type 0 where
  image video document voice location contact link sticker : ApiAttachmentTypes

pub data ApiSyncSourceTypes : Type 0 where
  ad admin email openid botx : ApiSyncSourceTypes
