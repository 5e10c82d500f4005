-- ===== src/Models/Message/Convert.antt =====
-- `to_domain` of an incoming message and the functions that it calls.
use pybotx.Common.{
  Option, none, some, List, [], ◌∷◌, ◌++◌, Result, ok, err, attribute_error, ◌>>=◌, map_result,
}
use pybotx.Common.Text.{Str}
use pybotx.Common.Uuid.{Uuid}
use pybotx.Common.Json.{Json, obj, Fields}
use pybotx.Models.Enums.{
  ChatTypes, Incoming, ClientPlatforms, BotApiClientPlatforms, BotApiMentionTypes, member,
  convert_chat_type_to_domain, convert_client_platform_to_domain,
}
use pybotx.Models.Mentions.{Mention}
use pybotx.Models.Attachments.{
  BotApiAttachment, IncomingAttachment, convert_api_attachment_to_domain,
}
use pybotx.Models.Message.Types.{
  UserDevice, UserSender, Attached, Collected, IncomingMessage, BotApiMentionData, BotApiEntity,
  api_mention, api_forward, api_reply, Entity, mention, forwarded, replied, Item, known, unknown,
  BotApiDeviceMeta, BotApiContext, BotApiIncomingMessage,
}

-- `mention_data.entity_id` and `mention_data.name`, of the cast value
unfoldable pub mentioned : Option (Uuid × Str) → Result (Uuid × Str)
mentioned none = err attribute_error
mentioned (some d) = ok d

-- The `match` on the type.
unfoldable pub mention_of_type : BotApiMentionTypes → Option (Uuid × Str) → Result Mention
unfolding mentioned
mention_of_type BotApiMentionTypes.user d = mentioned d >>= λ m. ok (Mention.user m.0 (some m.1))
mention_of_type BotApiMentionTypes.chat d = mentioned d >>= λ m. ok (Mention.chat m.0 (some m.1))
mention_of_type BotApiMentionTypes.contact d =
    mentioned d >>= λ m. ok (Mention.contact m.0 (some m.1))
mention_of_type BotApiMentionTypes.channel d =
    mentioned d >>= λ m. ok (Mention.channel m.0 (some m.1))
mention_of_type BotApiMentionTypes.all d = ok Mention.all

-- `_convert_bot_api_mention_to_domain`
unfoldable pub convert_bot_api_mention_to_domain : BotApiMentionData → Result Mention
unfolding mention_of_type
convert_bot_api_mention_to_domain api = mention_of_type api.mention_type api.mention_data

-- `convert_bot_api_entity_to_domain`: the guards on `type` hold of the class that has it.
unfoldable pub convert_bot_api_entity_to_domain : BotApiEntity → Result Entity
convert_bot_api_entity_to_domain (api_mention d) =
    convert_bot_api_mention_to_domain d >>= λ m. ok (mention m)
convert_bot_api_entity_to_domain (api_forward d) =
    convert_chat_type_to_domain (member d.forward_type) >>= λ forward_type. ok (
      forwarded (record {
        chat_id = d.group_chat_id;
        author_id = d.sender_huid;
        sync_id = d.source_sync_id;
        chat_name = d.source_chat_name;
        forward_type = forward_type;
        inserted_at = d.source_inserted_at;
      }))
convert_bot_api_entity_to_domain (api_reply d) =
    map_result convert_bot_api_mention_to_domain d.mentions >>= λ mentions. ok (
      replied (record {
        author_id = d.sender;
        sync_id = d.source_sync_id;
        body = d.body;
        mentions = mentions;
      }))

-- The body of the loop over entities.
unfoldable pub collect : Collected → Entity → Collected
collect c (mention m) = record c { mentions = c.mentions ++ m ∷ [] }
collect c (forwarded f) = record c { forward = some f }
collect c (replied r) = record c { reply = some r }

unfoldable pub collect_entities : Collected → List (Item BotApiEntity) → Result Collected
collect_entities c [] = ok c
collect_entities c (unknown d ∷ entities) = collect_entities c entities
collect_entities c (known e ∷ entities) =
    convert_bot_api_entity_to_domain e >>= λ entity. collect_entities (collect c entity) entities

abbrev pub nothing_collected : Collected
nothing_collected = record { mentions = []; forward = none; reply = none }

abbrev pub nothing_attached : Attached
nothing_attached = record {
  file = none;
  location = none;
  contact = none;
  link = none;
  sticker = none;
}

-- The chain of `isinstance` tests.
unfoldable pub attach : IncomingAttachment → Attached
attach (IncomingAttachment.file f) = record nothing_attached { file = some f }
attach (IncomingAttachment.location l) = record nothing_attached { location = some l }
attach (IncomingAttachment.contact c) = record nothing_attached { contact = some c }
attach (IncomingAttachment.link l) = record nothing_attached { link = some l }
attach (IncomingAttachment.sticker s) = record nothing_attached { sticker = some s }

-- Only the first attachment is looked at.
unfoldable pub attach_first : List (Item BotApiAttachment) → Str → Result Attached
attach_first [] body = ok nothing_attached
attach_first (unknown d ∷ attachments) body = ok nothing_attached
attach_first (known a ∷ attachments) body =
    convert_api_attachment_to_domain a body >>= λ attachment. ok (attach attachment)

-- `convert_client_platform_to_domain(platform) if platform else None`; a member is true
unfoldable pub platform_of : Option BotApiClientPlatforms → Result (Option ClientPlatforms)
platform_of none = ok none
platform_of (some p) = convert_client_platform_to_domain p >>= λ platform. ok (some platform)

-- A field of `device_meta`, or `None` without it; an instance of the class is true
abbrev pub meta_field :
    {A : Type 0} → (BotApiDeviceMeta → Option A) → Option BotApiDeviceMeta → Option A
meta_field f none = none
meta_field f (some m) = f m

abbrev pub device_of : BotApiContext → Option ClientPlatforms → UserDevice
device_of sender platform = record {
  manufacturer = sender.manufacturer;
  device_name = sender.device;
  os = sender.device_software;
  pushes = meta_field (λ m. m.pushes) sender.device_meta;
  timezone = meta_field (λ m. m.timezone) sender.device_meta;
  permissions = meta_field (λ m. m.permissions) sender.device_meta;
  platform = platform;
  platform_package_id = sender.platform_package_id;
  app_version = sender.app_version;
  locale = sender.locale;
}

abbrev pub sender_of : BotApiContext → UserDevice → UserSender
sender_of sender device = record {
  huid = sender.user_huid;
  udid = sender.user_udid;
  ad_login = sender.ad_login;
  ad_domain = sender.ad_domain;
  username = sender.username;
  is_chat_admin = sender.is_admin;
  is_chat_creator = sender.is_creator;
  device = device;
  client_network_contour = none;
}

abbrev pub message_of :
    BotApiIncomingMessage
    → Fields
    → Option ClientPlatforms
    → Incoming ChatTypes
    → Attached
    → Collected
    → IncomingMessage
message_of api raw_command platform chat_type attached collected = record {
  bot = record { id = api.bot_id; host = some api.sender.host };
  raw_command = some raw_command;
  sync_id = api.sync_id;
  source_sync_id = api.source_sync_id;
  body = api.payload.body;
  command_data = api.payload.command_data;
  metadata = api.payload.metadata;
  sender = sender_of api.sender (device_of api.sender platform);
  chat = record { id = api.sender.group_chat_id; type = chat_type };
  collected = collected;
  attached = attached;
}

-- `BotAPIIncomingMessage.to_domain`
unfoldable pub to_domain : BotApiIncomingMessage → Fields → Result IncomingMessage
to_domain api raw_command = platform_of api.sender.platform >>= λ platform.
    convert_chat_type_to_domain api.sender.chat_type >>= λ chat_type.
    attach_first api.attachments api.payload.body >>= λ attached.
    collect_entities nothing_collected api.entities >>= λ collected.
    ok (message_of api raw_command platform chat_type attached collected)

-- `validate_items`; `validate` is pydantic's `TypeAdapter.validate_python`, which has no value where it
-- raises `ValidationError`. What is no object is dropped.
unfoldable pub validate_items :
    {A : Type 0} → (validate : Fields → Option A) → List Json → List (Item A)
validate_items validate [] = []
validate_items validate (obj d ∷ value) =
    elim (validate d) [ none ↦ unknown d | some a ↦ known a ] ∷ validate_items validate value
validate_items validate (_ ∷ value) = validate_items validate value
