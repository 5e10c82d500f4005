-- ===== src/Tests/Commands.antt =====
-- Concrete messages, entities and events.
use pybotx.Common.{◌≡◌, refl, none, some, List, [], ◌∷◌, ◌++◌, inr, ok, ◌>>=◌, map_result, arith}
use pybotx.Common.Text.{codes, split, strip, is_space, str_eq}
use pybotx.Common.Json.{end}
use pybotx.Models.Enums
use pybotx.Models.Attachments
use pybotx.Models.Message
use pybotx.Models.Mentions
use pybotx.Models.SystemEvents

-- "/echo a b"
arguments-command_example :
    (split ((b'/' ∷ codes "echo") ++ b' ' ∷ codes "a b")
      ≡ (b'/' ∷ codes "echo") ∷ split (codes "a b"))
    × (Message.arguments ((b'/' ∷ codes "echo") ++ b' ' ∷ codes "a b") ≡ split (codes "a b"))
unfolding is_space
arguments-command_example =
    Message.arguments-command b'/' (codes "echo") b' ' (codes "a b")
      (refl, (refl, (refl, (refl, (refl, tt))))) refl

-- " /echo x"
argument-leading_space_example :
    (split (b' ' ∷ (codes "/ech" ++ b'o' ∷ b' ' ∷ codes "x"))
      ≡ (codes "/ech" ++ b'o' ∷ []) ∷ split (codes "x"))
    × (Message.argument (b' ' ∷ (codes "/ech" ++ b'o' ∷ b' ' ∷ codes "x"))
        ≡ strip (b'o' ∷ b' ' ∷ codes "x"))
unfolding is_space
argument-leading_space_example =
    Message.argument-leading_space b' ' (codes "/ech") b'o' b' ' (codes "x") refl
      (refl, (refl, (refl, (refl, (refl, tt))))) refl

abbrev mention_of_user : Message.BotApiMentionData
mention_of_user = record {
  mention_type = Enums.BotApiMentionTypes.user;
  mention_id = 1;
  mention_data = some (2, codes "Ann");
}

abbrev a_forward : Message.BotApiForwardData
a_forward = record {
  group_chat_id = 1;
  sender_huid = 2;
  source_sync_id = 3;
  source_chat_name = codes "c";
  forward_type = Enums.ApiChatTypes.chat;
  source_inserted_at = codes "t";
}

abbrev two_entities : List (Message.Item Message.BotApiEntity)
two_entities =
    Message.Item.known (Message.BotApiEntity.api_mention mention_of_user)
    ∷ Message.Item.unknown end
    ∷ Message.Item.known (Message.BotApiEntity.api_forward a_forward)
    ∷ []

collect_entities_lem_example : Message.collect_entities Message.nothing_collected two_entities ≡ (
    map_result Message.convert_bot_api_entity_to_domain (Message.known_items two_entities) >>= λ es.
    ok (Message.collected_of es))
collect_entities_lem_example = Message.collect_entities_lem two_entities

abbrev a_context : Message.BotApiContext
a_context = record {
  host = codes "h";
  user_huid = 1;
  user_udid = none;
  ad_domain = none;
  ad_login = none;
  username = some (codes "u");
  is_admin = none;
  is_creator = none;
  group_chat_id = 4;
  chat_type = Enums.OrText.text (codes "chat");
  app_version = none;
  platform = some Enums.BotApiClientPlatforms.ios;
  platform_package_id = none;
  device = none;
  device_meta = none;
  device_software = none;
  manufacturer = none;
  locale = none;
}

abbrev pub a_command : Message.BotApiIncomingMessage
a_command = record {
  bot_id = 9;
  sync_id = 8;
  payload = record { body = codes "/echo a"; command_data = end; metadata = end };
  sender = a_context;
  source_sync_id = none;
  attachments = Message.Item.known (Attachments.BotApiAttachment.api_contact (codes "Bob")) ∷ [];
  entities = two_entities;
}

abbrev pub a_contact : Message.Attached
a_contact = record {
  file = none;
  location = none;
  contact = some (record { name = codes "Bob" });
  link = none;
  sticker = none;
}

to_domain_total_example :
    (m : Message.IncomingMessage) × (Message.to_domain a_command end ≡ ok m)
    × (m.attached ≡ a_contact)
unfolding Message.attach_first Message.attach Attachments.convert_api_attachment_to_domain
to_domain_total_example =
    Message.to_domain_total a_command end a_contact refl (inr (ground arith), (tt, tt))

abbrev pub the_entities : List Message.Entity
the_entities =
    Message.Entity.mention (Mentions.Mention.user 2 (some (codes "Ann")))
    ∷ Message.Entity.forwarded (record {
      chat_id = 1;
      author_id = 2;
      sync_id = 3;
      chat_name = codes "c";
      forward_type = Enums.Incoming.supported Enums.ChatTypes.personal_chat;
      inserted_at = codes "t";
    })
    ∷ []

abbrev pub the_message : Message.IncomingMessage
the_message =
    Message.message_of a_command end (some Enums.ClientPlatforms.ios)
      (Enums.Incoming.supported Enums.ChatTypes.personal_chat) a_contact
      (Message.collected_of the_entities)

to_domain_lem_example :
    Message.HasFields a_command end the_message
    × (Message.platform_of a_command.sender.platform ≡ ok the_message.sender.device.platform)
    × (Enums.convert_chat_type_to_domain a_command.sender.chat_type ≡ ok the_message.chat.type)
    × (map_result
          (λ i. Attachments.convert_api_attachment_to_domain i a_command.payload.body)
          (Message.known_first a_command.attachments)
        ≡ ok (Message.attachments_in the_message.attached))
    × ((es : List Message.Entity) × (map_result Message.convert_bot_api_entity_to_domain
            (Message.known_items a_command.entities)
          ≡ ok es)
        × (the_message.collected ≡ Message.collected_of es))
unfolding Message.to_domain Message.platform_of Enums.convert_client_platform_to_domain
    Enums.client_platform_to_domain_mapping Enums.convert_chat_type_to_domain
    Enums.chat_type_to_domain_mapping Enums.member? Enums.api_chat_types_value str_eq
    Message.attach_first Message.attach Attachments.convert_api_attachment_to_domain
    Message.collect_entities Message.collect Message.convert_bot_api_entity_to_domain
    Message.convert_bot_api_mention_to_domain Message.mention_of_type Message.mentioned
to_domain_lem_example = Message.to_domain_lem a_command end the_message refl

abbrev pub a_login : SystemEvents.BotApiSystemEvent
a_login = record {
  bot_id = 9;
  sync_id = 8;
  host = codes "h";
  event = SystemEvents.BotApiSystemEventData.api_cts_login 3;
}

abbrev pub the_login : SystemEvents.SystemEvent
the_login =
    SystemEvents.SystemEvent.cts_login
      (record { bot = record { id = 9; host = some (codes "h") }; raw_command = some end }) 3

event_to_domain_lem_example : SystemEvents.event_base the_login ≡ record {
  bot = record { id = a_login.bot_id; host = some a_login.host };
  raw_command = some end;
}
unfolding SystemEvents.event_to_domain SystemEvents.event_of
event_to_domain_lem_example = SystemEvents.event_to_domain_lem a_login end the_login refl

event_to_domain_total_example :
    (e : SystemEvents.SystemEvent) × (SystemEvents.event_to_domain a_login end ≡ ok e)
event_to_domain_total_example = SystemEvents.event_to_domain_total a_login end tt
