-- ===== src/Models/Message/Built.antt =====
-- The message that `to_domain` builds.
use pybotx.Common.{
  ◌≡◌, refl, sym, ap, ◌∙◌, Option, none, some, List, [], ◌∷◌, All, ok, bind_ok, ok-injective,
  map_result,
}
use pybotx.Common.Text.{Str}
use pybotx.Common.Json.{Fields}
use pybotx.Models.Enums.{
  BotApiClientPlatforms, ClientPlatforms, chat_type_total, convert_client_platform_to_domain,
  client_platform_to_domain_mapping, convert_chat_type_to_domain,
}
use pybotx.Models.Attachments.{
  BotApiAttachment, IncomingAttachment, file, location, contact, link, sticker,
  convert_api_attachment_to_domain,
}
use pybotx.Models.Message.Types.{
  Attached, IncomingMessage, BotApiIncomingMessage, Entity, Item, known, unknown,
}
use pybotx.Models.Message.Convert.{
  attach, attach_first, collect_entities, nothing_collected, convert_bot_api_entity_to_domain,
  platform_of, to_domain, message_of,
}
use pybotx.Models.Message.Entities.{
  known_items, collected_of, collect_entities_lem, collect_entities_total, IsCompleteEntity,
}

abbrev present {ℓ κ} : {A : Type ℓ} {B : Type κ} → (A → B) → Option A → List B → List B
present f none rest = rest
present f (some a) rest = f a ∷ rest

-- All the attachments that a message holds, whichever attributes they are in.
abbrev pub attachments_in : Attached → List IncomingAttachment
attachments_in a = present file a.file (
    present location a.location
      (present contact a.contact (present link a.link (present sticker a.sticker []))))

-- The attachments that a message is to hold: the first, if it is known.
abbrev pub known_first : List (Item BotApiAttachment) → List BotApiAttachment
known_first [] = []
known_first (unknown d ∷ items) = []
known_first (known a ∷ items) = a ∷ []

attachments_in-attach : (a : IncomingAttachment) → attachments_in (attach a) ≡ a ∷ []
unfolding attach
attachments_in-attach (file f) = refl
attachments_in-attach (location l) = refl
attachments_in-attach (contact c) = refl
attachments_in-attach (link l) = refl
attachments_in-attach (sticker s) = refl

attach_first-attachments_in :
    (items : List (Item BotApiAttachment)) (body : Str) (a : Attached)
    → attach_first items body ≡ ok a
    → map_result (λ i. convert_api_attachment_to_domain i body) (known_first items)
      ≡ ok (attachments_in a)
unfolding attach_first
attach_first-attachments_in [] body a h = ap (λ a. ok (attachments_in a)) (ok-injective h)
attach_first-attachments_in (unknown d ∷ items) body a h =
    ap (λ a. ok (attachments_in a)) (ok-injective h)
attach_first-attachments_in (known i ∷ items) body a h =
    bind_ok (convert_api_attachment_to_domain i body) _ h
      λ b e1 h1. rw e1 (ap ok (sym (attachments_in-attach b) ∙ ap attachments_in (ok-injective h1)))

-- The fields that a message takes over from the command.
abbrev pub HasFields : BotApiIncomingMessage → Fields → IncomingMessage → Type 0
HasFields api raw_command m =
    (m.bot.id ≡ api.bot_id)
    × (m.bot.host ≡ some api.sender.host)
    × (m.raw_command ≡ some raw_command)
    × (m.sync_id ≡ api.sync_id)
    × (m.source_sync_id ≡ api.source_sync_id)
    × (m.body ≡ api.payload.body)
    × (m.command_data ≡ api.payload.command_data)
    × (m.metadata ≡ api.payload.metadata)
    × (m.chat.id ≡ api.sender.group_chat_id)
    × (m.sender.huid ≡ api.sender.user_huid)
    × (m.sender.udid ≡ api.sender.user_udid)
    × (m.sender.ad_login ≡ api.sender.ad_login)
    × (m.sender.ad_domain ≡ api.sender.ad_domain)
    × (m.sender.username ≡ api.sender.username)
    × (m.sender.is_chat_admin ≡ api.sender.is_admin)
    × (m.sender.is_chat_creator ≡ api.sender.is_creator)

-- What a message holds: the bot's id and host, the raw command, the two sync ids, the body, the data, the metadata, the id
-- of the chat and the sender's ids, names and rights are those of the command; the platform and the type
-- of the chat are the conversions of the command's; its only attachment is the conversion of the first
-- one if that is known, and it has none otherwise; and its mentions, forward and reply are those of all
-- the known entities, converted.
pub to_domain_lem :
    (api : BotApiIncomingMessage) (raw_command : Fields) (m : IncomingMessage)
    → to_domain api raw_command ≡ ok m
    → HasFields api raw_command m
      × (platform_of api.sender.platform ≡ ok m.sender.device.platform)
      × (convert_chat_type_to_domain api.sender.chat_type ≡ ok m.chat.type)
      × (map_result
            (λ i. convert_api_attachment_to_domain i api.payload.body)
            (known_first api.attachments)
          ≡ ok (attachments_in m.attached))
      × ((es : List Entity) × (map_result convert_bot_api_entity_to_domain
              (known_items api.entities)
            ≡ ok es)
          × (m.collected ≡ collected_of es))
unfolding to_domain
to_domain_lem api raw_command m h = bind_ok (platform_of api.sender.platform) _ h λ platform e1 h1.
    bind_ok (convert_chat_type_to_domain api.sender.chat_type) _ h1 λ chat_type e2 h2.
      bind_ok (attach_first api.attachments api.payload.body) _ h2 λ attached e3 h3.
        bind_ok (collect_entities nothing_collected api.entities) _ h3 λ collected e4 h4.
          bind_ok (map_result convert_bot_api_entity_to_domain (known_items api.entities)) _
            (sym (collect_entities_lem api.entities) ∙ e4)
            λ es e5 h5. rw (← ok-injective h4) (
              (
                refl, refl, refl, refl, refl, refl, refl, refl, refl, refl, refl, refl, refl, refl,
                refl, refl,
              ),
              e1,
              e2,
              attach_first-attachments_in api.attachments api.payload.body attached e3,
              (es, e5, sym (ok-injective h5)),
            )

pub platform_of_total :
    (p : Option BotApiClientPlatforms) → (q : Option ClientPlatforms) × (platform_of p ≡ ok q)
unfolding platform_of convert_client_platform_to_domain client_platform_to_domain_mapping
platform_of_total none = (none, refl)
platform_of_total (some BotApiClientPlatforms.web) = (_, refl)
platform_of_total (some _) = (_, refl)

-- A command whose first attachment is converted, or is unknown or missing, and whose mentions all say whom they
-- mention becomes a message, whatever its other fields.
pub to_domain_total :
    (api : BotApiIncomingMessage) (raw_command : Fields) (attached : Attached)
    → attach_first api.attachments api.payload.body ≡ ok attached
    → All IsCompleteEntity (known_items api.entities)
    → (m : IncomingMessage) × (to_domain api raw_command ≡ ok m) × (m.attached ≡ attached)
unfolding to_domain
to_domain_total api raw_command attached a h =
    let (platform, p) = platform_of_total api.sender.platform in
    let (chat_type, t) = chat_type_total api.sender.chat_type in
    let (collected, c) = collect_entities_total api.entities h in
    (message_of api raw_command platform chat_type attached collected, rw (p, t, a, c) refl, refl)
