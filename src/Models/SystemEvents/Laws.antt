-- ===== src/Models/SystemEvents/Laws.antt =====
-- The events that conversions give.
use pybotx.Common.{
  ◌≡◌, refl, sym, ap, some, ok, bind_ok, ok-injective, bind_total, map_result, All-unit,
}
use pybotx.Common.Json.{Fields}
use pybotx.Models.Enums.{
  member, chat_type_total, convert_user_kind_to_domain, user_kind_to_domain_mapping,
  convert_conference_link_type_to_domain, conference_link_type_to_domain_mapping, ApiUserKinds,
  UserKinds, BotApiConferenceLinkTypes, ConferenceLinkTypes,
}
use pybotx.Models.Attachments.{convert_api_attachment_to_domain}
use pybotx.Models.Message.{
  Chat, platform_of, convert_bot_api_entity_to_domain, platform_of_total, map_result_total,
}
use pybotx.Models.Files.{convert_async_file_to_domain, async_file_total}
use pybotx.Models.SystemEvents.Types.{
  SystemEvent, BotApiSystemEvent, BotApiSystemEventData, BotApiChatContext, BotApiChatMember,
  ChatCreatedMember, api_smartapp_event, api_internal_bot_notification, api_chat_created,
  api_chat_deleted_by_user, api_added_to_chat, api_deleted_from_chat, api_left_from_chat,
  api_join_to_chat, api_cts_login, api_cts_logout, api_event_deleted, api_event_edit,
  api_conference_changed, api_conference_created, api_conference_deleted,
}
use pybotx.Models.SystemEvents.Convert.{
  event_of, command_base, event_base, event_to_domain, chat_of, member_of,
}

event_base-event_of :
    (api : BotApiSystemEvent) (raw_command : Fields) (d : BotApiSystemEventData) (e : SystemEvent)
    → event_of api raw_command d ≡ ok e
    → event_base e ≡ command_base api.bot_id api.host raw_command
unfolding event_of
event_base-event_of api raw_command (api_smartapp_event d sender async_files) e h =
    bind_ok (platform_of sender.platform) _ h λ platform e1 h1.
      bind_ok (map_result convert_async_file_to_domain async_files) _ h1 λ files e2 h2.
        bind_ok
          (chat_of (record { group_chat_id = sender.group_chat_id; chat_type = sender.chat_type }))
          _ h2 λ chat e3 h3. ap event_base (sym (ok-injective h3))
event_base-event_of api raw_command
      (api_internal_bot_notification notification opts sender huid is_admin is_creator) e h =
    bind_ok (chat_of sender) _ h λ chat e1 h1. ap event_base (sym (ok-injective h1))
event_base-event_of api raw_command (api_chat_created d) e h =
    bind_ok (map_result member_of d.members) _ h λ members e1 h1.
      bind_ok (chat_of (record { group_chat_id = d.group_chat_id; chat_type = member d.chat_type }))
        _ h1 λ chat e2 h2. ap event_base (sym (ok-injective h2))
event_base-event_of api raw_command (api_chat_deleted_by_user user_huid group_chat_id) e h =
    ap event_base (sym (ok-injective h))
event_base-event_of api raw_command (api_added_to_chat members sender) e h =
    bind_ok (chat_of sender) _ h λ chat e1 h1. ap event_base (sym (ok-injective h1))
event_base-event_of api raw_command (api_deleted_from_chat members sender) e h =
    bind_ok (chat_of sender) _ h λ chat e1 h1. ap event_base (sym (ok-injective h1))
event_base-event_of api raw_command (api_left_from_chat members sender) e h =
    bind_ok (chat_of sender) _ h λ chat e1 h1. ap event_base (sym (ok-injective h1))
event_base-event_of api raw_command (api_join_to_chat members sender) e h =
    bind_ok (chat_of sender) _ h λ chat e1 h1. ap event_base (sym (ok-injective h1))
event_base-event_of api raw_command (api_cts_login huid) e h = ap event_base (sym (ok-injective h))
event_base-event_of api raw_command (api_cts_logout huid) e h = ap event_base (sym (ok-injective h))
event_base-event_of api raw_command (api_event_deleted deleted_at group_chat_id sync_ids meta) e h =
    ap event_base (sym (ok-injective h))
event_base-event_of api raw_command (api_conference_created call_id) e h =
    ap event_base (sym (ok-injective h))
event_base-event_of api raw_command (api_conference_deleted call_id) e h =
    ap event_base (sym (ok-injective h))
event_base-event_of api raw_command (api_event_edit d) e h =
    bind_ok (map_result (λ a. convert_api_attachment_to_domain a d.payload_body) d.attachments) _ h
      λ attachments e1 h1.
        bind_ok (map_result convert_bot_api_entity_to_domain d.entities) _ h1
          λ entities e2 h2. ap event_base (sym (ok-injective h2))
event_base-event_of api raw_command (api_conference_changed c link_type) e h =
    bind_ok (convert_conference_link_type_to_domain link_type) _ h
      λ t e1 h1. ap event_base (sym (ok-injective h1))

-- Every system event that is converted is of the bot, the host and the raw command that came in.
pub event_to_domain_lem :
    (api : BotApiSystemEvent) (raw_command : Fields) (e : SystemEvent)
    → event_to_domain api raw_command ≡ ok e
    → event_base e ≡ record {
      bot = record { id = api.bot_id; host = some api.host };
      raw_command = some raw_command;
    }
unfolding event_to_domain
event_to_domain_lem api raw_command e h = event_base-event_of api raw_command api.event e h

chat_of_total : (sender : BotApiChatContext) → (c : Chat) × (chat_of sender ≡ ok c)
chat_of_total sender =
    let (t, e) = chat_type_total sender.chat_type in
    (record { id = sender.group_chat_id; type = t }, rw e refl)

user_kind_total : (k : ApiUserKinds) → (u : UserKinds) × (convert_user_kind_to_domain k ≡ ok u)
unfolding convert_user_kind_to_domain user_kind_to_domain_mapping
user_kind_total ApiUserKinds.user = (_, refl)
user_kind_total _ = (_, refl)

link_type_total :
    (k : BotApiConferenceLinkTypes)
    → (u : ConferenceLinkTypes) × (convert_conference_link_type_to_domain k ≡ ok u)
unfolding convert_conference_link_type_to_domain conference_link_type_to_domain_mapping
link_type_total BotApiConferenceLinkTypes.public = (_, refl)
link_type_total _ = (_, refl)

member_of_total : (m : BotApiChatMember) → Unit {0} → (c : ChatCreatedMember) × (member_of m ≡ ok c)
member_of_total m _ =
    let (k, e) = user_kind_total m.user_kind in
    (record { is_admin = m.is_admin; huid = m.huid; username = m.name; kind = k }, rw e refl)

-- An edited message is the one event that has attachments and entities.
abbrev pub IsNotEdit : BotApiSystemEventData → Type 0
IsNotEdit (api_event_edit d) = ⊥
IsNotEdit _ = Unit

event_of_total :
    (api : BotApiSystemEvent) (raw_command : Fields) (d : BotApiSystemEventData)
    → IsNotEdit d
    → (e : SystemEvent) × (event_of api raw_command d ≡ ok e)
unfolding event_of
event_of_total api raw_command (api_smartapp_event d sender async_files) h =
    bind_total (platform_of sender.platform) _ (platform_of_total sender.platform) λ platform.
      bind_total (map_result convert_async_file_to_domain async_files) _
        (map_result_total convert_async_file_to_domain (λ f. Unit {0}) (λ f _. async_file_total f)
          async_files (All-unit async_files))
        λ files.
          bind_total
            (chat_of
              (record { group_chat_id = sender.group_chat_id; chat_type = sender.chat_type }))
            _ (chat_of_total _) λ chat. (_, refl)
event_of_total api raw_command
      (api_internal_bot_notification notification opts sender huid is_admin is_creator) h =
    bind_total (chat_of sender) _ (chat_of_total sender) λ chat. (_, refl)
event_of_total api raw_command (api_chat_created d) h =
    bind_total (map_result member_of d.members) _
      (map_result_total member_of (λ m. Unit {0}) member_of_total d.members (All-unit d.members))
      λ members.
        bind_total
          (chat_of (record { group_chat_id = d.group_chat_id; chat_type = member d.chat_type })) _
          (chat_of_total _) λ chat. (_, refl)
event_of_total api raw_command (api_chat_deleted_by_user user_huid group_chat_id) h = (_, refl)
event_of_total api raw_command (api_added_to_chat members sender) h =
    bind_total (chat_of sender) _ (chat_of_total sender) λ chat. (_, refl)
event_of_total api raw_command (api_deleted_from_chat members sender) h =
    bind_total (chat_of sender) _ (chat_of_total sender) λ chat. (_, refl)
event_of_total api raw_command (api_left_from_chat members sender) h =
    bind_total (chat_of sender) _ (chat_of_total sender) λ chat. (_, refl)
event_of_total api raw_command (api_join_to_chat members sender) h =
    bind_total (chat_of sender) _ (chat_of_total sender) λ chat. (_, refl)
event_of_total api raw_command (api_cts_login huid) h = (_, refl)
event_of_total api raw_command (api_cts_logout huid) h = (_, refl)
event_of_total api raw_command (api_event_deleted deleted_at group_chat_id sync_ids meta) h =
    (_, refl)
event_of_total api raw_command (api_conference_created call_id) h = (_, refl)
event_of_total api raw_command (api_conference_deleted call_id) h = (_, refl)
event_of_total api raw_command (api_event_edit d) h = absurd h
event_of_total api raw_command (api_conference_changed c link_type) h =
    bind_total (convert_conference_link_type_to_domain link_type) _ (link_type_total link_type)
      λ t. (_, refl)

-- Every system event but an edited message is converted, whatever its fields.
pub event_to_domain_total :
    (api : BotApiSystemEvent) (raw_command : Fields)
    → IsNotEdit api.event
    → (e : SystemEvent) × (event_to_domain api raw_command ≡ ok e)
unfolding event_to_domain
event_to_domain_total api raw_command h = event_of_total api raw_command api.event h
