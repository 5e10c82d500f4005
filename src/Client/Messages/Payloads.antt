-- ===== src/Client/Messages/Payloads.antt =====
-- The payloads of the requests, as `model_dump` gives them. `fresh` gives the UUIDs that `uuid4` returns.
use pybotx.Common.{
  ℕ, ltb, Bool, true, if◌then◌else◌, Option, none, some, List, [], ◌∷◌, Result, ok, err,
  value_error, length, ◌>>=◌,
}
use Prim.Native.String.{String}
use pybotx.Common.Text.{Str, codes}
use pybotx.Common.Uuid.{Uuid}
use pybotx.Common.Json.{null, Fields}
use pybotx.Missing.{Missing, given}
use pybotx.Models.Enums.{BotApiMentionTypes, bot_api_mention_types_value}
use pybotx.Models.Mentions.{
  BotXApiMention, user_mention, contact_mention, chat_mention, channel_mention, all_mention,
  find_and_replace_embed_mentions,
}
use pybotx.Models.Attachments.{OutgoingAttachment, from_file_attachment}
use pybotx.Models.Markup.{Markup, api_markup_from_domain, markup_dump}
use pybotx.Models.Outgoing.{OutgoingMessage, EditMessage, ReplyMessage}
use pybotx.Models.ApiBase.{
  Value, undefined, plain, list, dict, Entries, entry, values_of, missing_value, text_value,
  bool_value, uuid_value, uuid_values, dict_value,
}

abbrev mention_entries : BotApiMentionTypes → Uuid → Entries → Entries
mention_entries mention_type mention_id rest =
    entry (codes "mention_type") (text_value (bot_api_mention_types_value mention_type))
      (entry (codes "mention_id") (uuid_value mention_id) rest)

abbrev mention_data : String → Uuid → Missing Str → Entries
mention_data key id name =
    entry (codes "mention_data")
      (dict (
        entry (codes key) (uuid_value id)
          (entry (codes "name") (missing_value text_value name) Entries.end)))
      Entries.end

-- `BotXAPIMention`
unfoldable pub mention_dump : BotXApiMention → Entries
mention_dump (user_mention t id d) =
    mention_entries t id (mention_data "user_huid" d.user_huid d.name)
mention_dump (contact_mention t id d) =
    mention_entries t id (mention_data "user_huid" d.user_huid d.name)
mention_dump (chat_mention t id d) =
    mention_entries t id (mention_data "group_chat_id" d.group_chat_id d.name)
mention_dump (channel_mention t id d) =
    mention_entries t id (mention_data "group_chat_id" d.group_chat_id d.name)
mention_dump (all_mention t id) = mention_entries t id Entries.end

abbrev mentions_value : List BotXApiMention → Value
mentions_value mentions = list (values_of (λ m. dict (mention_dump m)) mentions)

-- `mentions or Undefined`
abbrev mentions_or_undefined : List BotXApiMention → Value
mentions_or_undefined [] = undefined
mentions_or_undefined (m ∷ ms) = mentions_value (m ∷ ms)

unfoldable pub file_dump : OutgoingAttachment → Value
unfolding from_file_attachment
file_dump file =
    let api_file = from_file_attachment file in
    dict (
      entry (codes "file_name") (text_value api_file.file_name)
        (entry (codes "data") (text_value api_file.data_url) Entries.end))

unfoldable pub markup_field : Missing Markup → Value
unfolding api_markup_from_domain markup_dump
markup_field = missing_value (λ m. markup_dump (api_markup_from_domain m))

abbrev pub max_notification_body_length : ℕ
max_notification_body_length = 4096

abbrev message_opts : (silent_response markup_auto_adjust : Missing Bool) → Entries
message_opts silent_response markup_auto_adjust =
    entry (codes "silent_response") (missing_value bool_value silent_response) (
      entry (codes "buttons_auto_adjust") (missing_value bool_value markup_auto_adjust) Entries.end)

abbrev notification_opts : (send_push ignore_mute : Missing Bool) → Entries
notification_opts send_push ignore_mute =
    entry (codes "send") (missing_value bool_value send_push)
      (entry (codes "force_dnd") (missing_value bool_value ignore_mute) Entries.end)

-- `BotXAPIDirectNotificationRequestPayload`, where the mentions are replaced
unfoldable pub direct_notification_dump :
    OutgoingMessage → (body : Str) → List BotXApiMention → Entries
unfolding mention_dump markup_field file_dump
direct_notification_dump m body mentions = entry (codes "group_chat_id") (uuid_value m.chat_id) (
    entry (codes "notification") (dict notification) (
      entry (codes "file") (missing_value file_dump m.file) (
        entry (codes "recipients") (missing_value uuid_values m.recipients)
          (entry (codes "opts") (dict opts) Entries.end))))
  where
    notification : Entries
    notification = entry (codes "status") (text_value (codes "ok")) (
        entry (codes "body") (text_value body) (
          entry (codes "metadata") (missing_value dict_value m.metadata) (
            entry (codes "opts") (dict (message_opts m.silent_response m.markup_auto_adjust)) (
              entry (codes "bubble") (markup_field m.bubbles) (
                entry (codes "keyboard") (markup_field m.keyboard)
                  (entry (codes "mentions") (mentions_or_undefined mentions) Entries.end))))))

    opts : Entries
    opts = entry (codes "stealth_mode") (missing_value bool_value m.stealth_mode) (
        entry (codes "notification_opts") (dict (notification_opts m.send_push m.ignore_mute))
          Entries.end)

-- `BotXAPIDirectNotificationRequestPayload.from_domain`
unfoldable pub direct_notification_payload : (fresh : ℕ → Uuid) → OutgoingMessage → Result Entries
unfolding find_and_replace_embed_mentions direct_notification_dump
direct_notification_payload fresh m =
    if ltb max_notification_body_length (length m.body)
    then err value_error
    else (find_and_replace_embed_mentions fresh m.body >>= λ replaced.
        ok (direct_notification_dump m replaced.0 replaced.1))

-- `BotXAPIInternalBotNotificationRequestPayload.from_domain`
unfoldable pub internal_notification_payload :
    (chat_id : Uuid) (notification_data : Fields) (opts : Missing Fields)
    (recipients : Missing (List Uuid))
    → Entries
internal_notification_payload chat_id notification_data opts recipients =
    entry (codes "group_chat_id") (uuid_value chat_id) (
      entry (codes "data") (dict_value notification_data) (
        entry (codes "opts") (missing_value dict_value opts)
          (entry (codes "recipients") (missing_value uuid_values recipients) Entries.end)))

-- `body` and `mentions` of `BotXAPIEditEventRequestPayload.from_domain`
unfoldable pub edited_body :
    (fresh : ℕ → Uuid) → Missing Str → Result (Missing Str × Missing (List BotXApiMention))
unfolding find_and_replace_embed_mentions
edited_body fresh Missing.undefined = ok (Missing.undefined, Missing.undefined)
edited_body fresh (given body) = find_and_replace_embed_mentions fresh body >>= λ replaced.
    ok (given replaced.0, given replaced.1)

-- `file`, and `None` where the file is taken away
abbrev edited_file : Missing (Option OutgoingAttachment) → Value
edited_file Missing.undefined = undefined
edited_file (given none) = plain null
edited_file (given (some file)) = file_dump file

-- `bool(mentions) or Undefined`
abbrev raw_mentions : Missing (List BotXApiMention) → Value
raw_mentions (given (m ∷ ms)) = bool_value true
raw_mentions (given []) = undefined
raw_mentions Missing.undefined = undefined

unfoldable pub edit_event_dump : EditMessage → Missing Str → Missing (List BotXApiMention) → Entries
unfolding mention_dump markup_field file_dump
edit_event_dump m body mentions = entry (codes "sync_id") (uuid_value m.sync_id) (
    entry (codes "payload") (dict event) (
      entry (codes "file") (edited_file m.file) (
        entry (codes "opts")
          (dict (entry (codes "raw_mentions") (raw_mentions mentions) Entries.end)) Entries.end)))
  where
    event : Entries
    event = entry (codes "body") (missing_value text_value body) (
        entry (codes "metadata") (missing_value dict_value m.metadata) (
          entry (codes "opts")
            (dict (
              entry (codes "buttons_auto_adjust") (missing_value bool_value m.markup_auto_adjust)
                Entries.end))
            (entry (codes "bubble") (markup_field m.bubbles) (
              entry (codes "keyboard") (markup_field m.keyboard)
                (entry (codes "mentions") (missing_value mentions_value mentions) Entries.end)))))

-- `BotXAPIEditEventRequestPayload.from_domain`
unfoldable pub edit_event_payload : (fresh : ℕ → Uuid) → EditMessage → Result Entries
unfolding edited_body edit_event_dump
edit_event_payload fresh m =
    edited_body fresh m.body >>= λ edited. ok (edit_event_dump m edited.0 edited.1)

unfoldable pub reply_event_dump : ReplyMessage → (body : Str) → List BotXApiMention → Entries
unfolding mention_dump markup_field file_dump
reply_event_dump m body mentions = entry (codes "source_sync_id") (uuid_value m.sync_id) (
    entry (codes "reply") (dict reply) (
      entry (codes "file") (missing_value file_dump m.file)
        (entry (codes "opts") (dict opts) Entries.end)))
  where
    reply : Entries
    reply = entry (codes "status") (text_value (codes "ok")) (
        entry (codes "body") (text_value body) (
          entry (codes "metadata") (missing_value dict_value m.metadata) (
            entry (codes "opts") (dict (message_opts m.silent_response m.markup_auto_adjust)) (
              entry (codes "bubble") (markup_field m.bubbles) (
                entry (codes "keyboard") (markup_field m.keyboard)
                  (entry (codes "mentions") (mentions_or_undefined mentions) Entries.end))))))

    opts : Entries
    opts = entry (codes "raw_mentions") (bool_value true) (
        entry (codes "stealth_mode") (missing_value bool_value m.stealth_mode) (
          entry (codes "notification_opts") (dict (notification_opts m.send_push m.ignore_mute))
            Entries.end))

-- `BotXAPIReplyEventRequestPayload.from_domain`
unfoldable pub reply_event_payload : (fresh : ℕ → Uuid) → ReplyMessage → Result Entries
unfolding find_and_replace_embed_mentions reply_event_dump
reply_event_payload fresh m = find_and_replace_embed_mentions fresh m.body >>= λ replaced.
    ok (reply_event_dump m replaced.0 replaced.1)
