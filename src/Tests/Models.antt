-- ===== src/Tests/Models.antt =====
-- Concrete texts, mentions, attachments, files, messages and events.
use mathlib.Core.List.{Perm}
use pybotx.Common.{
  ℕ, ◌≡◌, ◌≢◌, ◌⊎◌, ◌↔◌, ◌+◌, true, none, some, List, [], ◌∷◌, ◌++◌, In, ok, err, index_error,
  not_implemented, ◌>>=◌, arith, All,
}
use pybotx.Common.Text.{codes}
use pybotx.Common.Uuid.{Uuid}
use pybotx.Models.Enums
use pybotx.Models.ApiBase
use pybotx.Models.Mentions
use pybotx.Models.Attachments
use pybotx.Models.Files

abbrev fresh_id : ℕ → Uuid
fresh_id n = n + 7

abbrev greeting : List Mentions.Piece
greeting =
    Mentions.Piece.plain (codes "hi ")
    ∷ Mentions.Piece.embed (Mentions.Mention.user 5 (some (codes "Ann")))
    ∷ Mentions.Piece.embed Mentions.Mention.all
    ∷ []

find_and_replace-written_example :
    Mentions.find_and_replace_embed_mentions fresh_id (Mentions.written greeting)
    ≡ ok (Mentions.sent_body fresh_id 0 greeting, Mentions.sent_mentions fresh_id 0 greeting)
find_and_replace-written_example = Mentions.find_and_replace-written fresh_id greeting (
  (omega arith, (omega arith, (omega arith, tt))),
  (
    (
      omega arith,
      ((omega arith, omega arith), ((omega arith, omega arith), ((omega arith, omega arith), tt))),
    ),
    (tt, tt),
  ),
)

newline_name-not_replaced_example :
    Mentions.find_and_replace_embed_mentions fresh_id
      (Mentions.mention_str (Mentions.Mention.user 5 (some (codes "A" ++ 10 ∷ codes "B"))))
    ≡ ok (Mentions.mention_str (Mentions.Mention.user 5 (some (codes "A" ++ 10 ∷ codes "B"))), [])
newline_name-not_replaced_example =
    Mentions.newline_name-not_replaced fresh_id 5 (codes "A") (codes "B") (omega arith, tt)
      (omega arith, tt)

abbrev two_mentions : List Mentions.Mention
two_mentions = Mentions.Mention.chat 3 none ∷ Mentions.Mention.all ∷ []

all_users_mentioned_iff_example :
    (Mentions.all_users_mentioned two_mentions ≡ true) ↔ In Mentions.Mention.all two_mentions
all_users_mentioned_iff_example = Mentions.all_users_mentioned_iff two_mentions

filters_partition_example :
    All Mentions.IsContact (Mentions.contacts two_mentions)
    × All Mentions.IsChat (Mentions.chats two_mentions)
    × All Mentions.IsChannel (Mentions.channels two_mentions)
    × All Mentions.IsUser (Mentions.users two_mentions)
    × All (λ m. m ≡ Mentions.Mention.all) (Mentions.all_mentions two_mentions)
    × Perm (Mentions.parts two_mentions) two_mentions
filters_partition_example = Mentions.filters_partition two_mentions

abbrev picture : Attachments.OutgoingAttachment
picture = record { content = 255 ∷ 0 ∷ 17 ∷ 4 ∷ []; filename = codes "cat.PNG" }

outgoing_attachment_decoded_example :
    Attachments.decode_rfc2397 (Attachments.from_file_attachment picture).data_url
    ≡ ok picture.content
outgoing_attachment_decoded_example =
    Attachments.outgoing_attachment_decoded picture
      (omega arith, (omega arith, (omega arith, (omega arith, tt))))

voice_converted_example :
    Attachments.convert_api_attachment_to_domain
      (Attachments.BotApiAttachment.api_voice
        (Attachments.encode_rfc2397 (1 ∷ 2 ∷ []) (codes "au" ++ b'/' ∷ codes "mp"))
        30)
      []
    ≡ ok (
        Attachments.IncomingAttachment.file (
          Attachments.IncomingFileAttachment.attachment_voice
            (Attachments.file_content Enums.AttachmentTypes.voice
              (codes "record." ++ codes "mp")
              (1 ∷ 2 ∷ []))
            30))
voice_converted_example =
    Attachments.voice_converted (codes "au") (codes "mp") [] (1 ∷ 2 ∷ []) 30
      (omega arith, (omega arith, tt))
      ((omega arith, omega arith, omega arith), ((omega arith, omega arith, omega arith), tt))
      ((omega arith, omega arith, omega arith), ((omega arith, omega arith, omega arith), tt))

voice_without_subtype_example :
    (Attachments.convert_api_attachment_to_domain
        (Attachments.BotApiAttachment.api_voice
          (Attachments.encode_rfc2397 (1 ∷ 2 ∷ []) (codes "mp"))
          30)
        []
      ≡ err index_error)
    × (Attachments.convert_api_attachment_to_domain
          (Attachments.BotApiAttachment.api_document
            (Attachments.encode_rfc2397 (1 ∷ 2 ∷ []) (codes "mp"))
            (codes "a"))
          []
        ≡ ok (
            Attachments.IncomingAttachment.file (
              Attachments.IncomingFileAttachment.attachment_document (
                Attachments.file_content Enums.AttachmentTypes.document (codes "a") (1 ∷ 2 ∷ [])))))
voice_without_subtype_example =
    Attachments.voice_without_subtype (codes "mp") (codes "a") [] (1 ∷ 2 ∷ []) 30
      (omega arith, (omega arith, tt))
      ((omega arith, omega arith, omega arith), ((omega arith, omega arith, omega arith), tt))

abbrev song : Files.File
song =
    Files.File.voice
      (record {
        filename = codes "a.mp3";
        size = 9;
        file_id = 4;
        file_url = codes "u";
        file_mimetype = codes "m";
        file_hash = codes "h";
        file_preview = none;
        file_preview_height = some 8;
        file_preview_width = none;
        file_encryption_algo = none;
        chunk_size = some 1;
        caption = some (codes "c");
      })
      12

async_file_roundtrip_example :
    (Files.convert_async_file_from_domain song >>= Files.convert_async_file_to_domain) ≡ ok song
async_file_roundtrip_example = Files.async_file_roundtrip song

chat_type_unsupported_iff_example :
    (Enums.convert_chat_type_to_domain (Enums.OrText.text (codes "x"))
      ≡ ok Enums.Incoming.unsupported)
    ↔ ((a : Enums.ApiChatTypes) → Enums.api_chat_types_value a ≢ codes "x")
chat_type_unsupported_iff_example = Enums.chat_type_unsupported_iff (codes "x")

chat_type_roundtrip_example :
    (Enums.convert_chat_type_from_domain Enums.ChatTypes.thread >>= λ a.
    Enums.convert_chat_type_to_domain (Enums.OrText.member a))
    ≡ ok (Enums.Incoming.supported Enums.ChatTypes.thread)
chat_type_roundtrip_example = Enums.chat_type_roundtrip Enums.ChatTypes.thread

attachment_type_roundtrip_example :
    ((Enums.ApiAttachmentTypes.link ≢ Enums.ApiAttachmentTypes.sticker)
      × ((Enums.convert_attachment_type_to_domain Enums.ApiAttachmentTypes.link
            >>= Enums.convert_attachment_type_from_domain)
          ≡ ok Enums.ApiAttachmentTypes.link))
    ⊎ ((Enums.ApiAttachmentTypes.link ≡ Enums.ApiAttachmentTypes.sticker)
        × ((Enums.convert_attachment_type_to_domain Enums.ApiAttachmentTypes.link
              >>= Enums.convert_attachment_type_from_domain)
            ≡ err not_implemented))
attachment_type_roundtrip_example = Enums.attachment_type_roundtrip Enums.ApiAttachmentTypes.link

abbrev fields : ApiBase.Entries
fields = ApiBase.Entries.entry (codes "a") ApiBase.Value.undefined (
    ApiBase.Entries.entry (codes "b")
      (ApiBase.Value.list (ApiBase.Values.cons ApiBase.Value.undefined ApiBase.Values.nil))
      ApiBase.Entries.end)

remove_entries_lem_example :
    ApiBase.IsDefinedEntries (ApiBase.remove_entries fields)
    × (ApiBase.remove_entries (ApiBase.remove_entries fields) ≡ ApiBase.remove_entries fields)
remove_entries_lem_example = ApiBase.remove_entries_lem fields

abbrev kept_fields : ApiBase.Entries
kept_fields =
    ApiBase.Entries.entry (codes "b") (ApiBase.Value.list ApiBase.Values.nil) ApiBase.Entries.end

remove_entries_unchanged_example : ApiBase.remove_entries kept_fields ≡ kept_fields
remove_entries_unchanged_example = ApiBase.remove_entries_unchanged kept_fields (tt, tt)
