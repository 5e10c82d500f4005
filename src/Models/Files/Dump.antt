-- ===== src/Models/Files/Dump.antt =====
-- `model_dump` of the files of the API, `APIAsyncFile` in pybotx/models/files.py.
use pybotx.Common.{ℕ, Option}
use pybotx.Common.Text.{Str, codes}
use pybotx.Missing.{Missing}
use pybotx.Models.Enums.{ApiAttachmentTypes}
use pybotx.Models.Files.Defs.{
  ApiAsyncFile, api_image, api_video, api_document, api_voice, api_type, api_base,
}
use pybotx.Models.ApiBase.{
  Value, Entries, entry, missing_value, optional_value, text_value, int_value, uuid_value,
}

-- `APIAttachmentTypes(…).value`
unfoldable pub api_attachment_types_value : ApiAttachmentTypes → Str
api_attachment_types_value ApiAttachmentTypes.image = codes "image"
api_attachment_types_value ApiAttachmentTypes.video = codes "video"
api_attachment_types_value ApiAttachmentTypes.document = codes "document"
api_attachment_types_value ApiAttachmentTypes.voice = codes "voice"
api_attachment_types_value ApiAttachmentTypes.location = codes "location"
api_attachment_types_value ApiAttachmentTypes.contact = codes "contact"
api_attachment_types_value ApiAttachmentTypes.link = codes "link"
api_attachment_types_value ApiAttachmentTypes.sticker = codes "sticker"

-- The fields that only some of the classes have
abbrev duration_entries : ApiAsyncFile → Entries
duration_entries (api_image f) = Entries.end
duration_entries (api_document f) = Entries.end
duration_entries (api_video f duration) = entry (codes "duration") (int_value duration) Entries.end
duration_entries (api_voice f duration) = entry (codes "duration") (int_value duration) Entries.end

abbrev optional_text : Missing (Option Str) → Value
optional_text = missing_value (optional_value text_value)

abbrev optional_int : Missing (Option ℕ) → Value
optional_int = missing_value (optional_value int_value)

-- What `model_dump` gives of an `APIAsyncFile`
unfoldable pub async_file_dump : ApiAsyncFile → Entries
unfolding api_attachment_types_value
async_file_dump file =
    let f = api_base file in
    entry (codes "type") (text_value (api_attachment_types_value (api_type file))) (
      entry (codes "file") (text_value f.file) (
        entry (codes "file_mime_type") (text_value f.file_mime_type) (
          entry (codes "file_id") (uuid_value f.file_id) (
            entry (codes "file_name") (text_value f.file_name) (
              entry (codes "file_size") (int_value f.file_size) (
                entry (codes "file_hash") (text_value f.file_hash) (
                  entry (codes "file_preview") (optional_text f.file_preview) (
                    entry (codes "file_preview_height") (optional_int f.file_preview_height) (
                      entry (codes "file_preview_width") (optional_int f.file_preview_width) (
                        entry (codes "file_encryption_algo") (optional_text f.file_encryption_algo)
                          (entry (codes "chunk_size") (optional_int f.chunk_size) (
                            entry (codes "caption") (optional_text f.caption)
                              (duration_entries file)))))))))))))
