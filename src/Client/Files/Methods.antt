-- ===== src/Client/Files/Methods.antt =====
-- The methods of `Client` for files.
use pybotx.Common.{ℕ, Bool, ◌+◌, Option, some, none, [], ◌∷◌, Result, length, if◌then◌else◌}
use pybotx.Common.Text.{Str, codes}
use pybotx.Common.Uuid.{Uuid, print_uuid}
use pybotx.Common.Json.{Json, is_str}
use pybotx.Common.Base64.{Bytes}
use pybotx.Missing.{Missing}
use pybotx.Models.Attachments.{OutgoingAttachment}
use pybotx.Models.Files.{File, FileBase, ApiAsyncFile, convert_async_file_to_domain}
use pybotx.Models.ApiBase.{
  Entries, entry, missing_value, text_value, int_value, bool_value, uuid_value, jsonable_dict,
}
use pybotx.Client.Action.{
  ErrorClass, file_metadata_not_found, chat_not_found_error, invalid_botx_status_code_error,
  file_deleted_error, Action, pure, lift, ◌⟫◌,
}
use pybotx.Client.Http.{
  Environment, StatusHandler, response_exception_thrower, update_handlers, by_reason, with_params,
  with_fields,
}
use pybotx.Client.Auth.{status_handlers, Endpoint, authorized_call, execute}
use pybotx.Client.Files.Buffers.{Buffer, read_all, seek_start, write, copy_buffer, write_chunks}

abbrev pub file_chunk_size : ℕ
file_chunk_size = 1048576

unfoldable pub download_file_payload : (chat_id file_id : Uuid) (is_preview : Bool) → Entries
download_file_payload chat_id file_id is_preview =
    entry (codes "group_chat_id") (uuid_value chat_id) (
      entry (codes "file_id") (uuid_value file_id)
        (entry (codes "is_preview") (bool_value is_preview) Entries.end))

unfoldable pub upload_file_meta : (duration : Missing ℕ) (caption : Missing Str) → Entries
upload_file_meta duration caption =
    entry (codes "duration") (missing_value int_value duration)
      (entry (codes "caption") (missing_value text_value caption) Entries.end)

-- The fuel for the loop that reads a buffer
abbrev pub enough_fuel : Buffer → ℕ
enough_fuel buffer = length buffer.rest + 2

abbrev pub bytes_or_none : Option Bytes → Bytes
bytes_or_none (some content) = content
bytes_or_none none = []

abbrev not_found_class : Json → ErrorClass
not_found_class reason =
    if is_str reason (codes "file_metadata_not_found")
    then file_metadata_not_found
    else if is_str reason (codes "chat_not_found")
    then chat_not_found_error
    else invalid_botx_status_code_error

unfoldable pub upload_file_method : Endpoint
unfolding update_handlers
upload_file_method = record {
  method = codes "POST";
  path = codes "/api/v3/botx/files/upload";
  handlers =
      update_handlers status_handlers ((404, response_exception_thrower chat_not_found_error) ∷ []);
}

module _ ⦃env : Environment⦄ where
  unfoldable pub not_found_error_handler : StatusHandler
  not_found_error_handler = by_reason not_found_class

  unfoldable pub download_file_method : Endpoint
  unfolding update_handlers not_found_error_handler
  download_file_method = record {
    method = codes "GET";
    path = codes "/api/v3/botx/files/download";
    handlers = update_handlers status_handlers (
        (204, response_exception_thrower file_deleted_error) ∷ (404, not_found_error_handler) ∷ []);
  }

  -- `DownloadFileMethod.execute`: the buffer after it
  unfoldable pub download_file :
      (bot_id chat_id file_id : Uuid) → Buffer → (is_preview : Bool) → Action Buffer
  unfolding authorized_call download_file_method download_file_payload jsonable_dict write_chunks
  download_file bot_id chat_id file_id buffer is_preview =
      let endpoint = download_file_method in
      authorized_call endpoint.handlers bot_id endpoint.method endpoint.path
        (with_params (jsonable_dict (download_file_payload chat_id file_id is_preview)))
      ⟫ λ response.
          pure (seek_start (write_chunks (env.stream file_chunk_size response.content) buffer))

  -- `UploadFileMethod.execute`, where the loop has read the content
  unfoldable pub upload_file_execute :
      (validate : Json → Result ApiAsyncFile)
      → (bot_id chat_id : Uuid) → (meta filename : Str) → Bytes
      → Action ApiAsyncFile
  unfolding execute upload_file_method
  upload_file_execute validate bot_id chat_id meta filename content =
      execute upload_file_method validate bot_id (
        with_fields ((codes "group_chat_id", print_uuid chat_id) ∷ (codes "meta", meta) ∷ [])
          filename content)

  unfoldable pub upload_file :
      (validate : Json → Result ApiAsyncFile)
      → (bot_id chat_id : Uuid) → Buffer
      → (filename : Str) → (duration : Missing ℕ) (caption : Missing Str) → Action File
  unfolding upload_file_meta jsonable_dict copy_buffer upload_file_execute
      convert_async_file_to_domain
  upload_file validate bot_id chat_id buffer filename duration caption =
      upload_file_execute validate bot_id chat_id
        (env.dumps (jsonable_dict (upload_file_meta duration caption))) filename
        (bytes_or_none (copy_buffer file_chunk_size (enough_fuel buffer) buffer))
      ⟫ λ result. lift (convert_async_file_to_domain result)

  -- `FileBase.open`: the temporary file that it gives, at its start
  unfoldable pub open_file :
      FileBase → (bot_id chat_id : Uuid) → (is_preview : Bool) → Action Buffer
  unfolding download_file
  open_file file bot_id chat_id is_preview =
      download_file bot_id chat_id file.file_id (record { passed = []; rest = [] }) is_preview

-- `OutgoingAttachment.from_buffer`
unfoldable pub from_buffer : Buffer → (filename : Str) → OutgoingAttachment
from_buffer buffer filename = record { content = read_all buffer; filename = filename }

-- `FileAttachmentBase.open`, for the content of the attachment
unfoldable pub open_attachment : (content : Bytes) → Buffer
open_attachment content = seek_start (write content (record { passed = []; rest = [] }))
