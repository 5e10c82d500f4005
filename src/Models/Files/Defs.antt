-- ===== src/Models/Files/Defs.antt =====
-- The asynchronous files of the domain and of the API, and the two conversions. Sizes and durations are
-- natural numbers. `is_async_file` is always True and is left out; `open` stands in Client.Files.
use pybotx.Common.{ℕ, Option, none, some, Result, ok, err, attribute_error, not_implemented, ◌>>=◌}
use pybotx.Common.Text.{Str}
use pybotx.Common.Uuid.{Uuid}
use pybotx.Missing.{Missing, undefined, given}
use pybotx.Models.Enums.{
  AttachmentTypes, ApiAttachmentTypes, convert_attachment_type_from_domain,
  convert_attachment_type_to_domain,
}

-- `FileBase`, without its `type`
pub record FileBase : Type 0 where
  pub filename : Str
  pub size : ℕ
  pub file_id : Uuid
  pub file_url : Str
  pub file_mimetype : Str
  pub file_hash : Str
  pub file_preview : Option Str
  pub file_preview_height : Option ℕ
  pub file_preview_width : Option ℕ
  pub file_encryption_algo : Option Str
  pub chunk_size : Option ℕ
  pub caption : Option Str

-- `File`: a constructor for each class, whose `type` is its literal
pub data File : Type 0 where
  image document : FileBase → File
  video voice : FileBase → (duration : ℕ) → File

-- `MissingOptional`
abbrev pub MissingOptional : Type 0 → Type 0
MissingOptional A = Missing (Option A)

-- `APIAsyncFileBase`, without its `type`
pub record ApiAsyncFileBase : Type 0 where
  pub file : Str
  pub file_mime_type : Str
  pub file_id : Uuid
  pub file_name : Str
  pub file_size : ℕ
  pub file_hash : Str
  pub file_preview : MissingOptional Str
  pub file_preview_height : MissingOptional ℕ
  pub file_preview_width : MissingOptional ℕ
  pub file_encryption_algo : MissingOptional Str
  pub chunk_size : MissingOptional ℕ
  pub caption : MissingOptional Str

-- `APIAsyncFile`
pub data ApiAsyncFile : Type 0 where
  api_image api_document : ApiAsyncFileBase → ApiAsyncFile
  api_video api_voice : ApiAsyncFileBase → (duration : ℕ) → ApiAsyncFile

-- `_to_optional`
abbrev pub to_optional {ℓ} : {A : Type ℓ} → Missing (Option A) → Option A
to_optional undefined = none
to_optional (given value) = value

-- `_to_missing`
abbrev pub to_missing {ℓ} : {A : Type ℓ} → Option A → Missing (Option A)
to_missing none = undefined
to_missing (some value) = given (some value)

abbrev pub file_type : File → AttachmentTypes
file_type (image f) = AttachmentTypes.image
file_type (video f duration) = AttachmentTypes.video
file_type (document f) = AttachmentTypes.document
file_type (voice f duration) = AttachmentTypes.voice

abbrev pub file_base : File → FileBase
file_base (image f) = f
file_base (video f duration) = f
file_base (document f) = f
file_base (voice f duration) = f

-- `file.duration`, which images and documents do not have
abbrev pub file_duration : File → Result ℕ
file_duration (image f) = err attribute_error
file_duration (video f duration) = ok duration
file_duration (document f) = err attribute_error
file_duration (voice f duration) = ok duration

abbrev pub api_type : ApiAsyncFile → ApiAttachmentTypes
api_type (api_image f) = ApiAttachmentTypes.image
api_type (api_video f duration) = ApiAttachmentTypes.video
api_type (api_document f) = ApiAttachmentTypes.document
api_type (api_voice f duration) = ApiAttachmentTypes.voice

abbrev pub api_base : ApiAsyncFile → ApiAsyncFileBase
api_base (api_image f) = f
api_base (api_video f duration) = f
api_base (api_document f) = f
api_base (api_voice f duration) = f

abbrev pub api_duration : ApiAsyncFile → Result ℕ
api_duration (api_image f) = err attribute_error
api_duration (api_video f duration) = ok duration
api_duration (api_document f) = err attribute_error
api_duration (api_voice f duration) = ok duration

-- The arguments that each class of the API is built with.
abbrev pub base_from_domain : FileBase → ApiAsyncFileBase
base_from_domain f = record {
  file = f.file_url;
  file_mime_type = f.file_mimetype;
  file_id = f.file_id;
  file_name = f.filename;
  file_size = f.size;
  file_hash = f.file_hash;
  file_preview = to_missing f.file_preview;
  file_preview_height = to_missing f.file_preview_height;
  file_preview_width = to_missing f.file_preview_width;
  file_encryption_algo = to_missing f.file_encryption_algo;
  chunk_size = to_missing f.chunk_size;
  caption = to_missing f.caption;
}

abbrev pub base_to_domain : ApiAsyncFileBase → FileBase
base_to_domain f = record {
  filename = f.file_name;
  size = f.file_size;
  file_id = f.file_id;
  file_url = f.file;
  file_mimetype = f.file_mime_type;
  file_hash = f.file_hash;
  file_preview = to_optional f.file_preview;
  file_preview_height = to_optional f.file_preview_height;
  file_preview_width = to_optional f.file_preview_width;
  file_encryption_algo = to_optional f.file_encryption_algo;
  chunk_size = to_optional f.chunk_size;
  caption = to_optional f.caption;
}

-- The chain of `if attachment_type == …` of `convert_async_file_from_domain`.
unfoldable pub api_file_of : ApiAttachmentTypes → File → Result ApiAsyncFile
api_file_of ApiAttachmentTypes.image f = ok (api_image (base_from_domain (file_base f)))
api_file_of ApiAttachmentTypes.video f =
    file_duration f >>= λ duration. ok (api_video (base_from_domain (file_base f)) duration)
api_file_of ApiAttachmentTypes.document f = ok (api_document (base_from_domain (file_base f)))
api_file_of ApiAttachmentTypes.voice f =
    file_duration f >>= λ duration. ok (api_voice (base_from_domain (file_base f)) duration)
api_file_of ApiAttachmentTypes.location f = err not_implemented
api_file_of _ f = err not_implemented

unfoldable pub convert_async_file_from_domain : File → Result ApiAsyncFile
convert_async_file_from_domain f =
    convert_attachment_type_from_domain (file_type f) >>= λ attachment_type.
    api_file_of attachment_type f

-- The chain of `convert_async_file_to_domain`.
unfoldable pub file_of : AttachmentTypes → ApiAsyncFile → Result File
file_of AttachmentTypes.image f = ok (image (base_to_domain (api_base f)))
file_of AttachmentTypes.video f =
    api_duration f >>= λ duration. ok (video (base_to_domain (api_base f)) duration)
file_of AttachmentTypes.document f = ok (document (base_to_domain (api_base f)))
file_of AttachmentTypes.voice f =
    api_duration f >>= λ duration. ok (voice (base_to_domain (api_base f)) duration)
file_of AttachmentTypes.location f = err not_implemented
file_of _ f = err not_implemented

unfoldable pub convert_async_file_to_domain : ApiAsyncFile → Result File
convert_async_file_to_domain f =
    convert_attachment_type_to_domain (api_type f) >>= λ attachment_type. file_of attachment_type f
