-- ===== src/Models/Attachments/Defs.antt =====
-- The attachments of both sides and `convert_api_attachment_to_domain`. The `is_async_file` of every
-- attachment here is False, and is left out.
use pybotx.Common.{ℕ, [], ◌∷◌, ◌++◌, length, head?, drop, Result, ok, or_raise, index_error, ◌>>=◌}
use pybotx.Common.Text.{Str, codes, partition, split_on}
use pybotx.Common.Uuid.{Uuid}
use pybotx.Common.Base64.{Bytes, b64encode, b64decode}
use pybotx.Models.Enums.{AttachmentTypes}
use pybotx.Models.Attachments.Mimetypes.{get_mimetype_by_filename}

pub record FileContent : Type 0 where
  pub type : AttachmentTypes
  pub filename : Str
  pub size : ℕ
  pub content : Bytes

-- `IncomingFileAttachment`; videos and voices have a duration
pub data IncomingFileAttachment : Type 0 where
  attachment_image attachment_document : FileContent → IncomingFileAttachment
  attachment_video attachment_voice : FileContent → (duration : ℕ) → IncomingFileAttachment

pub record Location : Type 0 where
  pub name : Str
  pub address : Str
  pub latitude : Str
  pub longitude : Str

pub record Contact : Type 0 where
  pub name : Str

pub record Link : Type 0 where
  pub url : Str
  pub title : Str
  pub preview : Str
  pub text : Str

-- pybotx/models/stickers.py
pub record Sticker : Type 0 where
  pub id : Uuid
  pub image_link : Str
  pub pack_id : Uuid
  pub emoji : Str

pub record LocationData : Type 0 where
  pub location_name : Str
  pub location_address : Str
  -- `str` of the coordinate, which is a text or a float
  pub location_lat : Str
  pub location_lng : Str

pub record StickerData : Type 0 where
  pub id : Uuid
  pub link : Str
  pub pack : Uuid

pub record LinkData : Type 0 where
  pub url : Str
  pub url_title : Str
  pub url_preview : Str
  pub url_text : Str

-- `BotAPIAttachment`: a constructor for each class, whose `type` is its literal
pub data BotApiAttachment : Type 0 where
  api_video : (content file_name : Str) (duration : ℕ) → BotApiAttachment
  api_image api_document : (content file_name : Str) → BotApiAttachment
  api_voice : (content : Str) (duration : ℕ) → BotApiAttachment
  api_location : LocationData → BotApiAttachment
  api_contact : (contact_name : Str) → BotApiAttachment
  api_link : LinkData → BotApiAttachment
  api_sticker : StickerData → BotApiAttachment

-- `IncomingAttachment`
pub data IncomingAttachment : Type 0 where
  file : IncomingFileAttachment → IncomingAttachment
  location : Location → IncomingAttachment
  contact : Contact → IncomingAttachment
  link : Link → IncomingAttachment
  sticker : Sticker → IncomingAttachment

-- `encoded_content.split(";")[0].split("/")[1]`
unfoldable pub get_attachment_extension_from_encoded_content : Str → Result Str
get_attachment_extension_from_encoded_content encoded_content =
    or_raise index_error (head? (split_on b';' encoded_content)) >>= λ media.
    or_raise index_error (head? (drop 1 (split_on b'/' media)))

-- `split(",", 1)[1]` is what follows the first comma.
unfoldable pub decode_rfc2397 : Str → Result Bytes
decode_rfc2397 [] = ok []
decode_rfc2397 (c ∷ s) =
    or_raise index_error (partition b',' (c ∷ s)).1 >>= λ content. b64decode content

unfoldable pub encode_rfc2397 : Bytes → Str → Str
encode_rfc2397 content mimetype =
    codes "data:" ++ (mimetype ++ (codes ";base64," ++ b64encode content))

abbrev pub file_content : AttachmentTypes → Str → Bytes → FileContent
file_content t name bytes = record {
  type = t;
  filename = name;
  size = length bytes;
  content = bytes;
}

unfoldable pub convert_api_attachment_to_domain : BotApiAttachment → Str → Result IncomingAttachment
convert_api_attachment_to_domain (api_image content file_name) body =
    decode_rfc2397 content >>= λ bytes.
    ok (file (attachment_image (file_content AttachmentTypes.image file_name bytes)))
convert_api_attachment_to_domain (api_video content file_name duration) body =
    decode_rfc2397 content >>= λ bytes.
    ok (file (attachment_video (file_content AttachmentTypes.video file_name bytes) duration))
convert_api_attachment_to_domain (api_document content file_name) body =
    decode_rfc2397 content >>= λ bytes.
    ok (file (attachment_document (file_content AttachmentTypes.document file_name bytes)))
convert_api_attachment_to_domain (api_voice content duration) body =
    decode_rfc2397 content >>= λ bytes.
    get_attachment_extension_from_encoded_content content >>= λ extension. ok (
      file (
        attachment_voice (file_content AttachmentTypes.voice (codes "record." ++ extension) bytes)
          duration))
convert_api_attachment_to_domain (api_location d) body = ok (
    location (record {
      name = d.location_name;
      address = d.location_address;
      latitude = d.location_lat;
      longitude = d.location_lng;
    }))
convert_api_attachment_to_domain (api_contact contact_name) body =
    ok (contact (record { name = contact_name }))
convert_api_attachment_to_domain (api_link d) body =
    ok (
      link
        (record { url = d.url; title = d.url_title; preview = d.url_preview; text = d.url_text }))
convert_api_attachment_to_domain (api_sticker d) body =
    ok (sticker (record { id = d.id; image_link = d.link; pack_id = d.pack; emoji = body }))

pub record OutgoingAttachment : Type 0 where
  pub content : Bytes
  pub filename : Str

pub record BotXApiAttachment : Type 0 where
  pub file_name : Str
  pub data_url : Str

-- `BotXAPIAttachment.from_file_attachment`
unfoldable pub from_file_attachment : OutgoingAttachment → BotXApiAttachment
from_file_attachment a = record {
  file_name = a.filename;
  data_url = encode_rfc2397 a.content (get_mimetype_by_filename a.filename);
}
