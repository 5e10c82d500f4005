-- ===== src/Models/Attachments/Roundtrip.antt =====
-- The data URL of an outgoing attachment against the decoder of incoming ones.
use pybotx.Common.{
  ℕ, Bool, true, none, some, List, [], ◌∷◌, ◌++◌, ◌≡◌, ◌≢◌, ◌<◌, refl, sym, ap, ◌∙◌, ok, err, ◌==◌,
  ◌&&◌, not, All, All-append, append_assoc, arith, index_error,
}
use pybotx.Common.Text.{Str, codes, partition, partition-part, split_on-part, split_on-last}
use pybotx.Models.Enums.{AttachmentTypes}
use pybotx.Common.Uuid.{All-mono}
use pybotx.Common.Dict.{lookup}
use pybotx.Common.Base64.{Bytes, IsBytes, b64encode, b64decode-b64encode}
use pybotx.Models.Attachments.Mimetypes.{
  extensions_to_mimetypes, extension_of, get_mimetype_by_filename, default_mimetype, or_default,
}
use pybotx.Models.Attachments.Defs.{
  decode_rfc2397, encode_rfc2397, from_file_attachment, OutgoingAttachment,
  convert_api_attachment_to_domain, get_attachment_extension_from_encoded_content, api_voice,
  api_document, file, file_content, attachment_document, attachment_voice,
}

-- No comma in a text.
abbrev IsCommaFree : Str → Type 0
IsCommaFree = All (λ c. c ≢ b',')

abbrev has_no_comma : Str → Bool
has_no_comma [] = true
has_no_comma (c ∷ s) = not (c == b',') && has_no_comma s

has_no_comma→IsCommaFree : (s : Str) → has_no_comma s ≡ true → IsCommaFree s
has_no_comma→IsCommaFree [] h = tt
has_no_comma→IsCommaFree (c ∷ s) h = (ground arith, has_no_comma→IsCommaFree s (ground arith))

all_values : List (Str × Str) → Bool
all_values [] = true
all_values ((k, v) ∷ d) = has_no_comma v && all_values d

lookup-has_no_comma :
    (k v : Str) (d : List (Str × Str))
    → all_values d ≡ true
    → lookup k d ≡ some v
    → has_no_comma v ≡ true
unfolding all_values lookup
lookup-has_no_comma k v [] h e = cc
lookup-has_no_comma k v ((a, b) ∷ d) h e = ground (arith, lookup-has_no_comma k v d)

mimetypes_have_no_comma : all_values extensions_to_mimetypes ≡ true
unfolding all_values extensions_to_mimetypes
mimetypes_have_no_comma = refl

get_mimetype_by_filename-IsCommaFree :
    (filename : Str) → IsCommaFree (get_mimetype_by_filename filename)
unfolding get_mimetype_by_filename
get_mimetype_by_filename-IsCommaFree filename =
    elim (lookup (extension_of filename) extensions_to_mimetypes)
        as (λ m.
          (lookup (extension_of filename) extensions_to_mimetypes ≡ m
            → IsCommaFree (or_default m))) [
              | none ↦ λ e. has_no_comma→IsCommaFree default_mimetype refl
              | some mimetype ↦ λ e. has_no_comma→IsCommaFree mimetype (
                  lookup-has_no_comma (extension_of filename) mimetype extensions_to_mimetypes
                    mimetypes_have_no_comma e)
            ]
      refl

-- The comma of an encoded file is the first one.
partition_encoded :
    (mimetype content : Str)
    → IsCommaFree mimetype
    → (partition b',' (codes "data:" ++ (mimetype ++ (codes ";base64," ++ content)))).1
      ≡ some content
partition_encoded mimetype content h =
    ap (λ s. (partition b',' (codes "data:" ++ s)).1)
      (sym (append_assoc mimetype (codes ";base64") (b',' ∷ content)))
    ∙ ap (λ r. r.1)
        (partition-part b',' (codes "data:" ++ (mimetype ++ codes ";base64")) content commas)
  where
    commas : IsCommaFree (codes "data:" ++ (mimetype ++ codes ";base64"))
    commas =
        All-append (λ c. c ≢ b',') (codes "data:") _ (has_no_comma→IsCommaFree (codes "data:") refl)
          (All-append (λ c. c ≢ b',') mimetype _ h
            (has_no_comma→IsCommaFree (codes ";base64") refl))

decode_rfc2397-encode_rfc2397 :
    (content : Bytes) (mimetype : Str)
    → IsBytes content
    → IsCommaFree mimetype
    → decode_rfc2397 (encode_rfc2397 content mimetype) ≡ ok content
unfolding decode_rfc2397 encode_rfc2397
decode_rfc2397-encode_rfc2397 content mimetype hb hm =
    rw (partition_encoded mimetype (b64encode content) hm, b64decode-b64encode content hb)

extension :
    (kind subtype : Str) (content : Bytes)
    → All (λ c. (c ≢ b',') × (c ≢ b'/') × (c ≢ b';')) kind
    → All (λ c. (c ≢ b',') × (c ≢ b'/') × (c ≢ b';')) subtype
    → get_attachment_extension_from_encoded_content
        (encode_rfc2397 content (kind ++ b'/' ∷ subtype))
      ≡ ok subtype
unfolding get_attachment_extension_from_encoded_content encode_rfc2397
extension kind subtype content hk hs =
    rw
      (
        encoded,
        split_on-part b';' (codes "data:" ++ (kind ++ b'/' ∷ subtype))
            (codes "base64," ++ b64encode content) media_part,
      )
      (rw (
        split_on-part b'/' (codes "data:" ++ kind) subtype first_part,
        split_on-last b'/' subtype (All-mono (λ c h. h.1) subtype hs),
      ))
  where
    encoded :
        codes "data:" ++ ((kind ++ b'/' ∷ subtype) ++ (codes ";base64," ++ b64encode content))
        ≡ (codes "data:" ++ (kind ++ b'/' ∷ subtype))
          ++ b';' ∷ (codes "base64," ++ b64encode content)
    encoded = refl

    media_part : All (λ c. c ≢ b';') (codes "data:" ++ (kind ++ b'/' ∷ subtype))
    media_part =
        All-append (λ c. c ≢ b';') (codes "data:") _
          (omega arith, (omega arith, (omega arith, (omega arith, (omega arith, tt)))))
          (All-append (λ c. c ≢ b';') kind _ (All-mono (λ c h. h.2) kind hk)
            (omega arith, All-mono (λ c h. h.2) subtype hs))

    first_part : All (λ c. c ≢ b'/') (codes "data:" ++ kind)
    first_part =
        All-append (λ c. c ≢ b'/') (codes "data:") kind
          (omega arith, (omega arith, (omega arith, (omega arith, (omega arith, tt)))))
          (All-mono (λ c h. h.1) kind hk)

-- Whatever its file name, the data URL of an outgoing attachment whose content is bytes (numbers below
-- 256) decodes to that content.
pub outgoing_attachment_decoded :
    (attachment : OutgoingAttachment)
    → IsBytes attachment.content
    → decode_rfc2397 (from_file_attachment attachment).data_url ≡ ok attachment.content
unfolding from_file_attachment
outgoing_attachment_decoded attachment h =
    decode_rfc2397-encode_rfc2397 attachment.content (get_mimetype_by_filename attachment.filename)
      h (get_mimetype_by_filename-IsCommaFree attachment.filename)

-- A voice message that arrives as the data URL of its bytes, of the media type `kind/subtype`, becomes a file of those bytes and their
-- number, called `record.` with the subtype of the media type; `kind` and `subtype` have no comma, no
-- slash and no semicolon.
pub voice_converted :
    (kind subtype body : Str) (content : Bytes) (duration : ℕ)
    → IsBytes content
    → All (λ c. (c ≢ b',') × (c ≢ b'/') × (c ≢ b';')) kind
    → All (λ c. (c ≢ b',') × (c ≢ b'/') × (c ≢ b';')) subtype
    → convert_api_attachment_to_domain
        (api_voice (encode_rfc2397 content (kind ++ b'/' ∷ subtype)) duration)
        body
      ≡ ok (
          file (
            attachment_voice
              (file_content AttachmentTypes.voice (codes "record." ++ subtype) content)
              duration))
unfolding convert_api_attachment_to_domain
voice_converted kind subtype body content duration hb hk hs =
    rw
      (
        decode_rfc2397-encode_rfc2397 content (kind ++ b'/' ∷ subtype) hb (
            All-append (λ c. c ≢ b',') kind _ (All-mono (λ c h. h.0) kind hk)
              (omega arith, All-mono (λ c h. h.0) subtype hs)),
        extension kind subtype content hk hs,
      )
      refl

-- Without a slash in the media type there is no second part to take.
no_extension :
    (media : Str) (content : Bytes)
    → All (λ c. (c ≢ b',') × (c ≢ b'/') × (c ≢ b';')) media
    → get_attachment_extension_from_encoded_content (encode_rfc2397 content media) ≡ err index_error
unfolding get_attachment_extension_from_encoded_content encode_rfc2397
no_extension media content h =
    rw
      (
        split_on-part b';' (codes "data:" ++ media) (codes "base64," ++ b64encode content)
            (scheme_and_media b';' (omega arith, omega arith) (All-mono (λ c h. h.2) media h)),
        split_on-last b'/' (codes "data:" ++ media)
            (scheme_and_media b'/' (omega arith, omega arith) (All-mono (λ c h. h.1) media h)),
      )
      refl
  where
    scheme_and_media :
        (d : ℕ)
        → (d < 97) × (58 ≢ d)
        → All (λ c. c ≢ d) media
        → All (λ c. c ≢ d) (codes "data:" ++ media)
    scheme_and_media d n k =
        All-append (λ c. c ≢ d) (codes "data:") media
          (omega arith, (omega arith, (omega arith, (omega arith, (omega arith, tt))))) k

-- A voice message that arrives as the data URL of its bytes, of a media type without a subtype (no slash, and no comma
-- and semicolon), the empty one for instance, raises `IndexError`, whatever the bytes; a document
-- with the same data URL becomes a file of these bytes.
pub voice_without_subtype :
    (media file_name body : Str) (content : Bytes) (duration : ℕ)
    → IsBytes content
    → All (λ c. (c ≢ b',') × (c ≢ b'/') × (c ≢ b';')) media
    → (convert_api_attachment_to_domain (api_voice (encode_rfc2397 content media) duration) body
        ≡ err index_error)
      × (convert_api_attachment_to_domain
            (api_document (encode_rfc2397 content media) file_name)
            body
          ≡ ok (
              file (attachment_document (file_content AttachmentTypes.document file_name content))))
unfolding convert_api_attachment_to_domain
voice_without_subtype media file_name body content duration hb h =
    let decoded = decode_rfc2397-encode_rfc2397 content media hb (All-mono (λ c h. h.0) media h) in
    (rw (decoded, no_extension media content h) refl, rw decoded refl)
