-- ===== src/Models/Files/Roundtrip.antt =====
-- Files of the domain through the API and back.
use pybotx.Common.{◌≡◌, refl, ap, Option, none, some, ok, ◌>>=◌}
use pybotx.Models.Enums.{
  convert_attachment_type_from_domain, convert_attachment_type_to_domain,
  attachment_type_from_domain_mapping, attachment_type_to_domain_mapping,
}
use pybotx.Models.Files.Defs.{
  FileBase, ApiAsyncFile, api_image, api_video, api_document, api_voice, File, image, video,
  document, voice, to_optional, to_missing, base_from_domain, base_to_domain, api_file_of, file_of,
  convert_async_file_from_domain, convert_async_file_to_domain,
}

to_optional-to_missing {ℓ} :
    {A : Type ℓ} (value : Option A) → to_optional (to_missing value) ≡ value
to_optional-to_missing none = refl
to_optional-to_missing (some value) = refl

base_roundtrip : (f : FileBase) → base_to_domain (base_from_domain f) ≡ f
base_roundtrip f =
    rw
      (
        to_optional-to_missing f.file_preview,
        to_optional-to_missing f.file_preview_height,
        to_optional-to_missing f.file_preview_width,
        to_optional-to_missing f.file_encryption_algo,
        to_optional-to_missing f.chunk_size,
        to_optional-to_missing f.caption,
      )
      refl

-- Every file of the domain becomes a file of the API, which becomes the same file again.
pub async_file_roundtrip :
    (file : File) → (convert_async_file_from_domain file >>= convert_async_file_to_domain) ≡ ok file
unfolding convert_async_file_from_domain convert_async_file_to_domain
    convert_attachment_type_from_domain convert_attachment_type_to_domain
    attachment_type_from_domain_mapping attachment_type_to_domain_mapping api_file_of file_of
async_file_roundtrip (image f) = ap (λ f. ok (image f)) (base_roundtrip f)
async_file_roundtrip (document f) = ap (λ f. ok (document f)) (base_roundtrip f)
async_file_roundtrip (video f duration) = ap (λ f. ok (video f duration)) (base_roundtrip f)
async_file_roundtrip (voice f duration) = ap (λ f. ok (voice f duration)) (base_roundtrip f)

-- Every file of the API becomes a file of the domain.
pub async_file_total :
    (f : ApiAsyncFile) → (file : File) × (convert_async_file_to_domain f ≡ ok file)
unfolding convert_async_file_to_domain convert_attachment_type_to_domain
    attachment_type_to_domain_mapping file_of
async_file_total (api_image f) = (_, refl)
async_file_total (api_document f) = (_, refl)
async_file_total (api_video f duration) = (_, refl)
async_file_total (api_voice f duration) = (_, refl)
