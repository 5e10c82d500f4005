-- ===== src/Client/Files/Buffers.antt =====
-- A buffer as `io.BytesIO` is one, and the code that reads and writes it.
use pybotx.Common.{
  ℕ, suc, zero, ltb, not, Option, some, none, List, [], ◌∷◌, ◌++◌, Result, ok, err, value_error,
  length, take, drop, if◌then◌else◌,
}
use pybotx.Common.Text.{str_eq}
use pybotx.Common.Base64.{Bytes}

-- The bytes before the position and those from it on.
pub record Buffer : Type 0 where
  pub passed : Bytes
  pub rest : Bytes

abbrev pub contents : Buffer → Bytes
contents buffer = buffer.passed ++ buffer.rest

abbrev pub tell : Buffer → ℕ
tell buffer = length buffer.passed

abbrev pub seek_start : Buffer → Buffer
seek_start buffer = record { passed = []; rest = contents buffer }

abbrev pub seek_end : Buffer → Buffer
seek_end buffer = record { passed = contents buffer; rest = [] }

-- `read(size)` and `read()`
abbrev pub read : ℕ → Buffer → Bytes × Buffer
read size buffer = (
  take size buffer.rest,
  record { passed = buffer.passed ++ take size buffer.rest; rest = drop size buffer.rest },
)

abbrev pub read_all : Buffer → Bytes
read_all buffer = buffer.rest

-- `write`, over the bytes that are there
abbrev pub write : Bytes → Buffer → Buffer
write content buffer = record {
  passed = buffer.passed ++ content;
  rest = drop (length content) buffer.rest;
}

-- `get_file_size`
unfoldable pub get_file_size : Buffer → ℕ × Buffer
get_file_size buffer = (tell (seek_end buffer), seek_start (seek_end buffer))

abbrev pub png_magic_bytes : Bytes
png_magic_bytes = 0x89 ∷ 0x50 ∷ 0x4e ∷ 0x47 ∷ 0x0d ∷ 0x0a ∷ 0x1a ∷ 0x0a ∷ []

-- `ensure_file_content_is_png`; the buffer is left at its start.
unfoldable pub ensure_file_content_is_png : Buffer → Result Buffer
unfolding str_eq
ensure_file_content_is_png buffer =
    let (magic_bytes, after) = read 8 buffer in
    if not (str_eq magic_bytes png_magic_bytes) then err value_error else ok (seek_start after)

abbrev pub sticker_image_max_size : ℕ
sticker_image_max_size = 524288

-- `ensure_sticker_image_size_valid`; the buffer is left at its start.
unfoldable pub ensure_sticker_image_size_valid : Buffer → Result Buffer
unfolding get_file_size
ensure_sticker_image_size_valid buffer =
    let (file_size, after) = get_file_size buffer in
    if ltb sticker_image_max_size file_size then err value_error else ok after

-- `chunk = buffer.read(…)` and the loop `while chunk`, which adds the chunks to a file, on fuel
unfoldable pub copy_chunks :
    (size : ℕ) (fuel : ℕ) (chunk : Bytes) → Buffer → (tmp_file : Bytes) → Option Bytes
copy_chunks size zero chunk buffer tmp_file = none
copy_chunks size (suc fuel) [] buffer tmp_file = some tmp_file
copy_chunks size (suc fuel) (b ∷ chunk) buffer tmp_file =
    let (next, after) = read size buffer in copy_chunks size fuel next after (tmp_file ++ b ∷ chunk)

unfoldable pub copy_buffer : (size : ℕ) (fuel : ℕ) → Buffer → Option Bytes
unfolding copy_chunks
copy_buffer size fuel buffer =
    let (chunk, after) = read size buffer in copy_chunks size fuel chunk after []

-- `for chunk in …: buffer.write(chunk)`
unfoldable pub write_chunks : List Bytes → Buffer → Buffer
write_chunks [] buffer = buffer
write_chunks (chunk ∷ chunks) buffer = write_chunks chunks (write chunk buffer)
