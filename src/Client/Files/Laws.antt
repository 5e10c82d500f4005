-- ===== src/Client/Files/Laws.antt =====
-- The loops over a buffer against the buffer's bytes.
use pybotx.Common.{
  ℕ, zero, suc, ◌+◌, ◌≤◌, ◌≡◌, refl, ap, ◌∙◌, arith, some, List, [], ◌∷◌, ◌++◌, length, take, drop,
  append_assoc, append-nil,
}
use pybotx.Common.Base64.{Bytes}
use pybotx.Common.{Result}
use pybotx.Common.Text.{Str}
use pybotx.Common.Uuid.{Uuid}
use pybotx.Common.Json.{Json}
use pybotx.Missing.{Missing}
use pybotx.Models.ApiBase.{jsonable_dict}
use pybotx.Models.Files.{ApiAsyncFile, convert_async_file_to_domain}
use pybotx.Client.Action.{lift, ◌⟫◌}
use pybotx.Client.Http.{Environment}
use pybotx.Client.Files.Methods.{enough_fuel, upload_file_meta, upload_file, upload_file_execute}
use pybotx.Client.Files.Buffers.{Buffer, write, copy_chunks, copy_buffer, write_chunks}

take-drop : (n : ℕ) (s : Bytes) → take n s ++ drop n s ≡ s
take-drop zero [] = refl
take-drop (suc n) [] = refl
take-drop zero (b ∷ s) = refl
take-drop (suc n) (b ∷ s) = ap (λ t. b ∷ t) (take-drop n s)

length-drop_le : (n : ℕ) (s : Bytes) → length (drop n s) ≤ length s
length-drop_le zero s = omega arith
length-drop_le (suc n) [] = omega arith
length-drop_le (suc n) (b ∷ s) = let h = length-drop_le n s in omega arith

-- From a chunk that is not empty, the loop adds it and all that is left.
copy_chunks_lem :
    (n fuel : ℕ) (b : ℕ) (chunk passed rest tmp_file : Bytes)
    → length rest + 2 ≤ fuel
    → copy_chunks (suc n) fuel (b ∷ chunk) (record { passed = passed; rest = rest }) tmp_file
      ≡ some (tmp_file ++ (b ∷ (chunk ++ rest)))
unfolding copy_chunks
copy_chunks_lem n zero b chunk passed rest tmp_file h = absurd (omega arith)
copy_chunks_lem n (suc zero) b chunk passed rest tmp_file h = absurd (omega arith)
copy_chunks_lem n (suc (suc fuel)) b chunk passed [] tmp_file h = rw (append-nil chunk) refl
copy_chunks_lem n (suc (suc fuel)) b chunk passed (x ∷ xs) tmp_file h =
    let bound = length-drop_le n xs in
    copy_chunks_lem n (suc fuel) x (take n xs) (passed ++ x ∷ take n xs) (drop n xs)
      (tmp_file ++ b ∷ chunk) (omega arith)
    ∙ ap some (rw (take-drop n xs) (append_assoc tmp_file (b ∷ chunk) (x ∷ xs)))

-- The loop that reads a buffer in chunks of a positive size stops, within as many steps as there are bytes left and two
-- more, and what it has then written is all that was left, in order.
pub copy_buffer_lem :
    (n fuel : ℕ) (buffer : Buffer)
    → length buffer.rest + 2 ≤ fuel
    → copy_buffer (suc n) fuel buffer ≡ some buffer.rest
unfolding copy_buffer copy_chunks
copy_buffer_lem n fuel buffer h = copied fuel buffer.rest h
  where
    copied :
        (fuel : ℕ) (rest : Bytes)
        → length rest + 2 ≤ fuel
        → copy_buffer (suc n) fuel (record { passed = buffer.passed; rest = rest }) ≡ some rest
    copied zero rest h = absurd (omega arith)
    copied (suc fuel) [] h = refl
    copied (suc fuel) (x ∷ xs) h =
        let bound = length-drop_le n xs in
        copy_chunks_lem n (suc fuel) x (take n xs) (buffer.passed ++ x ∷ take n xs) (drop n xs) []
          (omega arith)
        ∙ ap (λ s. some (x ∷ s)) (take-drop n xs)

drop_none : (n : ℕ) → drop {A = ℕ} n [] ≡ []
drop_none zero = refl
drop_none (suc n) = refl

drop-length-append :
    (s t u : Bytes) → drop (length t) (drop (length s) u) ≡ drop (length (s ++ t)) u
drop-length-append [] t u = refl
drop-length-append (b ∷ s) t [] = drop_none (length t)
drop-length-append (b ∷ s) t (c ∷ u) = drop-length-append s t u

-- The bytes of all chunks
abbrev pub joined : List Bytes → Bytes
joined [] = []
joined (chunk ∷ chunks) = chunk ++ joined chunks

write-append : (s t : Bytes) (buffer : Buffer) → write t (write s buffer) ≡ write (s ++ t) buffer
write-append s t buffer =
    rw (append_assoc buffer.passed s t, drop-length-append s t buffer.rest) refl

-- Writing the chunks of a stream one after another writes their concatenation at once, however the stream is cut.
pub write_chunks_lem :
    (chunks : List Bytes) (buffer : Buffer)
    → write_chunks chunks buffer ≡ write (joined chunks) buffer
unfolding write_chunks
write_chunks_lem [] buffer = rw (append-nil buffer.passed) refl
write_chunks_lem (chunk ∷ chunks) buffer =
    write_chunks_lem chunks (write chunk buffer) ∙ write-append chunk (joined chunks) buffer

-- An uploaded file is what was left of the buffer: `upload_file` is `execute` of exactly these bytes, so the loop that
-- copies the buffer always ends within the fuel it is given.
pub upload_file_lem :
    ⦃env : Environment⦄ (validate : Json → Result ApiAsyncFile) (bot_id chat_id : Uuid)
    (buffer : Buffer) (filename : Str) (duration : Missing ℕ) (caption : Missing Str)
    → upload_file validate bot_id chat_id buffer filename duration caption ≡ (
        upload_file_execute validate bot_id chat_id
          (env.dumps (jsonable_dict (upload_file_meta duration caption)))
          filename
          buffer.rest
        ⟫ λ result. lift (convert_async_file_to_domain result))
unfolding upload_file
upload_file_lem validate bot_id chat_id buffer filename duration caption =
    rw (copy_buffer_lem 1048575 (enough_fuel buffer) buffer (omega arith)) refl
