-- ===== src/Client/Stickers/Payloads.antt =====
-- The payloads of the requests, as `model_dump` gives them, without the fields that only name the path.
use pybotx.Common.{ℕ, Option, some, none, List, [], ◌∷◌}
use pybotx.Common.Text.{Str, codes}
use pybotx.Common.Uuid.{Uuid}
use pybotx.Missing.{Missing, given}
use pybotx.Models.Attachments.{encode_rfc2397}
use pybotx.Models.ApiBase.{
  Entries, entry, missing_value, text_value, int_value, uuid_value, uuid_values,
}
use pybotx.Client.Files.{Buffer, read_all}

-- `BotXAPIAddStickerRequestPayload.from_domain`, after `pop("sticker_pack_id")`
unfoldable pub add_sticker_payload : (emoji : Str) → Buffer → Entries
unfolding encode_rfc2397
add_sticker_payload emoji buffer = entry (codes "emoji") (text_value emoji) (
    entry (codes "image") (text_value (encode_rfc2397 (read_all buffer) (codes "image/png")))
      Entries.end)

unfoldable pub create_sticker_pack_payload : (name : Str) (huid : Missing Uuid) → Entries
create_sticker_pack_payload name huid =
    entry (codes "name") (text_value name)
      (entry (codes "user_huid") (missing_value uuid_value huid) Entries.end)

-- `BotXAPIEditStickerPackRequestPayload.from_domain`, after `pop("sticker_pack_id")`
unfoldable pub edit_sticker_pack_payload :
    (name : Str) (preview : Uuid) (stickers_order : List Uuid) → Entries
edit_sticker_pack_payload name preview stickers_order = entry (codes "name") (text_value name) (
    entry (codes "preview") (uuid_value preview)
      (entry (codes "stickers_order") (uuid_values stickers_order) Entries.end))

-- `after if after else Undefined`
abbrev after_or_undefined : Option Str → Missing Str
after_or_undefined (some (c ∷ after)) = given (c ∷ after)
after_or_undefined (some []) = Missing.undefined
after_or_undefined none = Missing.undefined

-- `BotXAPIGetStickerPacksRequestPayload.from_domain`
unfoldable pub get_sticker_packs_payload : (huid : Uuid) (limit : ℕ) (after : Option Str) → Entries
get_sticker_packs_payload huid limit after = entry (codes "user_huid") (uuid_value huid) (
    entry (codes "limit") (int_value limit)
      (entry (codes "after") (missing_value text_value (after_or_undefined after)) Entries.end))
