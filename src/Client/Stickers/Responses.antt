-- ===== src/Client/Stickers/Responses.antt =====
-- The payloads of the responses, as pydantic has validated them, and their `to_domain`.
use pybotx.Common.{
  ℕ, suc, leb, Bool, Option, some, none, List, [], ◌∷◌, map, Result, ok, err, value_error,
  map_result, ◌>>=◌, ◌==◌, if◌then◌else◌,
}
use pybotx.Common.Text.{Str}
use pybotx.Common.Uuid.{Uuid}
use pybotx.Models.Attachments.{Sticker}

pub record StickerPack : Type 0 where
  pub id : Uuid
  pub name : Str
  pub is_public : Bool
  pub stickers : List Sticker

pub record StickerPackFromList : Type 0 where
  pub id : Uuid
  pub name : Str
  pub is_public : Bool
  pub stickers_count : ℕ
  pub sticker_ids : Option (List Uuid)

pub record StickerPackPage : Type 0 where
  pub sticker_packs : List StickerPackFromList
  pub after : Option Str

-- `BotXAPIAddStickerResult`, and `BotXAPIGetStickerResult`
pub record ApiSticker : Type 0 where
  pub id : Uuid
  pub emoji : Str
  pub link : Str

unfoldable pub sticker_to_domain : (pack_id : Uuid) → ApiSticker → Sticker
sticker_to_domain pack_id s = record {
  id = s.id;
  image_link = s.link;
  pack_id = pack_id;
  emoji = s.emoji;
}

-- `BotXAPICreateStickerPackResult`
pub record ApiCreatedPack : Type 0 where
  pub id : Uuid
  pub name : Str
  pub public_pack : Bool

unfoldable pub created_pack_to_domain : ApiCreatedPack → StickerPack
created_pack_to_domain p = record {
  id = p.id;
  name = p.name;
  is_public = p.public_pack;
  stickers = [];
}

-- `BotXAPIGetStickerPackResult` of sticker_pack.py
pub record ApiStickerPack : Type 0 where
  pub id : Uuid
  pub name : Str
  pub public_pack : Bool
  pub stickers_order : Option (List Uuid)
  pub stickers : List ApiSticker

-- `order.index(id)`, counted from `n`
unfoldable pub index_from : ℕ → Uuid → List Uuid → Result ℕ
index_from n id [] = err value_error
index_from n id (i ∷ order) =
    let rest = index_from (suc n) id order in if i == id then ok n else rest

abbrev pub Keyed : Type 0
Keyed = ℕ × ApiSticker

abbrev pub keyed : List Uuid → ApiSticker → Result Keyed
keyed order s = index_from 0 s.id order >>= λ k. ok (k, s)

-- `list.sort`, which is stable, once all keys are computed
unfoldable pub insert : Keyed → List Keyed → List Keyed
insert x [] = x ∷ []
insert x (y ∷ ys) = let rest = insert x ys in if leb x.0 y.0 then x ∷ y ∷ ys else y ∷ rest

unfoldable pub sort : List Keyed → List Keyed
unfolding insert
sort [] = []
sort (x ∷ xs) = insert x (sort xs)

abbrev pub sticker_of : Keyed → ApiSticker
sticker_of (k, s) = s

unfoldable pub sorted_by : List Uuid → List ApiSticker → Result (List ApiSticker)
unfolding index_from sort
sorted_by order stickers =
    map_result (keyed order) stickers >>= λ pairs. ok (map sticker_of (sort pairs))

abbrev pub in_order : Option (List Uuid) → List ApiSticker → Result (List ApiSticker)
in_order (some (i ∷ order)) stickers = sorted_by (i ∷ order) stickers
in_order (some []) stickers = ok stickers
in_order none stickers = ok stickers

-- `BotXAPIGetStickerPackResponsePayload.to_domain`
unfoldable pub sticker_pack_to_domain : ApiStickerPack → Result StickerPack
unfolding sorted_by sticker_to_domain
sticker_pack_to_domain p = in_order p.stickers_order p.stickers >>= λ stickers. ok (record {
  id = p.id;
  name = p.name;
  is_public = p.public_pack;
  stickers = map (sticker_to_domain p.id) stickers;
})

-- `BotXAPIGetStickerPackResult` of get_sticker_packs.py
pub record ApiPackFromList : Type 0 where
  pub id : Uuid
  pub name : Str
  pub public_pack : Bool
  pub stickers_count : ℕ
  pub stickers_order : Option (List Uuid)

-- `BotXAPIGetStickerPacksResult`
pub record ApiPacksPage : Type 0 where
  pub packs : List ApiPackFromList
  pub after : Option Str

abbrev pack_from_list : ApiPackFromList → StickerPackFromList
pack_from_list p = record {
  id = p.id;
  name = p.name;
  is_public = p.public_pack;
  stickers_count = p.stickers_count;
  sticker_ids = p.stickers_order;
}

unfoldable pub packs_page_to_domain : ApiPacksPage → StickerPackPage
packs_page_to_domain page = record {
  sticker_packs = map pack_from_list page.packs;
  after = page.after;
}
