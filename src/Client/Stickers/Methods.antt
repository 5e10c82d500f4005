-- ===== src/Client/Stickers/Methods.antt =====
-- The methods of `Client` for stickers, and `Sticker.download`.
use pybotx.Common.{
  ℕ, zero, suc, leb, ltb, ◌&&◌, Option, some, none, List, [], ◌∷◌, ◌++◌, Result, http_error,
  if◌then◌else◌,
}
use pybotx.Common.Text.{Str, codes}
use pybotx.Common.Uuid.{Uuid}
use pybotx.Common.Json.{Json}
use pybotx.Missing.{Missing}
use pybotx.Models.Attachments.{Sticker}
use pybotx.Models.ApiBase.{jsonable_dict}
use pybotx.Client.Action.{
  HttpResponse, no_content, Request, python, from_response, invalid_botx_status_code_error, Action,
  pure, raise, lift, ◌⟫◌,
}
use pybotx.Client.Http.{Environment, bare, with_json, with_params}
use pybotx.Client.Auth.{execute}
use pybotx.Client.Files.{
  Buffer, seek_start, write, ensure_file_content_is_png, ensure_sticker_image_size_valid,
}
use pybotx.Client.Stickers.Payloads.{
  add_sticker_payload, create_sticker_pack_payload, edit_sticker_pack_payload,
  get_sticker_packs_payload,
}
use pybotx.Client.Stickers.Responses.{
  StickerPack, StickerPackFromList, StickerPackPage, ApiSticker, sticker_to_domain, ApiCreatedPack,
  created_pack_to_domain, ApiStickerPack, sticker_pack_to_domain, ApiPacksPage,
  packs_page_to_domain,
}
use pybotx.Client.Stickers.Endpoints.{
  create_sticker_pack_method, get_sticker_packs_method, get_sticker_pack_method,
  edit_sticker_pack_method, delete_sticker_pack_method, get_sticker_method, delete_sticker_method,
  add_sticker_method,
}

abbrev pub sticker_packs_per_page : ℕ
sticker_packs_per_page = 10

module _ ⦃env : Environment⦄ where
  unfoldable pub create_sticker_pack :
      (validate : Json → Result ApiCreatedPack)
      → (bot_id : Uuid) (name : Str) (huid : Missing Uuid) → Action StickerPack
  unfolding execute create_sticker_pack_method create_sticker_pack_payload jsonable_dict
      created_pack_to_domain
  create_sticker_pack validate bot_id name huid =
      execute create_sticker_pack_method validate bot_id
        (with_json (jsonable_dict (create_sticker_pack_payload name huid)))
      ⟫ λ result. pure (created_pack_to_domain result)

  -- An image that is refused raises before anything is sent.
  unfoldable pub add_sticker :
      (validate : Json → Result ApiSticker)
      → (bot_id sticker_pack_id : Uuid) (emoji : Str) → Buffer
      → Action Sticker
  unfolding ensure_file_content_is_png ensure_sticker_image_size_valid execute add_sticker_method
      add_sticker_payload jsonable_dict sticker_to_domain
  add_sticker validate bot_id sticker_pack_id emoji buffer =
      lift (ensure_file_content_is_png buffer) ⟫ λ checked.
      lift (ensure_sticker_image_size_valid checked) ⟫ λ valid.
      execute (add_sticker_method sticker_pack_id) validate bot_id
        (with_json (jsonable_dict (add_sticker_payload emoji valid)))
      ⟫ λ result. pure (sticker_to_domain sticker_pack_id result)

  unfoldable pub delete_sticker : (bot_id sticker_pack_id sticker_id : Uuid) → Action (Unit {0})
  unfolding execute delete_sticker_method
  delete_sticker bot_id sticker_pack_id sticker_id =
      execute (delete_sticker_method sticker_pack_id sticker_id) env.validate_status bot_id bare

  unfoldable pub get_sticker_pack :
      (validate : Json → Result ApiStickerPack)
      → (bot_id sticker_pack_id : Uuid) → Action StickerPack
  unfolding execute get_sticker_pack_method sticker_pack_to_domain
  get_sticker_pack validate bot_id sticker_pack_id =
      execute (get_sticker_pack_method sticker_pack_id) validate bot_id bare ⟫ λ result.
      lift (sticker_pack_to_domain result)

  unfoldable pub delete_sticker_pack : (bot_id sticker_pack_id : Uuid) → Action (Unit {0})
  unfolding execute delete_sticker_pack_method
  delete_sticker_pack bot_id sticker_pack_id =
      execute (delete_sticker_pack_method sticker_pack_id) env.validate_status bot_id bare

  unfoldable pub get_sticker :
      (validate : Json → Result ApiSticker)
      → (bot_id sticker_pack_id sticker_id : Uuid) → Action Sticker
  unfolding execute get_sticker_method sticker_to_domain
  get_sticker validate bot_id sticker_pack_id sticker_id =
      execute (get_sticker_method sticker_pack_id sticker_id) validate bot_id bare ⟫ λ result.
      pure (sticker_to_domain sticker_pack_id result)

  unfoldable pub edit_sticker_pack :
      (validate : Json → Result ApiStickerPack)
      → (bot_id sticker_pack_id : Uuid) (name : Str) (preview : Uuid) (stickers_order : List Uuid)
      → Action StickerPack
  unfolding execute edit_sticker_pack_method edit_sticker_pack_payload jsonable_dict
      sticker_pack_to_domain
  edit_sticker_pack validate bot_id sticker_pack_id name preview stickers_order =
      execute (edit_sticker_pack_method sticker_pack_id) validate bot_id
        (with_json (jsonable_dict (edit_sticker_pack_payload name preview stickers_order)))
      ⟫ λ result. lift (sticker_pack_to_domain result)

  -- One turn of the loop: the request for the page after a cursor
  unfoldable pub get_page :
      (validate : Json → Result ApiPacksPage)
      → (bot_id user_huid : Uuid) (after : Option Str) → Action StickerPackPage
  unfolding execute get_sticker_packs_method get_sticker_packs_payload jsonable_dict
      packs_page_to_domain
  get_page validate bot_id user_huid after =
      execute get_sticker_packs_method validate bot_id (
        with_params
          (jsonable_dict (get_sticker_packs_payload user_huid sticker_packs_per_page after)))
      ⟫ λ result. pure (packs_page_to_domain result)

  abbrev pub appended :
      List StickerPackFromList
      → Option (List StickerPackFromList)
      → Option (List StickerPackFromList)
  appended packs none = none
  appended packs (some more) = some (packs ++ more)

  -- `yield from …`, and the next turn unless `not after`
  abbrev pub then_after :
      (Option Str → Action (Option (List StickerPackFromList)))
      → List StickerPackFromList
      → (after : Option Str) → Action (Option (List StickerPackFromList))
  then_after turn packs none = pure (some packs)
  then_after turn packs (some []) = pure (some packs)
  then_after turn packs (some (c ∷ after)) =
      turn (some (c ∷ after)) ⟫ λ more. pure (appended packs more)

  -- The loop from a cursor on, on fuel, for a caller that takes all that it yields; `none` where the fuel is used up
  unfoldable pub packs_after :
      (validate : Json → Result ApiPacksPage) (bot_id user_huid : Uuid) (fuel : ℕ)
      (after : Option Str)
      → Action (Option (List StickerPackFromList))
  unfolding get_page
  packs_after validate bot_id user_huid zero after = pure none
  packs_after validate bot_id user_huid (suc fuel) after =
      get_page validate bot_id user_huid after ⟫ λ page.
      then_after (packs_after validate bot_id user_huid fuel) page.sticker_packs page.after

  -- `iterate_by_sticker_packs`
  unfoldable pub iterate_by_sticker_packs :
      (validate : Json → Result ApiPacksPage) (bot_id user_huid : Uuid) (fuel : ℕ)
      → Action (Option (List StickerPackFromList))
  unfolding packs_after
  iterate_by_sticker_packs validate bot_id user_huid fuel =
      packs_after validate bot_id user_huid fuel none

  abbrev status_checked : HttpResponse → Action HttpResponse
  status_checked response =
      if leb 200 response.status && ltb response.status 300
      then pure response
      else raise (from_response invalid_botx_status_code_error response)

  abbrev answer_or_error : Option HttpResponse → Action HttpResponse
  answer_or_error (some response) = pure response
  answer_or_error none = raise (python http_error)

  -- `Sticker.download`: the buffer after it
  unfoldable pub download : Sticker → Buffer → Action Buffer
  download sticker buffer =
      client_request
        (record { method = codes "GET"; url = sticker.image_link; headers = []; body = no_content })
      ⟫ status_checked
      ⟫ λ response. pure (seek_start (write response.content buffer))
    where
      client_request : Request → Action HttpResponse
      client_request request w =
          answer_or_error (env.answer w.sent request) (record w { sent = request ∷ w.sent })
