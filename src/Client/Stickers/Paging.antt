-- ===== src/Client/Stickers/Paging.antt =====
-- The loop over the pages against the pages that the server gives.
use pybotx.Common.{
  ℕ, zero, suc, ◌≤◌, ◌≡◌, ◌↔◌, refl, ◌∙◌, ap, arith, Option, none, some, List, [], ◌∷◌, ◌++◌,
  Result,
}
use pybotx.Common.Text.{Str}
use pybotx.Common.Uuid.{Uuid}
use pybotx.Common.Json.{Json}
use pybotx.Client.Action.{done, World, Action, pure, chain_done}
use pybotx.Client.Http.{Environment}
use pybotx.Client.Stickers.Responses.{StickerPackFromList, StickerPackPage, ApiPacksPage}
use pybotx.Client.Stickers.Methods.{
  get_page, appended, then_after, packs_after, iterate_by_sticker_packs,
}

-- `not after`
abbrev pub IsEnd : Option Str → Type 0
IsEnd none = Unit
IsEnd (some []) = Unit
IsEnd (some (c ∷ after)) = ⊥

module _ ⦃env : Environment⦄ (validate : Json → Result ApiPacksPage) (bot_id user_huid : Uuid) where
  -- From a cursor and a state, so many requests for pages, each with the cursor of the page before it, end with a page
  -- that has none; they give these packs and leave this state.
  pub data Pages : Option Str → World → ℕ → List StickerPackFromList → World → Type 0 where
    last :
        {after : Option Str} {w w' : World} (page : StickerPackPage)
        → get_page validate bot_id user_huid after w ≡ (done page, w')
        → IsEnd page.after
        → Pages after w 1 page.sticker_packs w'
    next :
        {after : Option Str} {w v w' : World} {n : ℕ} {packs : List StickerPackFromList}
        (page : StickerPackPage) (c : ℕ) (cursor : Str)
        → get_page validate bot_id user_huid after w ≡ (done page, v)
        → page.after ≡ some (c ∷ cursor)
        → Pages (some (c ∷ cursor)) v n packs w'
        → Pages after w (suc n) (page.sticker_packs ++ packs) w'

  ended :
      (turn : Option Str → Action (Option (List StickerPackFromList)))
      (packs : List StickerPackFromList) (w : World) (after : Option Str)
      → IsEnd after
      → then_after turn packs after w ≡ (done (some packs), w)
  ended turn packs w none h = refl
  ended turn packs w (some []) h = refl
  ended turn packs w (some (c ∷ after)) h = absurd h

  -- Enough fuel for the pages gives their packs.
  pub Pages-run :
      {after : Option Str} {w w' : World} {n : ℕ} {packs : List StickerPackFromList}
      → Pages after w n packs w'
      → (fuel : ℕ) → n ≤ fuel
      → packs_after validate bot_id user_huid fuel after w ≡ (done (some packs), w')
  unfolding packs_after
  Pages-run (last page e h) zero le = absurd (omega arith)
  Pages-run {w' = w'} (last page e h) (suc fuel) le =
      rw e (ended (packs_after validate bot_id user_huid fuel) page.sticker_packs w' page.after h)
  Pages-run (next page c cursor e h pages) zero le = absurd (omega arith)
  Pages-run (next page c cursor e h pages) (suc fuel) le =
      rw (e, h, Pages-run pages fuel (omega arith)) refl

  abbrev pub IsPaged : ℕ → Option Str → World → List StickerPackFromList → World → Type 0
  IsPaged fuel after w packs w' = (n : ℕ) × (n ≤ fuel) × Pages after w n packs w'

  abbrev IsRun : ℕ → Option Str → World → List StickerPackFromList → World → Type 0
  IsRun fuel after w packs w' =
      packs_after validate bot_id user_huid fuel after w ≡ (done (some packs), w')

  -- The last page of a run
  one_page :
      (fuel : ℕ) (after : Option Str) (w v w' : World) (page : StickerPackPage)
      (packs : List StickerPackFromList)
      → get_page validate bot_id user_huid after w ≡ (done page, v)
      → IsEnd page.after
      → page.sticker_packs ≡ packs
      → v ≡ w'
      → IsPaged (suc fuel) after w packs w'
  one_page fuel after w v w' page packs e h p q = rw (← p, ← q) (1, omega arith, last page e h)

  more_pages :
      (fuel : ℕ) (after : Option Str) (w v w' : World) (page : StickerPackPage) (c : ℕ)
      (cursor : Str) (rest packs : List StickerPackFromList)
      → get_page validate bot_id user_huid after w ≡ (done page, v)
      → page.after ≡ some (c ∷ cursor)
      → IsPaged fuel (some (c ∷ cursor)) v rest w'
      → page.sticker_packs ++ rest ≡ packs
      → IsPaged (suc fuel) after w packs w'
  more_pages fuel after w v w' page c cursor rest packs e h (n, le, pages) p =
      rw (← p) (suc n, omega arith, next page c cursor e h pages)

  -- What follows a page in a run
  turn_pages :
      (fuel : ℕ) (after : Option Str) (w v w' : World) (page : StickerPackPage)
      (packs : List StickerPackFromList)
      → ((a : Option Str) (u u' : World) (rest : List StickerPackFromList)
          → IsRun fuel a u rest u'
          → IsPaged fuel a u rest u')
      → get_page validate bot_id user_huid after w ≡ (done page, v)
      → (a : Option Str) → page.after ≡ a
      → then_after (packs_after validate bot_id user_huid fuel) page.sticker_packs a v
        ≡ (done (some packs), w')
      → IsPaged (suc fuel) after w packs w'
  turn_pages fuel after w v w' page packs rec e none h run =
      one_page fuel after w v w' page packs e (rw h tt) (cc run) (cc run)
  turn_pages fuel after w v w' page packs rec e (some []) h run =
      one_page fuel after w v w' page packs e (rw h tt) (cc run) (cc run)
  turn_pages fuel after w v w' page packs rec e (some (c ∷ cursor)) h run =
      chain_done (packs_after validate bot_id user_huid fuel (some (c ∷ cursor))) _ run
        (λ more u first then. joined more u first then)
    where
      joined :
          (more : Option (List StickerPackFromList)) (u : World)
          → packs_after validate bot_id user_huid fuel (some (c ∷ cursor)) v ≡ (done more, u)
          → pure (appended page.sticker_packs more) u ≡ (done (some packs), w')
          → IsPaged (suc fuel) after w packs w'
      joined none u first then = absurd (cc then)
      joined (some rest) u first then =
          more_pages fuel after w v w' page c cursor rest packs e h
            (rec (some (c ∷ cursor)) v w' rest (first ∙ ap (λ z. (done (some rest), z)) (cc then)))
            (cc then)

  run_pages :
      (fuel : ℕ) (after : Option Str) (w w' : World) (packs : List StickerPackFromList)
      → IsRun fuel after w packs w'
      → IsPaged fuel after w packs w'
  unfolding packs_after
  run_pages zero after w w' packs run = absurd (cc run)
  run_pages (suc fuel) after w w' packs run =
      chain_done (get_page validate bot_id user_huid after) _ run (λ page v first then.
        turn_pages fuel after w v w' page packs (run_pages fuel) first page.after refl then)

  -- The iteration over the sticker packs of a user refines the server's pages: it gives these packs, within this fuel,
  -- exactly when a first request without a cursor and then one for the cursor of each page, at most so many in all,
  -- reach a page without a cursor and their packs, page after page, are these. So it ends whenever the pages do.
  pub iterate_by_sticker_packs_lem :
      (fuel : ℕ) (w w' : World) (packs : List StickerPackFromList)
      → (iterate_by_sticker_packs validate bot_id user_huid fuel w ≡ (done (some packs), w'))
        ↔ (n : ℕ) × (n ≤ fuel) × Pages none w n packs w'
  unfolding iterate_by_sticker_packs
  iterate_by_sticker_packs_lem fuel w w' packs =
      (run_pages fuel none w w' packs, λ paged. Pages-run paged.2 fuel paged.1)
