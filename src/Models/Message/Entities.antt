-- ===== src/Models/Message/Entities.antt =====
-- What the loop over the entities collects, against the lists of what each entity is.
use pybotx.Common.{
  ◌≡◌, ◌≢◌, ◌⊎◌, refl, sym, ap, ◌∙◌, Option, none, some, List, [], ◌∷◌, ◌++◌, append_assoc,
  append-nil, All, Result, ok, err, ◌>>=◌, map_result, get_last?, arith,
}
use pybotx.Common.Text.{Str}
use pybotx.Common.Uuid.{Uuid}
use pybotx.Models.Enums.{BotApiMentionTypes, member, chat_type_total}
use pybotx.Models.Mentions.{Mention}
use pybotx.Models.Message.Types.{
  BotApiMentionData, BotApiEntity, api_mention, api_forward, api_reply, Entity, mention, forwarded,
  replied, Item, known, unknown, Collected, Forward, Reply,
}
use pybotx.Models.Message.Convert.{
  convert_bot_api_mention_to_domain, convert_bot_api_entity_to_domain, collect, collect_entities,
  nothing_collected, mention_of_type,
}

-- The entities that are known.
abbrev pub known_items : {A : Type 0} → List (Item A) → List A
known_items [] = []
known_items (known a ∷ items) = a ∷ known_items items
known_items (unknown d ∷ items) = known_items items

abbrev pub mentions_in : List Entity → List Mention
mentions_in [] = []
mentions_in (mention m ∷ entities) = m ∷ mentions_in entities
mentions_in (forwarded f ∷ entities) = mentions_in entities
mentions_in (replied r ∷ entities) = mentions_in entities

abbrev pub forwards_in : List Entity → List Forward
forwards_in [] = []
forwards_in (mention m ∷ entities) = forwards_in entities
forwards_in (forwarded f ∷ entities) = f ∷ forwards_in entities
forwards_in (replied r ∷ entities) = forwards_in entities

abbrev pub replies_in : List Entity → List Reply
replies_in [] = []
replies_in (mention m ∷ entities) = replies_in entities
replies_in (forwarded f ∷ entities) = replies_in entities
replies_in (replied r ∷ entities) = r ∷ replies_in entities

-- The last item, or what there was before.
abbrev last_or : {A : Type 0} → Option A → List A → Option A
last_or before [] = before
last_or before (x ∷ xs) = last_or (some x) xs

last_or-get_last? : {A : Type 0} (xs : List A) → last_or none xs ≡ get_last? xs
last_or-get_last? [] = refl
last_or-get_last? (x ∷ []) = refl
last_or-get_last? (x ∷ y ∷ xs) = last_or-get_last? (y ∷ xs)

abbrev after : Collected → List Entity → Collected
after c entities = record {
  mentions = c.mentions ++ mentions_in entities;
  forward = last_or c.forward (forwards_in entities);
  reply = last_or c.reply (replies_in entities);
}

collect-after :
    (c : Collected) (e : Entity) (entities : List Entity)
    → after (collect c e) entities ≡ after c (e ∷ entities)
unfolding collect
collect-after c (mention m) entities =
    ap (λ ms. record (after c (mention m ∷ entities)) { mentions = ms })
      (append_assoc c.mentions (m ∷ []) (mentions_in entities))
collect-after c (forwarded f) entities = refl
collect-after c (replied r) entities = refl

after_first :
    (c : Collected) (e : Entity) (r : Result (List Entity))
    → (r >>= λ es. ok (after (collect c e) es))
      ≡ ((r >>= λ es. ok (e ∷ es)) >>= λ es. ok (after c es))
after_first c e (ok es) = ap ok (collect-after c e es)
after_first c e (err x) = refl

collect_entities_all :
    (c : Collected) (entities : List (Item BotApiEntity))
    → collect_entities c entities ≡ (
        map_result convert_bot_api_entity_to_domain (known_items entities) >>= λ es.
        ok (after c es))
unfolding collect_entities
collect_entities_all c [] = ap (λ ms. ok (record c { mentions = ms })) (sym (append-nil c.mentions))
collect_entities_all c (unknown f ∷ entities) = collect_entities_all c entities
collect_entities_all c (known e ∷ entities) =
    elim (convert_bot_api_entity_to_domain e)
      as (λ r. (r >>= λ entity. collect_entities (collect c entity) entities) ≡ (
        (r >>= λ y.
        map_result convert_bot_api_entity_to_domain (known_items entities) >>= λ ys. ok (y ∷ ys))
        >>= λ es. ok (after c es))) [
          | ok entity ↦ collect_entities_all (collect c entity) entities ∙ after_first c entity _
          | err x ↦ refl
        ]

-- What a message holds of its entities: every mention, in order, and the last forward and reply.
abbrev pub collected_of : List Entity → Collected
collected_of es = record {
  mentions = mentions_in es;
  forward = get_last? (forwards_in es);
  reply = get_last? (replies_in es);
}

-- The loop over the entities raises as the first entity that cannot be converted does; otherwise it
-- collects every mention in order, and the last forward and the last reply. Unknown entities have no effect.
pub collect_entities_lem :
    (entities : List (Item BotApiEntity))
    → collect_entities nothing_collected entities ≡ (
        map_result convert_bot_api_entity_to_domain (known_items entities) >>= λ es.
        ok (collected_of es))
collect_entities_lem entities =
    collect_entities_all nothing_collected entities
    ∙ same (map_result convert_bot_api_entity_to_domain (known_items entities))
  where
    same :
        (r : Result (List Entity))
        → (r >>= λ es. ok (after nothing_collected es)) ≡ (r >>= λ es. ok (collected_of es))
    same (ok es) = rw (last_or-get_last? (forwards_in es), last_or-get_last? (replies_in es)) refl
    same (err x) = refl

-- A mention says whom it mentions, unless it is of all.
abbrev pub IsComplete : BotApiMentionData → Type 0
IsComplete m = (m.mention_type ≡ BotApiMentionTypes.all) ⊎ (m.mention_data ≢ none)

abbrev pub IsCompleteEntity : BotApiEntity → Type 0
IsCompleteEntity (api_mention m) = IsComplete m
IsCompleteEntity (api_forward f) = Unit
IsCompleteEntity (api_reply r) = All IsComplete r.mentions

convert_mention :
    (t : BotApiMentionTypes) (d : Option (Uuid × Str))
    → ((t ≡ BotApiMentionTypes.all) ⊎ (d ≢ none))
    → (m : Mention) × (mention_of_type t d ≡ ok m)
unfolding mention_of_type
convert_mention BotApiMentionTypes.user (some d) h = (Mention.user d.0 (some d.1), refl)
convert_mention BotApiMentionTypes.chat (some d) h = (Mention.chat d.0 (some d.1), refl)
convert_mention BotApiMentionTypes.contact (some d) h = (Mention.contact d.0 (some d.1), refl)
convert_mention BotApiMentionTypes.channel (some d) h = (Mention.channel d.0 (some d.1), refl)
convert_mention BotApiMentionTypes.all d h = (Mention.all, refl)
convert_mention BotApiMentionTypes.user none h = absurd (ground arith)
convert_mention BotApiMentionTypes.chat none h = absurd (ground arith)
convert_mention BotApiMentionTypes.contact none h = absurd (ground arith)
convert_mention BotApiMentionTypes.channel none h = absurd (ground arith)

module _ {A B : Type 0} (f : A → Result B) (P : A → Type 0)
    (total : (a : A) → P a → (b : B) × (f a ≡ ok b)) where
  pub map_result_total : (xs : List A) → All P xs → (ys : List B) × (map_result f xs ≡ ok ys)
  map_result_total [] h = ([], refl)
  map_result_total (x ∷ xs) (p, h) =
      let (y, e) = total x p in let (ys, es) = map_result_total xs h in (y ∷ ys, rw (e, es) refl)

convert_entity :
    (e : BotApiEntity)
    → IsCompleteEntity e
    → (entity : Entity) × (convert_bot_api_entity_to_domain e ≡ ok entity)
unfolding convert_bot_api_entity_to_domain convert_bot_api_mention_to_domain
convert_entity (api_mention d) h =
    let (m, e) = convert_mention d.mention_type d.mention_data h in (mention m, rw e refl)
convert_entity (api_forward d) h =
    let (t, e) = chat_type_total (member d.forward_type) in
    (
      forwarded (record {
        chat_id = d.group_chat_id;
        author_id = d.sender_huid;
        sync_id = d.source_sync_id;
        chat_name = d.source_chat_name;
        forward_type = t;
        inserted_at = d.source_inserted_at;
      }),
      rw e refl,
    )
convert_entity (api_reply d) h =
    let (ms, e) =
      map_result_total convert_bot_api_mention_to_domain IsComplete
        (λ m. convert_mention m.mention_type m.mention_data) d.mentions h in
    (
      replied (record {
        author_id = d.sender;
        sync_id = d.source_sync_id;
        body = d.body;
        mentions = ms;
      }),
      rw e refl,
    )

-- Entities whose mentions all say whom they mention are collected without an exception.
pub collect_entities_total :
    (entities : List (Item BotApiEntity))
    → All IsCompleteEntity (known_items entities)
    → (c : Collected) × (collect_entities nothing_collected entities ≡ ok c)
collect_entities_total entities h =
    let (es, e) =
      map_result_total convert_bot_api_entity_to_domain IsCompleteEntity convert_entity
        (known_items entities) h in
    (collected_of es, collect_entities_lem entities ∙ rw e refl)
