-- ===== src/Models/Mentions/Roundtrip.antt =====
-- Each mention of a text is found, in order, and replaced by its mark.
use pybotx.Common.{
  ℕ, suc, ◌≡◌, ◌≢◌, refl, sym, ◌∙◌, ap, false, Option, none, some, List, [], ◌∷◌, ◌++◌,
  append_assoc, arith, All, All-append, drop, ok,
}
use pybotx.Common.Text.{Str, codes, is_empty, replace_first, replace_first-run}
use pybotx.Common.Uuid.{
  Uuid, print_uuid, IsUuidChar, print_uuid-IsUuidChar, parse_uuid-print_uuid, All-mono,
}
use pybotx.Models.Enums.{
  MentionTypes, mention_types_value, mention_types_member, convert_mention_type_from_domain,
}
use pybotx.Models.Mentions.Defs.{
  Mention, user, contact, chat, channel, all, MentionDict, mention_str, build_embed_mention,
  to_botx_embed_mention_format, build_of_type, build_botx_api_embed_mention, name_or_empty,
  name_or_undefined, entity_id_str,
}
use pybotx.Models.Mentions.Regex.{matched, find_from, find_mentions}
use pybotx.Models.Mentions.Replace.{replace_matches, find_and_replace_embed_mentions}
use pybotx.Models.Mentions.Matching.{
  NoTag, IsName, IsTypeText, IsEmbed, find_from-NoTag, find_from-matched,
}
use pybotx.Models.Mentions.Pieces.{
  Piece, plain, embed, written, sent_name, sent_mention, mark, sent_body, sent_mentions,
  IsWellNamed, IsMention, IsPiece,
}

abbrev groups_of : MentionTypes → Option Uuid → Option Str → MentionDict
groups_of t id name = record {
  mention_type = mention_types_value t;
  mentioned_entity_id = entity_id_str id;
  mention_name = name_or_empty name;
}

-- The groups that the expression finds in the text of a mention.
abbrev groups : Mention → MentionDict
groups (user id name) = groups_of MentionTypes.user (some id) name
groups (contact id name) = groups_of MentionTypes.contact (some id) name
groups (chat id name) = groups_of MentionTypes.chat (some id) name
groups (channel id name) = groups_of MentionTypes.channel (some id) name
groups all = groups_of MentionTypes.all none none

mention_str-groups : (m : Mention) → mention_str m ≡ matched (groups m)
unfolding mention_str build_embed_mention
mention_str-groups (user id name) = refl
mention_str-groups (contact id name) = refl
mention_str-groups (chat id name) = refl
mention_str-groups (channel id name) = refl
mention_str-groups all = refl

value-IsTypeText :
    (t : MentionTypes)
    → IsTypeText (mention_types_value t) × (is_empty (mention_types_value t) ≡ false)
unfolding mention_types_value
value-IsTypeText MentionTypes.contact = (omega arith, refl)
value-IsTypeText _ = (omega arith, refl)

name_or_empty-IsName : (name : Option Str) → IsWellNamed name → IsName (name_or_empty name)
name_or_empty-IsName none h = tt
name_or_empty-IsName (some name) h = h

groups_of-IsEmbed :
    (t : MentionTypes) (id : Option Uuid) (name : Option Str)
    → IsWellNamed name
    → IsEmbed (groups_of t id name)
groups_of-IsEmbed t none name h = record {
  type_text = (value-IsTypeText t).0;
  filled = (value-IsTypeText t).1;
  entity_id = tt;
  name = name_or_empty-IsName name h;
}
groups_of-IsEmbed t (some id) name h = record {
  type_text = (value-IsTypeText t).0;
  filled = (value-IsTypeText t).1;
  entity_id = print_uuid-IsUuidChar id;
  name = name_or_empty-IsName name h;
}

groups-IsEmbed : (m : Mention) → IsMention m → IsEmbed (groups m)
groups-IsEmbed (user id name) h = groups_of-IsEmbed MentionTypes.user (some id) name h.1
groups-IsEmbed (contact id name) h = groups_of-IsEmbed MentionTypes.contact (some id) name h.1
groups-IsEmbed (chat id name) h = groups_of-IsEmbed MentionTypes.chat (some id) name h.1
groups-IsEmbed (channel id name) h = groups_of-IsEmbed MentionTypes.channel (some id) name h.1
groups-IsEmbed all h = groups_of-IsEmbed MentionTypes.all none none tt

sent_name-eq : (name : Option Str) → name_or_undefined (name_or_empty name) ≡ sent_name name
sent_name-eq none = refl
sent_name-eq (some name) = refl

build-groups :
    (id : Uuid) (m : Mention)
    → IsMention m
    → build_botx_api_embed_mention id (groups m) ≡ ok (sent_mention id m)
unfolding build_botx_api_embed_mention build_of_type convert_mention_type_from_domain
build-groups id (user e name) h =
    simp (mention_types_member, parse_uuid-print_uuid e h.0, sent_name-eq)
build-groups id (contact e name) h =
    simp (mention_types_member, parse_uuid-print_uuid e h.0, sent_name-eq)
build-groups id (chat e name) h =
    simp (mention_types_member, parse_uuid-print_uuid e h.0, sent_name-eq)
build-groups id (channel e name) h =
    simp (mention_types_member, parse_uuid-print_uuid e h.0, sent_name-eq)
build-groups id all h = simp mention_types_member

format-sent :
    (id : Uuid) (m : Mention) → to_botx_embed_mention_format (sent_mention id m) ≡ mark id m
unfolding to_botx_embed_mention_format
format-sent id (user e name) = refl
format-sent id (contact e name) = refl
format-sent id (chat e name) = refl
format-sent id (channel e name) = refl
format-sent id all = refl

NoTag-id : (id : Uuid) → NoTag (print_uuid id ++ b'}' ∷ [])
NoTag-id id =
    All-append _ (print_uuid id) _
      (All-mono (λ c p. IsUuidChar-ne c p) _ (print_uuid-IsUuidChar id)) (omega arith)
  where
    IsUuidChar-ne : (c : ℕ) → IsUuidChar c → c ≢ b'<'
    IsUuidChar-ne c p = ground arith

NoTag-mark : (id : Uuid) (m : Mention) → NoTag (mark id m)
NoTag-mark id (user e name) = All-append _ (codes "@{mention:") _ (omega arith) (NoTag-id id)
NoTag-mark id (contact e name) = All-append _ (codes "@@{mention:") _ (omega arith) (NoTag-id id)
NoTag-mark id (chat e name) = All-append _ (codes "##{mention:") _ (omega arith) (NoTag-id id)
NoTag-mark id (channel e name) = All-append _ (codes "##{mention:") _ (omega arith) (NoTag-id id)
NoTag-mark id all = All-append _ (codes "@{mention:") _ (omega arith) (NoTag-id id)

all_groups : List Piece → List MentionDict
all_groups [] = []
all_groups (plain t ∷ ps) = all_groups ps
all_groups (embed m ∷ ps) = groups m ∷ all_groups ps

find_from-written : (ps : List Piece) → All IsPiece ps → find_from 0 (written ps) ≡ all_groups ps
unfolding all_groups find_from
find_from-written [] h = refl
find_from-written (plain t ∷ ps) (p, h) = find_from-NoTag t (written ps) p ∙ find_from-written ps h
find_from-written (embed m ∷ ps) (p, h) =
    ap (λ t. find_from 0 (t ++ written ps)) (mention_str-groups m)
    ∙ find_from-matched (groups m) (written ps) (groups-IsEmbed m p)
    ∙ ap (λ r. groups m ∷ r) (find_from-written ps h)

-- One round of the loop: the text of the mention is replaced where it stands.
replace-embed :
    (pre new rest : Str) (m : Mention)
    → NoTag pre
    → replace_first (matched (groups m)) new (pre ++ (mention_str m ++ rest)) ≡ (pre ++ new) ++ rest
replace-embed pre new rest m h =
    ap (λ t. replace_first (matched (groups m)) new (pre ++ (t ++ rest))) (mention_str-groups m)
    ∙ replace_first-run b'<' (drop 1 (matched (groups m))) new pre rest h
    ∙ sym (append_assoc pre new rest)

module _ (fresh : ℕ → Uuid) where
  replace_matches-written :
      (n : ℕ) (pre : Str) (ps : List Piece)
      → NoTag pre
      → All IsPiece ps
      → replace_matches fresh n (all_groups ps) (pre ++ written ps)
        ≡ ok (pre ++ sent_body fresh n ps, sent_mentions fresh n ps)
  unfolding all_groups replace_matches
  replace_matches-written n pre [] t h = refl
  replace_matches-written n pre (plain s ∷ ps) t (p, h) =
      ap (replace_matches fresh n (all_groups ps)) (sym (append_assoc pre s (written ps)))
      ∙ replace_matches-written n (pre ++ s) ps (All-append _ pre s t p) h
      ∙ ap (λ b. ok (b, sent_mentions fresh n ps)) (append_assoc pre s (sent_body fresh n ps))
  replace_matches-written n pre (embed m ∷ ps) t (p, h) =
      rw
        (
          build-groups (fresh n) m p,
          format-sent (fresh n) m,
          replace-embed pre (mark (fresh n) m) (written ps) m t,
        )
        (rw
          (replace_matches-written (suc n) (pre ++ mark (fresh n) m) ps
            (All-append _ pre _ t (NoTag-mark (fresh n) m)) h)
          (rw append_assoc))

-- In a text of plain pieces without `<` and of mentions (of 128-bit ids, with names without `<` and
-- newline), `find_and_replace_embed_mentions` succeeds, replaces each mention by the mark of its kind
-- with the n-th fresh id, leaves the plain pieces as they are, and returns the mentions in order with
-- their types, entity ids and names.
pub find_and_replace-written :
    (fresh : ℕ → Uuid) (ps : List Piece)
    → All IsPiece ps
    → find_and_replace_embed_mentions fresh (written ps)
      ≡ ok (sent_body fresh 0 ps, sent_mentions fresh 0 ps)
unfolding find_and_replace_embed_mentions find_mentions
find_and_replace-written fresh ps h =
    ap (λ ds. replace_matches fresh 0 ds (written ps)) (find_from-written ps h)
    ∙ replace_matches-written fresh 0 [] ps tt h
