-- ===== src/Models/Mentions/Newline.antt =====
-- A newline in a name: no group of the expression crosses it.
use pybotx.Common.{
  ℕ, ◌≡◌, ◌≢◌, refl, ◌∙◌, ap, none, some, [], ◌∷◌, ◌++◌, append_assoc, arith, All-append, ok, drop,
}
use pybotx.Common.Text.{Str, strip_prefix, strip_prefix-ne, strip_prefix-append}
use pybotx.Common.Uuid.{Uuid, print_uuid, print_uuid-IsUuidChar, All-mono, IsUuidChar}
use pybotx.Models.Enums.{mention_types_value, MentionTypes}
use pybotx.Models.Mentions.Defs.{user, mention_str, build_embed_mention, embed_open, embed_close}
use pybotx.Models.Mentions.Regex.{
  is_id_char, match_name, match_entity_id, match_type, match_at, find_from, find_mentions,
}
use pybotx.Models.Mentions.Replace.{find_and_replace_embed_mentions, replace_matches}
use pybotx.Models.Mentions.Matching.{NoTag, find_from-none, find_from-NoTag}

-- `u`, a newline, `v`
abbrev broken : Str → Str → Str
broken u v = u ++ 10 ∷ v

match_name-broken : (name u v : Str) → NoTag u → match_name name (broken u v) ≡ none
unfolding match_name
match_name-broken name [] v h =
    rw (strip_prefix-ne b'<' 10 (drop 1 embed_close) v (omega arith), match_name)
match_name-broken name (c ∷ u) v (n, h) = ground (
  arith,
  strip_prefix-ne b'<' c (drop 1 embed_close) (broken u v),
  match_name-broken (name ++ c ∷ []) u v h,
)

match_entity_id-broken : (id u v : Str) → NoTag u → match_entity_id id (broken u v) ≡ none
unfolding match_entity_id is_id_char
match_entity_id-broken id [] v h = refl
match_entity_id-broken id (c ∷ u) v (n, h) =
    ground (arith, match_name-broken [] u v h, match_entity_id-broken (id ++ c ∷ []) u v h)

match_type-broken : (t u v : Str) → NoTag u → match_type t (broken u v) ≡ none
unfolding match_type
match_type-broken t [] v h = refl
match_type-broken t (c ∷ u) v (n, h) =
    ground (arith, match_entity_id-broken [] u v h, match_type-broken (t ++ c ∷ []) u v h)

match_at-broken : (u v : Str) → NoTag u → match_at (embed_open ++ broken u v) ≡ none
unfolding match_at
match_at-broken u v h =
    rw (strip_prefix-append embed_open (broken u v), match_at) (match_type-broken [] u v h)

match_at-close : (s : Str) → match_at (embed_close ++ s) ≡ none
unfolding match_at strip_prefix
match_at-close s = refl

find_from-broken :
    (u v : Str) → NoTag u → NoTag v → find_from 0 (embed_open ++ broken u (v ++ embed_close)) ≡ []
unfolding find_from
find_from-broken u v h k =
    find_from-none b'<' (drop 1 embed_open ++ broken u (v ++ embed_close))
      (match_at-broken u (v ++ embed_close) h)
    ∙ find_from-NoTag (drop 1 embed_open) _ (omega arith)
    ∙ find_from-NoTag u _ h
    ∙ find_from-NoTag (10 ∷ v) embed_close (omega arith, k)
    ∙ find_from-none b'<' (drop 1 embed_close) (match_at-close [])
    ∙ find_from-NoTag (drop 1 embed_close) [] (omega arith)

user_head : Uuid → Str → Str
user_head id name = mention_types_value MentionTypes.user ++ b':' ∷ (print_uuid id ++ b':' ∷ name)

user_head-NoTag : (id : Uuid) (name : Str) → NoTag name → NoTag (user_head id name)
unfolding user_head mention_types_value
user_head-NoTag id name h =
    All-append (λ c. c ≢ b'<') (mention_types_value MentionTypes.user)
      (b':' ∷ (print_uuid id ++ b':' ∷ name)) (omega arith)
      (
        omega arith,
        All-append (λ c. c ≢ b'<') (print_uuid id) (b':' ∷ name)
            (All-mono ne _ (print_uuid-IsUuidChar id)) (omega arith, h),
      )
  where
    ne : (c : ℕ) → IsUuidChar c → c ≢ b'<'
    ne c p = ground arith

mention_str-broken :
    (id : Uuid) (a b : Str)
    → mention_str (user id (some (broken a b)))
      ≡ embed_open ++ broken (user_head id a) (b ++ embed_close)
unfolding mention_str build_embed_mention user_head
mention_str-broken id a b = simp append_assoc

-- A text that is one mention of a user, whose name is two parts without `<` and a newline between them: the mention is not
-- found, the text goes out with its tags, and no mention goes with it.
pub newline_name-not_replaced :
    (fresh : ℕ → Uuid) (id : Uuid) (a b : Str)
    → NoTag a
    → NoTag b
    → find_and_replace_embed_mentions fresh (mention_str (user id (some (a ++ 10 ∷ b))))
      ≡ ok (mention_str (user id (some (a ++ 10 ∷ b))), [])
unfolding find_and_replace_embed_mentions find_mentions replace_matches
newline_name-not_replaced fresh id a b h k =
    ap (λ ds. replace_matches fresh 0 ds (mention_str (user id (some (a ++ 10 ∷ b)))))
      (ap (find_from 0) (mention_str-broken id a b)
        ∙ find_from-broken (user_head id a) b (user_head-NoTag id a h) k)
