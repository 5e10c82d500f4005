-- ===== src/Models/Mentions/Regex.antt =====
-- EMBED_MENTION_RE and `finditer`. The expression is
-- `<embed_mention>(.+?):([0-9a-f\-]*?):(.*?)<\/embed_mention>`, with lazy groups: each group takes
-- as few characters as the rest of the expression allows, and `.` takes no newline.
use pybotx.Common.{
  ℕ, zero, suc, ◌-◌, Bool, not, ◌&&◌, ◌||◌, Option, none, some, List, [], ◌∷◌, ◌++◌, length, leb,
  ◌==◌, if◌then◌else◌,
}
use pybotx.Common.Text.{Str, strip_prefix, is_empty}
use pybotx.Models.Mentions.Defs.{MentionDict, embed_open, embed_close, embed_text}

-- `[0-9a-f\-]`
unfoldable pub is_id_char : ℕ → Bool
is_id_char c = (leb b'0' c && leb c b'9') || (leb b'a' c && leb c b'f') || c == b'-'

-- `(.*?)<\/embed_mention>`; the first argument is what the group has taken.
unfoldable pub match_name : Str → Str → Option Str
match_name name [] = none
match_name name (c ∷ s) =
    let later = match_name (name ++ c ∷ []) s in
    elim (strip_prefix embed_close (c ∷ s)) [
      | some _ ↦ some name
      | none ↦ if c == 10 then none else later
    ]

-- `([0-9a-f\-]*?):` and the rest
unfoldable pub match_entity_id : Str → Str → Option (Str × Str)
match_entity_id id [] = none
match_entity_id id (c ∷ s) =
    let later = match_entity_id (id ++ c ∷ []) s in
    let named = match_name [] s in
    elim (if c == b':' then named else none) [
      | some name ↦ some (id, name)
      | none ↦ if is_id_char c then later else none
    ]

-- `(.+?):` and the rest
unfoldable pub match_type : Str → Str → Option MentionDict
match_type t [] = none
match_type t (c ∷ s) =
    let later = match_type (t ++ c ∷ []) s in
    let found = match_entity_id [] s in
    elim (if c == b':' && not (is_empty t) then found else none) [
      | some (id, name) ↦
          some (record { mention_type = t; mentioned_entity_id = id; mention_name = name })
      | none ↦ if c == 10 then none else later
    ]

-- A match that begins at the head of the text.
unfoldable pub match_at : Str → Option MentionDict
match_at s = elim (strip_prefix embed_open s) [ none ↦ none | some rest ↦ match_type [] rest ]

-- `match.group(0)`
abbrev pub matched : MentionDict → Str
matched d = embed_text d.mention_type d.mentioned_entity_id d.mention_name

-- `finditer`: the matches from left to right; `skip` counts the characters of the last match that
-- are still to go.
unfoldable pub find_from : ℕ → Str → List MentionDict
find_from skip [] = []
find_from (suc skip) (c ∷ s) = find_from skip s
find_from zero (c ∷ s) =
    let missed = find_from zero s in
    elim (match_at (c ∷ s)) [ some d ↦ d ∷ find_from (length (matched d) - 1) s | none ↦ missed ]

unfoldable pub find_mentions : Str → List MentionDict
find_mentions body = find_from 0 body
