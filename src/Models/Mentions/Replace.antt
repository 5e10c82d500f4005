-- ===== src/Models/Mentions/Replace.antt =====
-- `find_and_replace_embed_mentions`. `uuid4` is a parameter: `fresh n` is its n-th result.
use pybotx.Common.{ℕ, suc, List, [], ◌∷◌, Result, ok, ◌>>=◌}
use pybotx.Common.Text.{Str, replace_first}
use pybotx.Common.Uuid.{Uuid}
use pybotx.Models.Mentions.Defs.{
  MentionDict, BotXApiMention, build_botx_api_embed_mention, to_botx_embed_mention_format,
}
use pybotx.Models.Mentions.Regex.{matched, find_mentions}

-- The loop over the matches, which were found in the text as it was at first.
unfoldable pub replace_matches :
    (ℕ → Uuid) → ℕ → List MentionDict → Str → Result (Str × List BotXApiMention)
replace_matches fresh n [] body = ok (body, [])
replace_matches fresh n (d ∷ ds) body = build_botx_api_embed_mention (fresh n) d >>= λ mention.
    replace_matches fresh (suc n) ds
      (replace_first (matched d) (to_botx_embed_mention_format mention) body)
    >>= λ rest. ok (rest.0, mention ∷ rest.1)

unfoldable pub find_and_replace_embed_mentions :
    (ℕ → Uuid) → Str → Result (Str × List BotXApiMention)
find_and_replace_embed_mentions fresh body = replace_matches fresh 0 (find_mentions body) body
