-- ===== src/Models/Mentions/Pieces.antt =====
-- Outgoing texts as plain pieces and mentions, and what is to be sent for them.
use pybotx.Common.{ℕ, suc, ◌<◌, Option, none, some, List, [], ◌∷◌, ◌++◌}
use pybotx.Common.Text.{Str}
use pybotx.Common.Uuid.{Uuid, uuid_bound}
use pybotx.Missing.{Missing, undefined}
use pybotx.Models.Enums.{BotApiMentionTypes}
use pybotx.Models.Mentions.Defs.{
  Mention, user, contact, chat, channel, all, BotXApiMention, user_mention, contact_mention,
  chat_mention, channel_mention, all_mention, mention_str, mention_mark, name_or_undefined,
}
use pybotx.Models.Mentions.Matching.{NoTag, IsName}

-- A piece of an outgoing text: plain text, or a mention put in by `str(mention)`.
pub data Piece : Type 0 where
  plain : Str → Piece
  embed : Mention → Piece

-- The text that the bot's author writes.
abbrev pub written : List Piece → Str
written [] = []
written (plain t ∷ ps) = t ++ written ps
written (embed m ∷ ps) = mention_str m ++ written ps

-- What the API is to get for a mention, whose id is `id`; an empty name counts as no name.
abbrev pub sent_name : Option Str → Missing Str
sent_name none = undefined
sent_name (some name) = name_or_undefined name

abbrev pub sent_mention : Uuid → Mention → BotXApiMention
sent_mention id (user huid name) =
    user_mention BotApiMentionTypes.user id (record { user_huid = huid; name = sent_name name })
sent_mention id (contact huid name) =
    contact_mention BotApiMentionTypes.contact id
      (record { user_huid = huid; name = sent_name name })
sent_mention id (chat chat_id name) =
    chat_mention BotApiMentionTypes.chat id
      (record { group_chat_id = chat_id; name = sent_name name })
sent_mention id (channel chat_id name) =
    channel_mention BotApiMentionTypes.channel id
      (record { group_chat_id = chat_id; name = sent_name name })
sent_mention id all = all_mention BotApiMentionTypes.all id

-- The marks of the API: `@` for users and for all, `@@` for contacts, `##` for chats and channels.
abbrev pub mark : Uuid → Mention → Str
mark id (user _ _) = mention_mark "@" id
mark id (contact _ _) = mention_mark "@@" id
mark id (chat _ _) = mention_mark "##" id
mark id (channel _ _) = mention_mark "##" id
mark id all = mention_mark "@" id

module _ (fresh : ℕ → Uuid) where
  -- The text and the mentions that are sent; the n-th mention takes the n-th id.
  abbrev pub sent_body : ℕ → List Piece → Str
  sent_body n [] = []
  sent_body n (plain t ∷ ps) = t ++ sent_body n ps
  sent_body n (embed m ∷ ps) = mark (fresh n) m ++ sent_body (suc n) ps

  abbrev pub sent_mentions : ℕ → List Piece → List BotXApiMention
  sent_mentions n [] = []
  sent_mentions n (plain t ∷ ps) = sent_mentions n ps
  sent_mentions n (embed m ∷ ps) = sent_mention (fresh n) m ∷ sent_mentions (suc n) ps

abbrev pub IsWellNamed : Option Str → Type 0
IsWellNamed none = Unit
IsWellNamed (some name) = IsName name

abbrev pub IsMention : Mention → Type 0
IsMention (user id name) = (id < uuid_bound) × IsWellNamed name
IsMention (contact id name) = (id < uuid_bound) × IsWellNamed name
IsMention (chat id name) = (id < uuid_bound) × IsWellNamed name
IsMention (channel id name) = (id < uuid_bound) × IsWellNamed name
IsMention all = Unit

-- Plain text without `<`; mentions of UUIDs with names without `<` and newline.
abbrev pub IsPiece : Piece → Type 0
IsPiece (plain t) = NoTag t
IsPiece (embed m) = IsMention m
