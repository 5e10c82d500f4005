-- ===== src/Models/Mentions/Defs.antt =====
-- The mentions of the domain and of the API, and their texts.
use Prim.Native.String.{String}
use pybotx.Common.{Option, none, some, [], ◌∷◌, ◌++◌, Result, ok, or_raise, value_error, ◌>>=◌}
use pybotx.Common.Text.{Str, codes}
use pybotx.Common.Uuid.{Uuid, parse_uuid, print_uuid}
use pybotx.Missing.{Missing, undefined, given}
use pybotx.Models.Enums.{
  MentionTypes, BotApiMentionTypes, member?, mention_types_value, mention_types_members,
  convert_mention_type_from_domain,
}

-- `Mention`: a constructor for each class, with `entity_id` and `name`
pub data Mention : Type 0 where
  user contact chat channel : Uuid → Option Str → Mention
  all : Mention

abbrev pub embed_open : Str
embed_open = codes "<embed_mention>"

abbrev pub embed_close : Str
embed_close = codes "</embed_mention>"

-- `name or ""`
abbrev pub name_or_empty : Option Str → Str
name_or_empty none = []
name_or_empty (some name) = name

abbrev pub entity_id_str : Option Uuid → Str
entity_id_str none = []
entity_id_str (some entity_id) = print_uuid entity_id

-- The text between the tags, with its parts written one after another.
abbrev pub embed_text : (mention_type entity_id name : Str) → Str
embed_text mention_type entity_id name =
    embed_open ++ (mention_type ++ b':' ∷ (entity_id ++ b':' ∷ (name ++ embed_close)))

unfoldable pub build_embed_mention : MentionTypes → Option Uuid → Option Str → Str
build_embed_mention mention_type entity_id name =
    embed_text (mention_types_value mention_type) (entity_id_str entity_id) (name_or_empty name)

-- `__str__` of the classes
unfoldable pub mention_str : Mention → Str
mention_str (user entity_id name) = build_embed_mention MentionTypes.user (some entity_id) name
mention_str (contact entity_id name) =
    build_embed_mention MentionTypes.contact (some entity_id) name
mention_str (chat entity_id name) = build_embed_mention MentionTypes.chat (some entity_id) name
mention_str (channel entity_id name) =
    build_embed_mention MentionTypes.channel (some entity_id) name
mention_str all = build_embed_mention MentionTypes.all none none

pub record PersonalMentionData : Type 0 where
  pub user_huid : Uuid
  pub name : Missing Str

pub record GroupMentionData : Type 0 where
  pub group_chat_id : Uuid
  pub name : Missing Str

-- `BotXAPIMention`: `mention_type`, `mention_id` and `mention_data` of each class
pub data BotXApiMention : Type 0 where
  user_mention contact_mention : BotApiMentionTypes → Uuid → PersonalMentionData → BotXApiMention
  chat_mention channel_mention : BotApiMentionTypes → Uuid → GroupMentionData → BotXApiMention
  all_mention : BotApiMentionTypes → Uuid → BotXApiMention

abbrev pub mention_mark : String → Uuid → Str
mention_mark sign mention_id =
    codes sign ++ (codes "{mention:" ++ (print_uuid mention_id ++ b'}' ∷ []))

unfoldable pub to_botx_embed_mention_format : BotXApiMention → Str
to_botx_embed_mention_format (user_mention _ mention_id _) = mention_mark "@" mention_id
to_botx_embed_mention_format (contact_mention _ mention_id _) = mention_mark "@@" mention_id
to_botx_embed_mention_format (chat_mention _ mention_id _) = mention_mark "##" mention_id
to_botx_embed_mention_format (channel_mention _ mention_id _) = mention_mark "##" mention_id
to_botx_embed_mention_format (all_mention _ mention_id) = mention_mark "@" mention_id

-- The groups of a match.
pub record MentionDict : Type 0 where
  pub mention_type : Str
  pub mentioned_entity_id : Str
  pub mention_name : Str

-- `mention_dict["mention_name"] or Undefined`
abbrev pub name_or_undefined : Str → Missing Str
name_or_undefined [] = undefined
name_or_undefined (c ∷ name) = given (c ∷ name)

-- The chain of `if mention_type == …`; `fresh` is what `uuid4` returns.
unfoldable pub build_of_type :
    Uuid → MentionTypes → BotApiMentionTypes → MentionDict → Result BotXApiMention
build_of_type fresh MentionTypes.user api d = parse_uuid d.mentioned_entity_id >>= λ huid.
    ok (
      user_mention api fresh (record { user_huid = huid; name = name_or_undefined d.mention_name }))
build_of_type fresh MentionTypes.contact api d = parse_uuid d.mentioned_entity_id >>= λ huid. ok (
    contact_mention api fresh
      (record { user_huid = huid; name = name_or_undefined d.mention_name }))
build_of_type fresh MentionTypes.chat api d = parse_uuid d.mentioned_entity_id >>= λ id. ok (
    chat_mention api fresh (record { group_chat_id = id; name = name_or_undefined d.mention_name }))
build_of_type fresh MentionTypes.channel api d = parse_uuid d.mentioned_entity_id >>= λ id. ok (
    channel_mention api fresh
      (record { group_chat_id = id; name = name_or_undefined d.mention_name }))
build_of_type fresh MentionTypes.all api d = ok (all_mention api fresh)

unfoldable pub build_botx_api_embed_mention : Uuid → MentionDict → Result BotXApiMention
build_botx_api_embed_mention fresh d =
    or_raise value_error (member? mention_types_value mention_types_members d.mention_type)
    >>= λ mention_type. convert_mention_type_from_domain mention_type >>= λ api.
        build_of_type fresh mention_type api d
