-- ===== src/Client/Chats/Responses.antt =====
-- The payloads of the responses, as pydantic has validated them, and their `to_domain`. A date is carried along as it is.
use pybotx.Common.{ℕ, Bool, Option, List, [], ◌∷◌, Result, ok, err, map_result, ◌>>=◌}
use pybotx.Common.Text.{Str}
use pybotx.Common.Uuid.{Uuid}
use pybotx.Common.Json.{Fields}
use pybotx.Models.Enums.{
  UserKinds, ChatTypes, ApiChatTypes, ApiUserKinds, Incoming, member, convert_user_kind_to_domain,
  convert_chat_type_to_domain,
}
use pybotx.Client.Chats.Payloads.{ChatLinkTypes}

-- A `datetime`
abbrev pub Datetime : Type 0
Datetime = Str

-- `BotXAPIChatInfoMember`, and `BotXAPIPersonalChatMember`
pub record ApiChatMember : Type 0 where
  pub admin : Bool
  pub user_huid : Uuid
  pub user_kind : ApiUserKinds

-- An item of a list: an instance of the class, a dictionary that could not be validated, or a UUID.
pub data Item (A : Type 0) : Type 0 where
  parsed : A → Item A
  unparsed : Fields → Item A
  identifier : Uuid → Item A

-- `for … if isinstance(item, …)`
unfoldable pub parsed_items : {A : Type 0} → List (Item A) → List A
parsed_items [] = []
parsed_items (parsed a ∷ items) = a ∷ parsed_items items
parsed_items (unparsed fs ∷ items) = parsed_items items
parsed_items (identifier id ∷ items) = parsed_items items

-- `BotXAPIChatInfoResult`, and `BotXAPIPersonalChatResult`
pub record ApiChatInfo : Type 0 where
  pub chat_type : ApiChatTypes
  pub creator : Option Uuid
  pub description : Option Str
  pub group_chat_id : Uuid
  pub inserted_at : Datetime
  pub members : List (Item ApiChatMember)
  pub name : Str
  pub shared_history : Bool

pub record ChatInfoMember : Type 0 where
  pub is_admin : Bool
  pub huid : Uuid
  pub kind : UserKinds

pub record ChatInfo : Type 0 where
  pub chat_type : Incoming ChatTypes
  pub creator_id : Option Uuid
  pub description : Option Str
  pub chat_id : Uuid
  pub created_at : Datetime
  pub members : List ChatInfoMember
  pub name : Str
  pub shared_history : Bool

unfoldable pub member_to_domain : ApiChatMember → Result ChatInfoMember
member_to_domain m = convert_user_kind_to_domain m.user_kind >>= λ kind.
    ok (record { is_admin = m.admin; huid = m.user_huid; kind = kind })

abbrev chat_info_with : ApiChatInfo → List ChatInfoMember → Result ChatInfo
chat_info_with result members =
    convert_chat_type_to_domain (member result.chat_type) >>= λ chat_type. ok (record {
      chat_type = chat_type;
      creator_id = result.creator;
      description = result.description;
      chat_id = result.group_chat_id;
      created_at = result.inserted_at;
      members = members;
      name = result.name;
      shared_history = result.shared_history;
    })

-- `BotXAPIChatInfoResponsePayload.to_domain`
unfoldable pub chat_info_to_domain : ApiChatInfo → Result ChatInfo
unfolding parsed_items member_to_domain
chat_info_to_domain result =
    map_result member_to_domain (parsed_items result.members) >>= λ members.
    chat_info_with result members

-- The loop of `BotXAPIPersonalChatResponsePayload.to_domain`, which skips a member that cannot be converted
abbrev appended : Result ChatInfoMember → List ChatInfoMember → List ChatInfoMember
appended (ok m) members = m ∷ members
appended (err e) members = members

unfoldable pub converted_members : List (Item ApiChatMember) → List ChatInfoMember
unfolding member_to_domain
converted_members [] = []
converted_members (parsed m ∷ items) = appended (member_to_domain m) (converted_members items)
converted_members (unparsed fs ∷ items) = converted_members items
converted_members (identifier id ∷ items) = converted_members items

-- `BotXAPIPersonalChatResponsePayload.to_domain`
unfoldable pub personal_chat_to_domain : ApiChatInfo → Result ChatInfo
unfolding converted_members
personal_chat_to_domain result = chat_info_with result (converted_members result.members)

-- `BotXAPIListChatResult`
pub record ApiChatListItem : Type 0 where
  pub group_chat_id : Uuid
  pub chat_type : ApiChatTypes
  pub name : Str
  pub description : Option Str
  pub members : List Uuid
  pub inserted_at : Datetime
  pub updated_at : Datetime
  pub shared_history : Bool

pub record ChatListItem : Type 0 where
  pub chat_id : Uuid
  pub chat_type : Incoming ChatTypes
  pub name : Str
  pub description : Option Str
  pub members : List Uuid
  pub created_at : Datetime
  pub updated_at : Datetime
  pub shared_history : Bool

unfoldable pub list_item_to_domain : ApiChatListItem → Result ChatListItem
list_item_to_domain item = convert_chat_type_to_domain (member item.chat_type) >>= λ chat_type.
    ok (record {
      chat_id = item.group_chat_id;
      chat_type = chat_type;
      name = item.name;
      description = item.description;
      members = item.members;
      created_at = item.inserted_at;
      updated_at = item.updated_at;
      shared_history = item.shared_history;
    })

-- `BotXAPIListChatResponsePayload.to_domain`
unfoldable pub list_chats_to_domain : List (Item ApiChatListItem) → Result (List ChatListItem)
unfolding parsed_items list_item_to_domain
list_chats_to_domain result = map_result list_item_to_domain (parsed_items result)

-- `BotXAPIChatLinkResult`, whose `to_domain` copies the fields
pub record ChatLink : Type 0 where
  pub url : Str
  pub link_type : ChatLinkTypes
  pub access_code : Option Str
  pub link_ttl : Option ℕ
