-- ===== src/Client/Users/Found.antt =====
-- The users that a search finds.
use pybotx.Common.{Bool, Option, List, Result, ok, map_result, ◌>>=◌}
use pybotx.Common.Text.{Str}
use pybotx.Common.Uuid.{Uuid}
use pybotx.Models.Enums.{UserKinds, ApiUserKinds, convert_user_kind_to_domain}
use pybotx.Client.Chats.{Datetime}

-- `BotXAPISearchUserResult`
pub record ApiUser : Type 0 where
  pub user_huid : Uuid
  pub ad_login : Option Str
  pub ad_domain : Option Str
  pub avatar : Option Str
  pub avatar_preview : Option Str
  pub name : Str
  pub company : Option Str
  pub company_position : Option Str
  pub department : Option Str
  pub emails : List Str
  pub other_id : Option Str
  pub user_kind : ApiUserKinds
  pub active : Option Bool
  pub description : Option Str
  pub ip_phone : Option Str
  pub manager : Option Str
  pub office : Option Str
  pub other_ip_phone : Option Str
  pub other_phone : Option Str
  pub public_name : Option Str
  pub cts_id : Option Uuid
  pub rts_id : Option Uuid
  pub created_at : Option Datetime
  pub updated_at : Option Datetime

pub record UserFromSearch : Type 0 where
  pub huid : Uuid
  pub ad_login : Option Str
  pub ad_domain : Option Str
  pub username : Str
  pub company : Option Str
  pub company_position : Option Str
  pub department : Option Str
  pub emails : List Str
  pub other_id : Option Str
  pub user_kind : UserKinds
  pub avatar : Option Str
  pub avatar_preview : Option Str
  pub active : Option Bool
  pub description : Option Str
  pub ip_phone : Option Str
  pub manager : Option Str
  pub office : Option Str
  pub other_ip_phone : Option Str
  pub other_phone : Option Str
  pub public_name : Option Str
  pub cts_id : Option Uuid
  pub rts_id : Option Uuid
  pub created_at : Option Datetime
  pub updated_at : Option Datetime

-- `BotXAPISearchUserResponsePayload.to_domain`, and that of an item of `BotXAPISearchUserByEmailsResponsePayload`
unfoldable pub user_to_domain : ApiUser → Result UserFromSearch
user_to_domain user = convert_user_kind_to_domain user.user_kind >>= λ user_kind. ok (record {
  huid = user.user_huid;
  ad_login = user.ad_login;
  ad_domain = user.ad_domain;
  username = user.name;
  company = user.company;
  company_position = user.company_position;
  department = user.department;
  emails = user.emails;
  other_id = user.other_id;
  user_kind = user_kind;
  avatar = user.avatar;
  avatar_preview = user.avatar_preview;
  active = user.active;
  description = user.description;
  ip_phone = user.ip_phone;
  manager = user.manager;
  office = user.office;
  other_ip_phone = user.other_ip_phone;
  other_phone = user.other_phone;
  public_name = user.public_name;
  cts_id = user.cts_id;
  rts_id = user.rts_id;
  created_at = user.created_at;
  updated_at = user.updated_at;
})

-- `BotXAPISearchUserByEmailsResponsePayload.to_domain`
unfoldable pub users_to_domain : List ApiUser → Result (List UserFromSearch)
unfolding user_to_domain
users_to_domain users = map_result user_to_domain users
