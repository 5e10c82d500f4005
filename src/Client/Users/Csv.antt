-- ===== src/Client/Users/Csv.antt =====
-- The list of the users of a server, which comes as a CSV file. `csv.DictReader` is a parameter.
use pybotx.Common.{Bool, Option, some, none, List, [], ◌∷◌, Result, ok, map_result, ◌>>=◌}
use pybotx.Common.Text.{Str, codes}
use pybotx.Common.Uuid.{Uuid}
use pybotx.Common.Base64.{Bytes}
use pybotx.Models.Enums.{
  UserKinds, SyncSourceTypes, ApiUserKinds, ApiSyncSourceTypes, Incoming, OrText,
  convert_user_kind_to_domain, convert_sync_source_type_to_domain,
}
use pybotx.Models.ApiBase.{Entries, entry, bool_value, jsonable_dict}
use pybotx.Client.Action.{no_user_kind_selected_error, Action, pure, lift, ◌⟫◌}
use pybotx.Client.Http.{Environment, response_exception_thrower, update_handlers, with_params}
use pybotx.Client.Auth.{status_handlers, Endpoint, authorized_call}
use pybotx.Client.Files.{Buffer, seek_start, write_chunks, file_chunk_size}

-- `replace_empty_string_with_none`, of a cell
unfoldable pub replace_empty_string_with_none : Str → Option Str
replace_empty_string_with_none [] = none
replace_empty_string_with_none (c ∷ field_value) = some (c ∷ field_value)

-- `BotXAPIUserFromCSVResult`
pub record ApiUserFromCsv : Type 0 where
  pub huid : Uuid
  pub ad_login : Str
  pub ad_domain : Str
  pub email : Option Str
  pub name : Str
  pub sync_source : OrText ApiSyncSourceTypes
  pub active : Bool
  pub user_kind : ApiUserKinds
  pub company : Option Str
  pub department : Option Str
  pub position : Option Str
  pub avatar : Option Str
  pub avatar_preview : Option Str
  pub office : Option Str
  pub manager : Option Str
  pub manager_huid : Option Uuid
  pub description : Option Str
  pub phone : Option Str
  pub other_phone : Option Str
  pub ip_phone : Option Str
  pub other_ip_phone : Option Str
  pub personnel_number : Option Str

pub record UserFromCsv : Type 0 where
  pub huid : Uuid
  pub ad_login : Str
  pub ad_domain : Str
  pub username : Str
  pub sync_source : Incoming SyncSourceTypes
  pub active : Bool
  pub user_kind : UserKinds
  pub email : Option Str
  pub company : Option Str
  pub department : Option Str
  pub position : Option Str
  pub avatar : Option Str
  pub avatar_preview : Option Str
  pub office : Option Str
  pub manager : Option Str
  pub manager_huid : Option Uuid
  pub description : Option Str
  pub phone : Option Str
  pub other_phone : Option Str
  pub ip_phone : Option Str
  pub other_ip_phone : Option Str
  pub personnel_number : Option Str

-- `BotXAPIUserFromCSVResult.to_domain`
unfoldable pub csv_user_to_domain : ApiUserFromCsv → Result UserFromCsv
csv_user_to_domain user = convert_sync_source_type_to_domain user.sync_source >>= λ sync_source.
    convert_user_kind_to_domain user.user_kind >>= λ user_kind. ok (record {
      username = user.name;
      sync_source = sync_source;
      user_kind = user_kind;
      huid = user.huid;
      ad_login = user.ad_login;
      ad_domain = user.ad_domain;
      active = user.active;
      email = user.email;
      company = user.company;
      department = user.department;
      position = user.position;
      avatar = user.avatar;
      avatar_preview = user.avatar_preview;
      office = user.office;
      manager = user.manager;
      manager_huid = user.manager_huid;
      description = user.description;
      phone = user.phone;
      other_phone = user.other_phone;
      ip_phone = user.ip_phone;
      other_ip_phone = user.other_ip_phone;
      personnel_number = user.personnel_number;
    })

unfoldable pub users_as_csv_payload : (cts_user unregistered botx : Bool) → Entries
users_as_csv_payload cts_user unregistered botx = entry (codes "cts_user") (bool_value cts_user) (
    entry (codes "unregistered") (bool_value unregistered)
      (entry (codes "botx") (bool_value botx) Entries.end))

unfoldable pub users_as_csv_method : Endpoint
unfolding update_handlers
users_as_csv_method = record {
  method = codes "GET";
  path = codes "/api/v3/botx/users/users_as_csv";
  handlers =
      update_handlers status_handlers
        ((400, response_exception_thrower no_user_kind_selected_error) ∷ []);
}

-- A row: its cells by the names of the columns
abbrev pub Row : Type 0
Row = List (Str × Str)

module _ ⦃env : Environment⦄ where
  -- `UsersAsCSVMethod.execute`: the buffer after it
  unfoldable pub users_as_csv_execute :
      (bot_id : Uuid) (cts_user unregistered botx : Bool) → Buffer → Action Buffer
  unfolding authorized_call users_as_csv_method users_as_csv_payload jsonable_dict write_chunks
  users_as_csv_execute bot_id cts_user unregistered botx buffer =
      let endpoint = users_as_csv_method in
      authorized_call endpoint.handlers bot_id endpoint.method endpoint.path
        (with_params (jsonable_dict (users_as_csv_payload cts_user unregistered botx)))
      ⟫ λ response.
          pure (seek_start (write_chunks (env.stream file_chunk_size response.content) buffer))

  -- `users_as_csv`, for a caller that takes all its users; the temporary file is empty at first.
  unfoldable pub users_as_csv :
      (dict_reader : Bytes → Result (List Row)) (validate : Row → Result ApiUserFromCsv)
      (bot_id : Uuid) (cts_user unregistered botx : Bool)
      → Action (List UserFromCsv)
  unfolding users_as_csv_execute csv_user_to_domain
  users_as_csv dict_reader validate bot_id cts_user unregistered botx =
      users_as_csv_execute bot_id cts_user unregistered botx (record { passed = []; rest = [] })
      ⟫ λ buffer.
          lift (dict_reader buffer.rest >>= map_result (λ row. validate row >>= csv_user_to_domain))
