-- ===== src/Client/Users/Profile.antt =====
-- The update of a user's profile.
use pybotx.Common.{[], ◌∷◌, Result}
use pybotx.Common.Text.{Str, codes}
use pybotx.Common.Uuid.{Uuid}
use pybotx.Common.Json.{Json}
use pybotx.Missing.{Missing}
use pybotx.Models.Attachments.{OutgoingAttachment, from_file_attachment}
use pybotx.Models.ApiBase.{
  Value, Entries, entry, missing_value, text_value, uuid_value, jsonable_dict,
}
use pybotx.Client.Action.{
  invalid_profile_data_error, user_not_found_error, user_profile_update_unavailable_error, Action,
}
use pybotx.Client.Http.{Environment, response_exception_thrower, update_handlers, with_json}
use pybotx.Client.Auth.{status_handlers, Endpoint, execute}

-- The arguments of `update_user_profile`
pub record ProfileUpdate : Type 0 where
  pub user_huid : Uuid
  pub avatar : Missing OutgoingAttachment
  pub name : Missing Str
  pub public_name : Missing Str
  pub company : Missing Str
  pub company_position : Missing Str
  pub description : Missing Str
  pub department : Missing Str
  pub office : Missing Str
  pub manager : Missing Str

-- `getattr(api_avatar, "data", Undefined)`
abbrev avatar_value : OutgoingAttachment → Value
avatar_value avatar = let api_avatar = from_file_attachment avatar in text_value api_avatar.data_url

unfoldable pub update_user_profile_payload : ProfileUpdate → Entries
unfolding from_file_attachment
update_user_profile_payload p = entry (codes "user_huid") (uuid_value p.user_huid) (
    entry (codes "name") (missing_value text_value p.name) (
      entry (codes "public_name") (missing_value text_value p.public_name) (
        entry (codes "avatar") (missing_value avatar_value p.avatar) (
          entry (codes "company") (missing_value text_value p.company) (
            entry (codes "company_position") (missing_value text_value p.company_position) (
              entry (codes "description") (missing_value text_value p.description) (
                entry (codes "department") (missing_value text_value p.department) (
                  entry (codes "office") (missing_value text_value p.office) (
                    entry (codes "manager") (missing_value text_value p.manager)
                      Entries.end)))))))))

unfoldable pub update_users_profile_method : Endpoint
unfolding update_handlers
update_users_profile_method = record {
  method = codes "PUT";
  path = codes "/api/v3/botx/users/update_profile";
  handlers = update_handlers status_handlers (
      (400, response_exception_thrower invalid_profile_data_error)
      ∷ (404, response_exception_thrower user_not_found_error)
      ∷ (503, response_exception_thrower user_profile_update_unavailable_error)
      ∷ []);
}

module _ ⦃env : Environment⦄ where
  unfoldable pub update_user_profile :
      (validate : Json → Result (Unit {0})) → (bot_id : Uuid) → ProfileUpdate → Action (Unit {0})
  unfolding execute update_users_profile_method update_user_profile_payload jsonable_dict
  update_user_profile validate bot_id update =
      execute update_users_profile_method validate bot_id
        (with_json (jsonable_dict (update_user_profile_payload update)))
