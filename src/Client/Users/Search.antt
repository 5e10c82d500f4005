-- ===== src/Client/Users/Search.antt =====
-- The search for users. The warning on a deprecated path is left out.
use pybotx.Common.{Bool, true, false, List, [], ◌∷◌, Result}
use pybotx.Common.Text.{Str, codes}
use pybotx.Common.Uuid.{Uuid}
use pybotx.Common.Json.{Json}
use pybotx.Missing.{Missing, given}
use pybotx.Models.ApiBase.{
  list, Entries, entry, values_of, missing_value, text_value, bool_value, uuid_value, jsonable_dict,
}
use pybotx.Client.Action.{user_not_found_error, without_response, Action, pure, raise, lift, ◌⟫◌}
use pybotx.Client.Http.{
  Environment, StatusHandlers, response_exception_thrower, update_handlers, with_json, with_params,
}
use pybotx.Client.Auth.{status_handlers, Endpoint, execute}
use pybotx.Client.Users.Found.{ApiUser, UserFromSearch, user_to_domain, users_to_domain}

-- `flag or Undefined`
abbrev true_or_undefined : Bool → Missing Bool
true_or_undefined true = given true
true_or_undefined false = Missing.undefined

abbrev search_flags : (trusts_search partial_response : Bool) → Entries
search_flags trusts_search partial_response =
    entry (codes "trusts_search") (missing_value bool_value (true_or_undefined trusts_search)) (
      entry (codes "partial_response")
        (missing_value bool_value (true_or_undefined partial_response)) Entries.end)

unfoldable pub search_by_email_payload :
    (email : Str) (trusts_search partial_response : Bool) → Entries
search_by_email_payload email trusts_search partial_response =
    entry (codes "email") (text_value email) (search_flags trusts_search partial_response)

unfoldable pub search_by_emails_payload :
    (emails : List Str) (trusts_search partial_response : Bool) → Entries
search_by_emails_payload emails trusts_search partial_response =
    entry (codes "emails") (list (values_of text_value emails))
      (search_flags trusts_search partial_response)

unfoldable pub search_by_huid_payload : (huid : Uuid) → Entries
search_by_huid_payload huid = entry (codes "user_huid") (uuid_value huid) Entries.end

unfoldable pub search_by_login_payload : (ad_login ad_domain : Str) → Entries
search_by_login_payload ad_login ad_domain =
    entry (codes "ad_login") (text_value ad_login)
      (entry (codes "ad_domain") (text_value ad_domain) Entries.end)

unfoldable pub search_by_other_id_payload : (other_id : Str) → Entries
search_by_other_id_payload other_id = entry (codes "other_id") (text_value other_id) Entries.end

abbrev not_found : StatusHandlers
not_found = (404, response_exception_thrower user_not_found_error) ∷ []

unfoldable pub search_user_by_emails_method : Endpoint
search_user_by_emails_method = record {
  method = codes "POST";
  path = codes "/api/v3/botx/users/by_email";
  handlers = status_handlers;
}

unfoldable pub search_user_by_email_post_method : Endpoint
unfolding update_handlers
search_user_by_email_post_method = record {
  method = codes "POST";
  path = codes "/api/v3/botx/users/by_email";
  handlers = update_handlers status_handlers not_found;
}

unfoldable pub search_user_by_email_method : Endpoint
unfolding update_handlers
search_user_by_email_method = record {
  method = codes "GET";
  path = codes "/api/v3/botx/users/by_email";
  handlers = update_handlers status_handlers not_found;
}

unfoldable pub search_user_by_huid_method : Endpoint
unfolding update_handlers
search_user_by_huid_method = record {
  method = codes "GET";
  path = codes "/api/v3/botx/users/by_huid";
  handlers = update_handlers status_handlers not_found;
}

unfoldable pub search_user_by_login_method : Endpoint
unfolding update_handlers
search_user_by_login_method = record {
  method = codes "GET";
  path = codes "/api/v3/botx/users/by_login";
  handlers = update_handlers status_handlers not_found;
}

unfoldable pub search_user_by_other_id_method : Endpoint
unfolding update_handlers
search_user_by_other_id_method = record {
  method = codes "GET";
  path = codes "/api/v3/botx/users/by_other_id";
  handlers = update_handlers status_handlers not_found;
}

module _ ⦃env : Environment⦄ where
  unfoldable pub search_user_by_emails :
      (validate : Json → Result (List ApiUser))
      → (bot_id : Uuid) (emails : List Str) (trusts_search partial_response : Bool)
      → Action (List UserFromSearch)
  unfolding execute search_user_by_emails_method search_by_emails_payload jsonable_dict
      users_to_domain
  search_user_by_emails validate bot_id emails trusts_search partial_response =
      execute search_user_by_emails_method validate bot_id
        (with_json (jsonable_dict (search_by_emails_payload emails trusts_search partial_response)))
      ⟫ λ users. lift (users_to_domain users)

  -- The end of `SearchUserByEmailPostMethod.execute`
  abbrev first_user : List ApiUser → Action ApiUser
  first_user [] = raise (without_response user_not_found_error)
  first_user (user ∷ users) = pure user

  -- `SearchUserByEmailPostMethod.execute`, which puts the address into a list
  unfoldable pub search_user_by_email_post :
      (validate : Json → Result (List ApiUser))
      → (bot_id : Uuid) (email : Str) (trusts_search partial_response : Bool)
      → Action UserFromSearch
  unfolding execute search_user_by_email_post_method search_by_emails_payload jsonable_dict
      user_to_domain
  search_user_by_email_post validate bot_id email trusts_search partial_response =
      execute search_user_by_email_post_method validate bot_id (
        with_json
          (jsonable_dict (search_by_emails_payload (email ∷ []) trusts_search partial_response)))
      ⟫ first_user
      ⟫ λ user. lift (user_to_domain user)

  unfoldable pub search_user_by_email :
      (validate : Json → Result ApiUser) → (bot_id : Uuid) (email : Str) → Action UserFromSearch
  unfolding execute search_user_by_email_method search_by_email_payload jsonable_dict user_to_domain
  search_user_by_email validate bot_id email =
      execute search_user_by_email_method validate bot_id
        (with_params (jsonable_dict (search_by_email_payload email false false)))
      ⟫ λ user. lift (user_to_domain user)

  unfoldable pub search_user_by_huid :
      (validate : Json → Result ApiUser) → (bot_id huid : Uuid) → Action UserFromSearch
  unfolding execute search_user_by_huid_method search_by_huid_payload jsonable_dict user_to_domain
  search_user_by_huid validate bot_id huid =
      execute search_user_by_huid_method validate bot_id
        (with_params (jsonable_dict (search_by_huid_payload huid)))
      ⟫ λ user. lift (user_to_domain user)

  unfoldable pub search_user_by_ad :
      (validate : Json → Result ApiUser)
      → (bot_id : Uuid) (ad_login ad_domain : Str) → Action UserFromSearch
  unfolding execute search_user_by_login_method search_by_login_payload jsonable_dict user_to_domain
  search_user_by_ad validate bot_id ad_login ad_domain =
      execute search_user_by_login_method validate bot_id
        (with_params (jsonable_dict (search_by_login_payload ad_login ad_domain)))
      ⟫ λ user. lift (user_to_domain user)

  unfoldable pub search_user_by_other_id :
      (validate : Json → Result ApiUser) → (bot_id : Uuid) (other_id : Str) → Action UserFromSearch
  unfolding execute search_user_by_other_id_method search_by_other_id_payload jsonable_dict
      user_to_domain
  search_user_by_other_id validate bot_id other_id =
      execute search_user_by_other_id_method validate bot_id
        (with_params (jsonable_dict (search_by_other_id_payload other_id)))
      ⟫ λ user. lift (user_to_domain user)
