-- ===== src/Bot/Resources/Defs.antt =====
-- The three resources. Pydantic's validation of the models, the handlers' use cases and `jwt.decode` are
-- parameters. Logging is left out.
use pybotx.Common.{
  ◌==◌, Bool, Option, none, some, List, [], ◌∷◌, head?, index_error, unverified_request, Result, ok,
  err, or_raise, ◌>>=◌, if◌then◌else◌,
}
use pybotx.Common.Text.{Str, codes}
use pybotx.Common.Dict.{lookup}
use pybotx.Common.Json.{Json, is_str}
use pybotx.Models.BotAccount.{BotAccountWithSecret}
use pybotx.Bot.Verification.{Decode, guard, verify_request}
use pybotx.Bot.Accounts.{BotAccountsStorage}
use pybotx.Bot.Resources.Requests.{
  BotCommand, bot_id_of, BotApiStatus, build_bot_status_response, Response, recipient_to_domain,
  lower_headers, catch_validation_error, command_type_of, BotApiCommand, command_to_domain,
  mismatch, command_bot, fields_of, event_type, Resources, Packages, Outcome, message, event,
  accepted, callback_received, status, unverified, api_message, api_event,
}

-- `_verify_request` of the base
unfoldable pub verify_resource_request :
    Decode → BotAccountsStorage → Bool → List (Str × Str) → Result BotAccountWithSecret
verify_resource_request decode storage verify_requests headers =
    if verify_requests
    then verify_request decode (some headers) storage.bot_accounts none
    else or_raise index_error (head? storage.bot_accounts)

module _ {C K : Type 0} (packages : Packages C K) (resources : Resources C) where
  unfoldable pub validate_command : Json → Result BotApiCommand
  unfolding command_type_of
  validate_command raw_command = command_type_of raw_command >>= λ t.
      if is_str t (codes "user")
      then (packages.validate_message raw_command >>= λ m. ok (api_message m))
      else packages.validate_event raw_command >>= λ e. ok (api_event e)

  -- `_parse_command`
  unfoldable pub parse_command : Json → List (Str × Str) → Result BotCommand
  parse_command raw_command headers =
      verify_resource_request packages.decode resources.storage resources.verify_requests headers
      >>= λ account. catch_validation_error (validate_command raw_command) >>= λ api.
          command_to_domain api (fields_of raw_command) >>= λ command.
          guard (bot_id_of command == account.id)
            (mismatch (codes "command") account.id (bot_id_of command))
          >>= λ _. ok command

  -- `_dispatch` for a message and the dictionary of events for the rest
  unfoldable pub handler_of : BotCommand → Result (Option C)
  handler_of (message m) = command_bot m.body >>= λ command. ok (lookup command resources.commands)
  handler_of (event e) = ok (resources.events (event_type e))

  abbrev pub run_handler : Result (Option C) → BotCommand → Outcome (C × BotCommand)
  run_handler (err e) command = ([], err e)
  run_handler (ok none) command = ([], ok accepted)
  run_handler (ok (some handler)) command =
      ((handler, command) ∷ [], packages.execute handler command >>= λ _. ok accepted)

  abbrev pub answer_command : Result BotCommand → Outcome (C × BotCommand)
  answer_command (err (unverified_request m)) = ([], ok (unverified m))
  answer_command (err e) = ([], err e)
  answer_command (ok command) = run_handler (handler_of command) command

  -- `CommandResource.on_post`
  unfoldable pub on_command : Json → List (Str × Str) → Outcome (C × BotCommand)
  on_command raw_command headers =
      answer_command (parse_command raw_command (lower_headers headers))

  -- `_parse_callback`
  unfoldable pub parse_callback : Json → List (Str × Str) → Result K
  parse_callback raw_callback headers =
      verify_resource_request packages.decode resources.storage resources.verify_requests headers
      >>= λ account. packages.validate_callback raw_callback

  abbrev pub answer_callback : Result K → Outcome K
  answer_callback (err (unverified_request m)) = ([], ok (unverified m))
  answer_callback (err e) = ([], err e)
  answer_callback (ok callback) =
      (callback ∷ [], packages.execute_callback callback >>= λ _. ok callback_received)

  -- `CallbackResource.on_post`
  unfoldable pub on_callback : Json → List (Str × Str) → Outcome K
  on_callback raw_callback headers =
      answer_callback (parse_callback raw_callback (lower_headers headers))

  -- `_get_status`
  unfoldable pub get_status : List (Str × Str) → List (Str × Str) → Result BotApiStatus
  get_status query_params headers =
      verify_resource_request packages.decode resources.storage resources.verify_requests headers
      >>= λ account. catch_validation_error (packages.validate_recipient query_params) >>= λ api.
          recipient_to_domain api >>= λ recipient.
          guard (recipient.bot_id == account.id)
            (mismatch (codes "status") account.id recipient.bot_id)
          >>= λ _. ok (build_bot_status_response resources.bot_menu)

  abbrev pub answer_status : Result BotApiStatus → Result Response
  answer_status (err (unverified_request m)) = ok (unverified m)
  answer_status (err e) = err e
  answer_status (ok s) = ok (status s)

  -- `value if isinstance(value, str) else value[0]` of the parameters of the query
  unfoldable pub single_params : List (Str × List Str) → Result (List (Str × Str))
  single_params [] = ok []
  single_params ((key, values) ∷ params) = or_raise index_error (head? values) >>= λ value.
      single_params params >>= λ rest. ok ((key, value) ∷ rest)

  -- `StatusResource.on_get`
  unfoldable pub on_status : List (Str × List Str) → List (Str × Str) → Result Response
  unfolding single_params
  on_status params headers = single_params params >>= λ query_params.
      answer_status (get_status query_params (lower_headers headers))
