-- ===== src/Bot/Resources/Verified.antt =====
-- What a handler that is called can rely on.
use pybotx.Common.{
  ◌==◌, ==_iff, ◌≡◌, refl, sym, ap, ◌∙◌, subst, inl, inr, Bool, true, false, Option, none, some,
  List, [], In, Error, index_error, unverified_request, Result, ok, err, bind_ok, ok-injective,
}
use pybotx.Common.Text.{Str, codes}
use pybotx.Common.Json.{Json}
use pybotx.Models.BotAccount.{BotAccountWithSecret}
use pybotx.Bot.Verification.{guard, verify_request_sound, IsVerified}
use pybotx.Bot.Resources.Requests.{
  BotCommand, bot_id_of, status, mismatch, fields_of, lower_headers, Resources, Packages,
  catch_validation_error, command_to_domain, recipient_to_domain, build_bot_status_response,
  BotApiStatus,
}
use pybotx.Bot.Resources.Defs.{
  verify_resource_request, validate_command, parse_command, handler_of, run_handler, answer_command,
  on_command, parse_callback, answer_callback, on_callback, get_status, answer_status, on_status,
  single_params,
}

guard-true : (b : Bool) (e : Error) {u : Unit {0}} → guard b e ≡ ok u → b ≡ true
guard-true true e h = refl
guard-true false e h = cc

module _ {C K : Type 0} (packages : Packages C K) (resources : Resources C) where
  -- An account that a request was verified for.
  abbrev pub IsVerifiedFor : List (Str × Str) → BotAccountWithSecret → Type 0
  IsVerifiedFor headers account =
      In account resources.storage.bot_accounts
      × IsVerified packages.decode (lower_headers headers) none account

  resource_request_sound :
      (headers : List (Str × Str)) (account : BotAccountWithSecret)
      → resources.verify_requests ≡ true
      → verify_resource_request packages.decode resources.storage resources.verify_requests
          (lower_headers headers)
        ≡ ok account
      → IsVerifiedFor headers account
  unfolding verify_resource_request
  resource_request_sound headers account on h =
      verify_request_sound packages.decode (lower_headers headers) resources.storage.bot_accounts
        none account (rw on at h)

  no_handler : (e : Error) → (answer_command packages resources (err e)).0 ≡ []
  no_handler (unverified_request m) = refl
  no_handler index_error = refl
  no_handler _ = refl

  run_handler-In :
      (o : Result (Option C)) (given command : BotCommand) (handler : C)
      → In (handler, command) (run_handler packages resources o given).0
      → (given ≡ command) × (o ≡ ok (some handler))
  run_handler-In (err e) given command handler h = absurd h
  run_handler-In (ok none) given command handler h = absurd h
  run_handler-In (ok (some registered)) given command handler (inl e) =
      (sym (ap (λ p. p.1) e), ap (λ p. ok (some p.0)) (sym e))
  run_handler-In (ok (some registered)) given command handler (inr h) = absurd h

  handler_run :
      (r : Result BotCommand) (handler : C) (command : BotCommand)
      → In (handler, command) (answer_command packages resources r).0
      → (r ≡ ok command) × (handler_of packages resources command ≡ ok (some handler))
  handler_run (err e) handler command h = absurd (subst (In (handler, command)) (no_handler e) h)
  handler_run (ok given) handler command h =
      let (same, found) =
        run_handler-In (handler_of packages resources given) given command handler h in
      (ap ok same, ap (handler_of packages resources) (sym same) ∙ found)

  -- With verification on, a handler is called only for a request that was verified for an account of the
  -- storage, with a command of that account's bot, and it is the handler registered for the command.
  pub handler_verified :
      (raw_command : Json) (headers : List (Str × Str)) (handler : C) (command : BotCommand)
      → resources.verify_requests ≡ true
      → In (handler, command) (on_command packages resources raw_command headers).0
      → (handler_of packages resources command ≡ ok (some handler))
        × ((account : BotAccountWithSecret) × IsVerifiedFor headers account
            × (bot_id_of command ≡ account.id))
  unfolding on_command parse_command
  handler_verified raw_command headers handler command on h =
      let (parsed, registered) =
        handler_run (parse_command packages resources raw_command (lower_headers headers)) handler
          command h in
      (
        registered,
        bind_ok
            (verify_resource_request packages.decode resources.storage resources.verify_requests
              (lower_headers headers))
            _ parsed
            λ account e1 h1.
              bind_ok (catch_validation_error (validate_command packages resources raw_command)) _
                h1
                λ api e2 h2.
                  bind_ok (command_to_domain api (fields_of raw_command)) _ h2 λ given e3 h3.
                    bind_ok
                      (guard (bot_id_of given == account.id)
                        (mismatch (codes "command") account.id (bot_id_of given)))
                      _ h3
                      λ u e4 h4. (
                        account,
                        resource_request_sound headers account on e1,
                        ap bot_id_of (sym (ok-injective h4))
                            ∙ (==_iff (bot_id_of given) account.id).0 (guard-true _ _ e4),
                      ),
      )

  no_callback : (e : Error) → (answer_callback packages resources (err e)).0 ≡ []
  no_callback (unverified_request m) = refl
  no_callback index_error = refl
  no_callback _ = refl

  callback_run :
      (r : Result K) (callback : K)
      → In callback (answer_callback packages resources r).0
      → r ≡ ok callback
  callback_run (err e) callback h = absurd (subst (In callback) (no_callback e) h)
  callback_run (ok given) callback (inl e) = ap ok (sym e)
  callback_run (ok given) callback (inr h) = absurd h

  -- With verification on, the callback's handler is called only for a request that was verified for an
  -- account of the storage.
  pub callback_verified :
      (raw_callback : Json) (headers : List (Str × Str)) (callback : K)
      → resources.verify_requests ≡ true
      → In callback (on_callback packages resources raw_callback headers).0
      → (account : BotAccountWithSecret) × IsVerifiedFor headers account
  unfolding on_callback parse_callback
  callback_verified raw_callback headers callback on h =
      bind_ok
        (verify_resource_request packages.decode resources.storage resources.verify_requests
          (lower_headers headers))
        _
        (callback_run (parse_callback packages resources raw_callback (lower_headers headers))
          callback h)
        λ account e1 h1. (account, resource_request_sound headers account on e1)

  status_answered :
      (r : Result BotApiStatus) (s : BotApiStatus)
      → answer_status packages resources r ≡ ok (status s)
      → r ≡ ok s
  status_answered (ok given) s h = cc
  status_answered (err (unverified_request m)) s h = cc
  status_answered (err index_error) s h = cc
  status_answered (err _) s h = cc

  -- With verification on, the menu is shown only for a request that was verified for an account of the storage,
  -- and it is the whole menu.
  pub status_verified :
      (params : List (Str × List Str)) (headers : List (Str × Str)) (s : BotApiStatus)
      → resources.verify_requests ≡ true
      → on_status packages resources params headers ≡ ok (status s)
      → (s ≡ build_bot_status_response resources.bot_menu)
        × ((account : BotAccountWithSecret) × IsVerifiedFor headers account)
  unfolding on_status get_status
  status_verified params headers s on h =
      bind_ok (single_params packages resources params) _ h λ query_params e0 h0.
        bind_ok
          (verify_resource_request packages.decode resources.storage resources.verify_requests
            (lower_headers headers))
          _
          (status_answered (get_status packages resources query_params (lower_headers headers)) s
            h0)
          λ account e1 h1.
            bind_ok (catch_validation_error (packages.validate_recipient query_params)) _ h1
              λ api e2 h2. bind_ok (recipient_to_domain api) _ h2 λ recipient e3 h3.
                bind_ok
                  (guard (recipient.bot_id == account.id)
                    (mismatch (codes "status") account.id recipient.bot_id))
                  _ h3
                  λ u e4 h4.
                    (sym (ok-injective h4), (account, resource_request_sound headers account on e1))
