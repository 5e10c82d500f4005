-- ===== src/Bot/Resources/Errors.antt =====
-- The exceptions that reach the server.
use pybotx.Common.{
  ℕ, ◌≡◌, refl, ◌∙◌, true, none, List, [], ◌∷◌, All, index_error, unknown_bot_account, ok, err,
}
use pybotx.Common.Text.{Str, codes, is_space, split, split-space}
use pybotx.Common.Uuid.{Uuid, parse_uuid}
use pybotx.Common.Json.{Json, str, Fields, get}
use pybotx.Models.Message.{IncomingMessage}
use pybotx.Bot.Verification.{is_v2_payload, Carries, HasNoAccount, unknown_bot_v2}
use pybotx.Bot.Resources.Requests.{message, Resources, Packages, lower_headers, command_bot}
use pybotx.Bot.Resources.Defs.{verify_resource_request, parse_command, handler_of, on_command}

abbrev pub IsBlank : Str → Type 0
IsBlank = All (λ c. is_space c ≡ true)

split-blank : (s : Str) → IsBlank s → split s ≡ []
unfolding split
split-blank [] h = refl
split-blank (c ∷ s) (p, h) = split-space c s p ∙ split-blank s h

module _ {C K : Type 0} (packages : Packages C K) (resources : Resources C) (raw_command : Json)
    (headers : List (Str × Str)) where
  -- A verified message whose body is not empty but all whitespace raises `IndexError`, and no handler is called.
  pub blank_body :
      (m : IncomingMessage) (c : ℕ) (s : Str)
      → parse_command packages resources raw_command (lower_headers headers) ≡ ok (message m)
      → m.body ≡ c ∷ s
      → IsBlank (c ∷ s)
      → on_command packages resources raw_command headers ≡ ([], err index_error)
  unfolding on_command handler_of command_bot
  blank_body m c s parsed body blank =
      rw (parsed, body) (rw (split-blank (c ∷ s) blank, command_bot) refl)

  -- With verification on, a V2 token of a bot that is not in the storage is not answered with 401: the
  -- exception `UnknownBotAccountError` reaches the server, whatever the token's signature.
  pub unknown_bot_escapes :
      (token issuer : Str) (bot_id : Uuid) (payload : Fields)
      → resources.verify_requests ≡ true
      → Carries packages.decode (lower_headers headers) token payload
      → is_v2_payload payload ≡ true
      → get (codes "iss") payload ≡ str issuer
      → parse_uuid issuer ≡ ok bot_id
      → HasNoAccount bot_id resources.storage.bot_accounts
      → on_command packages resources raw_command headers ≡ ([], err (unknown_bot_account bot_id))
  unfolding on_command parse_command verify_resource_request
  unknown_bot_escapes token issuer bot_id payload on c v iss id missing =
      rw
        (
          on,
          unknown_bot_v2 packages.decode (lower_headers headers) resources.storage.bot_accounts none
              token payload issuer bot_id c v iss id missing,
        )
        refl
