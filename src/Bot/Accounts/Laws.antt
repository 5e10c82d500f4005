-- ===== src/Bot/Accounts/Laws.antt =====
-- Looking accounts up and keeping tokens.
use pybotx.Common.{
  ◌≡◌, ◌≢◌, refl, ◌⊎◌, inl, inr, some, List, [], ◌∷◌, In, All, ok, err, unknown_bot_account, ◌==◌,
  ==_iff, Bool-cases, if◌then◌else◌, arith,
}
use pybotx.Common.Text.{Str}
use pybotx.Common.Uuid.{Uuid}
use pybotx.Models.BotAccount.{BotAccountWithSecret}
use pybotx.Bot.Accounts.Defs.{
  BotAccountsStorage, account_in, get_bot_account, token_in, put_token, set_token,
  get_token_or_none,
}

token_in-put_token :
    (bot_id other : Uuid) (token : Str) (tokens : List (Uuid × Str))
    → token_in other (put_token bot_id token tokens)
      ≡ (if bot_id == other then some token else token_in other tokens)
unfolding token_in put_token
token_in-put_token bot_id other token [] = refl
token_in-put_token bot_id other token ((id, old) ∷ tokens) =
    ground (arith, token_in-put_token bot_id other token tokens)

-- A token that is set is the one that is read, no other bot's token changes, and the accounts stay.
pub set_token_lem :
    (storage : BotAccountsStorage) (bot_id other : Uuid) (token : Str)
    → (get_token_or_none (set_token storage bot_id token) other
        ≡ (if bot_id == other then some token else get_token_or_none storage other))
      × (get_bot_account (set_token storage bot_id token) other ≡ get_bot_account storage other)
unfolding set_token get_token_or_none get_bot_account
set_token_lem storage bot_id other token =
    (token_in-put_token bot_id other token storage.auth_tokens, refl)

abbrev pub HasNoId : Uuid → List BotAccountWithSecret → Type 0
HasNoId bot_id = All (λ a. a.id ≢ bot_id)

account_in_found :
    (bot_id : Uuid) (accounts : List BotAccountWithSecret)
    → ((account : BotAccountWithSecret) × (account_in bot_id accounts ≡ ok account)
        × In account accounts
        × (account.id ≡ bot_id))
      ⊎ ((account_in bot_id accounts ≡ err (unknown_bot_account bot_id)) × HasNoId bot_id accounts)
unfolding account_in
account_in_found bot_id [] = inr (refl, tt)
account_in_found bot_id (a ∷ accounts) = elim (Bool-cases (a.id == bot_id)) [
  | inl e ↦ inl (a, rw (e, account_in) refl, inl refl, (==_iff a.id bot_id).0 e)
  | inr e ↦ elim (account_in_found bot_id accounts) [
    | inl (b, f, m, i) ↦ inl (b, rw (e, account_in) f, inr m, i)
    | inr (f, h) ↦ inr (rw (e, account_in) f, (ground (arith, e), h))
  ]
]

-- Looking a bot up either finds one of the accounts, which has the bot's id, or raises
-- `UnknownBotAccountError`, and then no account has that id.
pub get_bot_account_lem :
    (storage : BotAccountsStorage) (bot_id : Uuid)
    → ((account : BotAccountWithSecret) × (get_bot_account storage bot_id ≡ ok account)
        × In account storage.bot_accounts
        × (account.id ≡ bot_id))
      ⊎ ((get_bot_account storage bot_id ≡ err (unknown_bot_account bot_id))
          × HasNoId bot_id storage.bot_accounts)
unfolding get_bot_account
get_bot_account_lem storage bot_id = account_in_found bot_id storage.bot_accounts
