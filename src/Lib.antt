-- ===== src/Lib.antt =====
-- pybotx is a Python library for chat bots of the BotX platform. The platform's servers (CTS) send
-- commands, callbacks of methods and requests for the status to the bot over HTTP, and the bot answers
-- and calls the servers' methods.
--
-- The parts and their files, with paths from the root of the repository:
--
-- - pybotx/bot/verification.py: Bot.Verification. `verify_request` reads the JSON web token of the
--   `authorization` header and returns the account of the bot that it is for, for tokens of version 1
--   and 2. Exceptions are the constructors of `Error` in Common/Results.antt, a function that may raise
--   returns a `Result`, and each `except` clause is a function on results.
-- - pybotx/bot/bot_accounts_storage.py and pybotx/auth.py: Bot.Accounts, the storage of accounts and
--   tokens as a record, and the token that the bot presents.
-- - pybotx/bot/resources: Bot.Resources. `on_command`, `on_callback` and `on_status` are `on_post` and
--   `on_get` of the three resources: what they call of the handlers, with the arguments, and the response
--   or the exception that reaches the server. They go through Bot.Verification and then convert the
--   command by the models.
-- - pybotx/models/message/incoming_message.py: Models.Message, with the classes of base_command.py,
--   reply.py, forward.py and chats.py. `to_domain` converts a command to a message; `argument` and
--   `arguments` are functions of its body.
-- - pybotx/models/message/mentions.py: Models.Mentions. The pattern of an embedded mention is a matcher
--   over the text in Regex.antt; the n-th call of `uuid4` returns `fresh n`.
-- - pybotx/models/attachments.py: Models.Attachments, with data URLs (RFC 2397), their base64 in
--   Common/Base64.antt and the table of MIME types.
-- - pybotx/models/files.py: Models.Files. pybotx/models/system_events and commands.py:
--   Models.SystemEvents. pybotx/models/enums.py: Models.Enums. pybotx/models/bot_account.py:
--   Models.BotAccount. pybotx/models/status.py: in Bot.Resources. pybotx/missing.py: Missing.
--   pybotx/models/api_base.py: Models.ApiBase. pybotx/models/sync_smartapp_event.py:
--   Models.SyncSmartApp, an event that no resource takes.
-- - pybotx/models/message/markup.py: Models.Markup, the builders of rows of buttons and the format that
--   the servers read. outgoing_message.py, reply_message.py and edit_message.py: Models.Outgoing.
-- - pybotx/client: Client. An `Action` reads the `Environment` and gives a value or an exception
--   together with the next `World`, which is kept where an exception is raised too: the storage of the
--   accounts and the requests that were sent, the last one first. Client.Http is botx_method.py,
--   Client.Auth is authorized_botx_method.py, get_token.py and the `execute` of the methods that do
--   nothing else, Client.Calls follows the request and its response. Client.Tokens shows what a method
--   does with a token, Client.Keeping what no action changes.
-- - The methods of the API, with the methods of `Client` in pybotx/client/client.py that call them:
--   Client.Chats (chats_api), Client.Messages (notifications_api, events_api), Client.Files (files_api,
--   pybotx/buffer.py, pybotx/image_validators.py), Client.Stickers (stickers_api), Client.Users (users_api),
--   Client.SmartApps (smartapps_api) and Client.Other (the remaining ones). Payloads holds what
--   the methods send, Responses what they read, Endpoints the verb, the path and the handlers of
--   statuses, Methods the methods of `Client`.
-- - Common holds what Python provides: texts as lists of code points with `split`, `strip` and
--   `partition`, dictionaries in insertion order, UUIDs as 128-bit numbers, and values of JSON.
-- - Tests applies the theorems at concrete inputs.
--
-- A field that is called `data` in the sources has another name here (`command_data`, `smartapp_data`),
-- as the word is reserved. Fields that have one constant value in the sources are left out.
--
-- Nearly all loops run over lists, and the search for mentions goes through the text once, with a
-- counter of the characters that a match has covered. Two loops of the client have fuel, as how often
-- they turn is up to others. A buffer is read until it is empty: `enough_fuel` is the number of bytes
-- left and two more, each turn reads a byte at least, and `copy_buffer_lem` shows that this is
-- enough. The pages of sticker packs are asked for until a page has no cursor, which is the server's
-- choice: the fuel is an argument, and a loop that used it up gives `none`, which no run in Python
-- does.
--
-- Parameters of the model are the functions of packages: `jwt.decode` and `jwt.encode` (PyJWT), the
-- validations of pydantic (each `validate` argument is `model_validate` or a constructor that
-- validates), the clock and the random numbers, the use cases of the bot's author, and in `Environment`
-- the answers of the servers as a function of all requests so far, `urlencode`, `json.loads`, `hmac`
-- and the chunks of a streamed response. What a theorem relies on of them stands among its hypotheses.
--
-- Not modelled: logging, warnings of deprecated names, the text of most exceptions' messages, what
-- pydantic validates, the factory of the application
-- (pybotx/bot/app_factory.py), and the bodies of the responses to the server
-- (pybotx/bot/api/responses). Counters are natural numbers. Two rows of a markup never are one
-- object. The letters of other alphabets keep their case in `lower`, and `int(text, 16)` reads ASCII
-- digits only.

pub mod Common
pub mod Models
pub mod Missing
pub mod Bot
pub mod Client
pub mod Tests
