-- ===== src/Tests/Client.antt =====
-- A concrete server, and calls of the client.
use pybotx.Common.{
  ℕ, ◌==◌, ◌≡◌, ◌↔◌, ◌≤◌, refl, true, false, if◌then◌else◌, none, some, List, [], ◌∷◌, All, length,
  Result, ok, err, value_error, map_result, arith,
}
use mathlib.Core.List.{Perm}
use pybotx.Common.Text.{Str, codes, is_space, strip_prefix}
use pybotx.Common.Dict.{lookup}
use pybotx.Common.Uuid.{Uuid}
use pybotx.Common.Json
use pybotx.Missing.{undefined}
use pybotx.Models.Enums
use pybotx.Models.Markup
use pybotx.Models.BotAccount
use pybotx.Models.Mentions
use pybotx.Models.Outgoing.{OutgoingMessage}
use pybotx.Models.Files as ModelFiles
use pybotx.Models.ApiBase
use pybotx.Bot.Accounts
use pybotx.Bot.Verification
use pybotx.Client
use pybotx.Client.{◌⟫◌}
use pybotx.Client.Calls
use pybotx.Client.Tokens
use pybotx.Client.Messages
use pybotx.Client.Stickers
use pybotx.Client.Files
use pybotx.Tests.Bot.{account, storage, decode, encode, known_account, host_of_account}

-- The n-th answer is 200 with the one byte n, which `json.loads` reads as a text of this character.
instance abbrev env : Client.Environment
env = record {
  answer = λ before request. some (record { status = 200; content = length before ∷ [] });
  time = λ before. 0;
  token_hex = λ before. codes "j";
  uuid4 = λ before n. n;
  urlencode = λ params. codes "q";
  dumps = λ json. codes "{}";
  loads = λ content. ok (Json.str content);
  encode = encode;
  digest = λ key msg. [];
  stream = λ amt content. content ∷ [];
  validate_token = λ json. ok (codes "t");
  validate_status = λ json. ok tt;
}

abbrev start : Client.World
start = record { storage = storage; sent = [] }

authorized_call_verified_example :
    (request : Client.Request) × (value : Str) × ((Client.authorized_call Client.status_handlers
        account.id
        (codes "GET")
        (codes "/p")
        Client.bare
        start).1
      ≡ record start { sent = request ∷ [] })
    × (lookup (codes "Authorization") request.headers ≡ some value)
    × (Verification.verify_request decode
          (some ((codes "authorization", value) ∷ []))
          storage.bot_accounts
          none
        ≡ ok account)
unfolding is_space
authorized_call_verified_example =
    Calls.authorized_call_verified decode none Client.status_handlers account b'h' [] (codes "GET")
      (codes "/p") Client.bare start refl (omega arith) known_account host_of_account
      (record {
        start = b't';
        token = [];
        encoded = refl;
        word = (refl, tt);
        read = refl;
        verified = refl;
      })

-- A storage of version 1 that keeps a token
abbrev cached : Client.World
cached = record {
  storage = record {
    bot_accounts = account ∷ [];
    auth_tokens = (9, codes "t") ∷ [];
    auth_version = Accounts.BotXAuthVersion.v1;
  };
  sent = [];
}

abbrev called : Client.World
called =
    (Client.authorized_call Client.status_handlers 9 (codes "POST") (codes "/r") Client.bare
      cached).1

cached_token_lem_example :
    Tokens.IsKept cached.storage.bot_accounts Accounts.BotXAuthVersion.v1 9 (codes "t") called
    × ((url : Str) × ((Client.authorized_call Client.status_handlers 9
            (codes "GET")
            (codes "/p")
            Client.bare
            called).1
          ≡ record called {
            sent =
                Client.request_of
                  (codes "GET")
                  url
                  (Client.authorization_headers (codes "t"))
                  Client.bare
                ∷ called.sent;
          }))
unfolding Accounts.get_bot_account Accounts.account_in Accounts.get_token_or_none Accounts.token_in
cached_token_lem_example =
    Tokens.cached_token_lem 9 account (codes "t") cached called Client.status_handlers (codes "GET")
      (codes "/p") Client.bare refl refl refl
      (Tokens.Reach.next Tokens.Reach.here
        (Tokens.Step.call Client.status_handlers 9 (codes "POST") (codes "/r") Client.bare cached))

abbrev typing : Client.Endpoint
typing = record { method = codes "POST"; path = codes "/p"; handlers = Client.status_handlers }

abbrev read_text : Json.Json → Result ℕ
read_text json = ok 7

abbrev executed : Client.World
executed = (Client.execute typing read_text 9 Client.bare start).1

execute-IsRead_example : Calls.IsRead typing.handlers read_text executed 7
unfolding Client.execute Accounts.get_bot_account BotAccount.host BotAccount.hostname
execute-IsRead_example = Calls.execute-IsRead typing read_text 9 Client.bare start executed 7 refl

abbrev a_message : Str → OutgoingMessage
a_message body = record {
  bot_id = 9;
  chat_id = 5;
  body = body;
  metadata = undefined;
  bubbles = undefined;
  keyboard = undefined;
  file = undefined;
  silent_response = undefined;
  markup_auto_adjust = undefined;
  recipients = undefined;
  stealth_mode = undefined;
  send_push = undefined;
  ignore_mute = undefined;
}

abbrev greeting : List Mentions.Piece
greeting = Mentions.Piece.plain (codes "Hi ") ∷ Mentions.Piece.embed Mentions.Mention.all ∷ []

greeting_is_short : length (Mentions.written greeting) ≤ Messages.max_notification_body_length
unfolding Mentions.mention_str Mentions.build_embed_mention Enums.mention_types_value
greeting_is_short = omega arith

abbrev new_ids : ℕ → Uuid
new_ids = env.uuid4 start.sent

send_message_sent_example :
    Messages.send_message read_text (a_message (Mentions.written greeting)) start
    ≡ Client.execute Messages.direct_notification_method read_text 9
        (Client.with_json (
          ApiBase.jsonable_dict (
            Messages.direct_notification_dump
              (a_message (Mentions.written greeting))
              (Mentions.sent_body new_ids 0 greeting)
              (Mentions.sent_mentions new_ids 0 greeting))))
        start
send_message_sent_example =
    Messages.send_message_sent read_text (a_message (Mentions.written greeting)) start greeting
      ((omega arith, (omega arith, (omega arith, tt))), (tt, tt)) refl greeting_is_short

abbrev sent_message : Client.World
sent_message = (Messages.send_message read_text (a_message (codes "hi")) start).1

send_message_done_example :
    (length (codes "hi") ≤ Messages.max_notification_body_length)
    × Calls.IsRead Client.status_handlers read_text sent_message 7
unfolding Messages.send_message Mentions.replace_matches Mentions.find_mentions Mentions.find_from
    Mentions.match_at strip_prefix Accounts.get_bot_account BotAccount.host BotAccount.hostname
send_message_done_example =
    Messages.send_message_done read_text (a_message (codes "hi")) start 7 sent_message refl

-- Two pages of sticker packs
abbrev pack : ℕ → Stickers.ApiPackFromList
pack id = record {
  id = id;
  name = codes "p";
  public_pack = true;
  stickers_count = 0;
  stickers_order = none;
}

abbrev read_page : Json.Json → Result Stickers.ApiPacksPage
read_page (Json.str (n ∷ [])) =
    if n == 0
    then ok (record { packs = pack 1 ∷ []; after = some (codes "x") })
    else ok (record { packs = pack 2 ∷ []; after = none })
read_page Json.null = err value_error
read_page _ = err value_error

abbrev packs_of : ℕ → Stickers.StickerPackFromList
packs_of id = record {
  id = id;
  name = codes "p";
  is_public = true;
  stickers_count = 0;
  sticker_ids = none;
}

abbrev iterated : Client.World
iterated = (Stickers.iterate_by_sticker_packs read_page 9 5 3 start).1

iterate_by_sticker_packs_lem_example :
    (Stickers.iterate_by_sticker_packs read_page 9 5 3 start
      ≡ (Client.done (some (packs_of 1 ∷ packs_of 2 ∷ [])), iterated))
    ↔ (n : ℕ) × (n ≤ 3)
      × Stickers.Pages read_page 9 5 none start n (packs_of 1 ∷ packs_of 2 ∷ []) iterated
iterate_by_sticker_packs_lem_example =
    Stickers.iterate_by_sticker_packs_lem read_page 9 5 3 start iterated
      (packs_of 1 ∷ packs_of 2 ∷ [])

-- The server does give these two pages.
two_pages :
    Stickers.iterate_by_sticker_packs read_page 9 5 3 start
    ≡ (Client.done (some (packs_of 1 ∷ packs_of 2 ∷ [])), iterated)
unfolding Stickers.iterate_by_sticker_packs Accounts.get_bot_account BotAccount.host
    BotAccount.hostname
two_pages = refl

abbrev a_sticker : ℕ → Stickers.ApiSticker
a_sticker id = record { id = id; emoji = codes "e"; link = codes "l" }

sorted_by_lem_example :
    Perm (a_sticker 2 ∷ a_sticker 1 ∷ []) (a_sticker 1 ∷ a_sticker 2 ∷ [])
    × ((places : List ℕ) × (map_result
            (Stickers.place (2 ∷ 1 ∷ []))
            (a_sticker 2 ∷ a_sticker 1 ∷ [])
          ≡ ok places)
        × Stickers.IsNondecreasing places)
unfolding Stickers.sorted_by Stickers.sort Stickers.insert Stickers.index_from
sorted_by_lem_example =
    Stickers.sorted_by_lem (2 ∷ 1 ∷ []) (a_sticker 1 ∷ a_sticker 2 ∷ [])
      (a_sticker 2 ∷ a_sticker 1 ∷ []) refl

abbrev a_buffer : Files.Buffer
a_buffer = record { passed = 1 ∷ []; rest = 2 ∷ 3 ∷ [] }

abbrev no_file : Json.Json → Result ModelFiles.ApiAsyncFile
no_file json = err value_error

upload_file_lem_example : Files.upload_file no_file 9 5 a_buffer (codes "f") undefined undefined ≡ (
    Files.upload_file_execute no_file 9 5
      (env.dumps (ApiBase.jsonable_dict (Files.upload_file_meta undefined undefined)))
      (codes "f")
      (2 ∷ 3 ∷ [])
    ⟫ λ result. Client.lift (ModelFiles.convert_async_file_to_domain result))
upload_file_lem_example = Files.upload_file_lem no_file 9 5 a_buffer (codes "f") undefined undefined

abbrev a_button : Str → Markup.Button
a_button label = record {
  label = label;
  command = undefined;
  button_data = Json.Fields.end;
  text_color = undefined;
  background_color = undefined;
  align = Markup.center;
  silent = true;
  width_ratio = undefined;
  alert = undefined;
  process_on_client = undefined;
  link = undefined;
}

abbrev additions : List Markup.Addition
additions =
    (a_button (codes "a"), false)
    ∷ (a_button (codes "b"), false)
    ∷ (a_button (codes "c"), true)
    ∷ []

add_all_lem_example :
    (Markup.buttons (Markup.add_all additions [])
      ≡ a_button (codes "a") ∷ a_button (codes "b") ∷ a_button (codes "c") ∷ [])
    × All Markup.IsNonempty (Markup.add_all additions [])
    × (length (Markup.add_all additions []) ≡ 2)
add_all_lem_example = Markup.add_all_lem additions
