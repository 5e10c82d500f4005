-- ===== src/Client/Messages/Events.antt =====
-- The methods of `Client` for the other events of a chat.
use pybotx.Common.{List, [], ◌∷◌, Result, if◌then◌else◌, ◌==◌}
use pybotx.Common.Text.{Str, codes}
use pybotx.Common.Uuid.{Uuid}
use pybotx.Common.Json.{Json}
use pybotx.Models.ApiBase.{Entries, entry, uuid_value, jsonable_dict}
use pybotx.Client.Action.{Action, pure, ◌⟫◌}
use pybotx.Client.Http.{Environment, bare, with_json}
use pybotx.Client.Auth.{execute}
use pybotx.Client.Chats.{Datetime}
use pybotx.Client.Messages.Endpoints.{
  typing_event_method, stop_typing_event_method, delete_event_method, message_status_method,
}

unfoldable pub typing_event_payload : (chat_id : Uuid) → Entries
typing_event_payload chat_id = entry (codes "group_chat_id") (uuid_value chat_id) Entries.end

unfoldable pub stop_typing_event_payload : (chat_id : Uuid) → Entries
stop_typing_event_payload chat_id = entry (codes "group_chat_id") (uuid_value chat_id) Entries.end

unfoldable pub delete_event_payload : (sync_id : Uuid) → Entries
delete_event_payload sync_id = entry (codes "sync_id") (uuid_value sync_id) Entries.end

-- A `BotXAPIMessageStatusReadUser` or a `BotXAPIMessageStatusReceivedUser` is the user's id and the time.
pub record ApiMessageStatus : Type 0 where
  pub group_chat_id : Uuid
  pub sent_to : List Uuid
  pub read_by : List (Uuid × Datetime)
  pub received_by : List (Uuid × Datetime)

-- The last two fields are dictionaries, in insertion order.
pub record MessageStatus : Type 0 where
  pub group_chat_id : Uuid
  pub sent_to : List Uuid
  pub read_by : List (Uuid × Datetime)
  pub received_by : List (Uuid × Datetime)

unfoldable pub put_time : Uuid → Datetime → List (Uuid × Datetime) → List (Uuid × Datetime)
put_time user time [] = (user, time) ∷ []
put_time user time ((id, old) ∷ times) =
    if id == user then (id, time) ∷ times else (id, old) ∷ put_time user time times

-- `{user: time for …}`, onto the dictionary so far
unfoldable pub times_of : List (Uuid × Datetime) → List (Uuid × Datetime) → List (Uuid × Datetime)
unfolding put_time
times_of times [] = times
times_of times ((user, time) ∷ users) = times_of (put_time user time times) users

-- `BotXAPIMessageStatusResponsePayload.to_domain`
unfoldable pub message_status_to_domain : ApiMessageStatus → MessageStatus
unfolding times_of
message_status_to_domain result = record {
  group_chat_id = result.group_chat_id;
  sent_to = result.sent_to;
  read_by = times_of [] result.read_by;
  received_by = times_of [] result.received_by;
}

module _ ⦃env : Environment⦄ where
  unfoldable pub get_message_status :
      (validate : Json → Result ApiMessageStatus) → (bot_id sync_id : Uuid) → Action MessageStatus
  unfolding execute message_status_method message_status_to_domain
  get_message_status validate bot_id sync_id =
      execute (message_status_method sync_id) validate bot_id bare ⟫ λ result.
      pure (message_status_to_domain result)

  unfoldable pub start_typing : (bot_id chat_id : Uuid) → Action (Unit {0})
  unfolding typing_event_payload jsonable_dict execute typing_event_method
  start_typing bot_id chat_id =
      execute typing_event_method env.validate_status bot_id
        (with_json (jsonable_dict (typing_event_payload chat_id)))

  unfoldable pub stop_typing : (bot_id chat_id : Uuid) → Action (Unit {0})
  unfolding stop_typing_event_payload jsonable_dict execute stop_typing_event_method
  stop_typing bot_id chat_id =
      execute stop_typing_event_method env.validate_status bot_id
        (with_json (jsonable_dict (stop_typing_event_payload chat_id)))

  -- The response's `result` is read and left.
  unfoldable pub delete_message :
      (validate : Json → Result Str) → (bot_id sync_id : Uuid) → Action (Unit {0})
  unfolding delete_event_payload jsonable_dict execute delete_event_method
  delete_message validate bot_id sync_id =
      execute delete_event_method validate bot_id
        (with_json (jsonable_dict (delete_event_payload sync_id)))
      ⟫ λ result. pure tt
