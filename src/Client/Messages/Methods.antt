-- ===== src/Client/Messages/Methods.antt =====
-- The methods of `Client` for notifications, and those that edit or answer a message.
use pybotx.Common.{ℕ, Bool, true, false, Option, some, none, List, Result, assertion_error}
use pybotx.Common.Text.{Str}
use pybotx.Common.Uuid.{Uuid}
use pybotx.Common.Json.{Json, Fields}
use pybotx.Missing.{Missing}
use pybotx.Models.Outgoing.{OutgoingMessage, EditMessage, ReplyMessage}
use pybotx.Models.ApiBase.{jsonable_dict}
use pybotx.Client.Action.{HttpResponse, python, Action, pure, raise, lift, ◌⟫◌}
use pybotx.Client.Http.{Environment, with_json, verify_and_extract}
use pybotx.Client.Auth.{authorized_call, execute}
use pybotx.Client.Messages.Payloads.{
  direct_notification_payload, internal_notification_payload, edit_event_payload,
  reply_event_payload,
}
use pybotx.Client.Messages.Endpoints.{
  direct_notification_method, direct_notification_sync_method, internal_bot_notification_method,
  edit_event_method, reply_event_method, direct_notification_sync_error,
}

-- `BotXAPIDirectNotificationSyncResponsePayload`, less the fields that are not read
pub record SyncResponse : Type 0 where
  -- `status == "error"`
  pub is_error : Bool
  pub result : Option Uuid
  pub reason : Option Str

module _ ⦃env : Environment⦄ where
  -- A payload that is built with the UUIDs of this moment
  abbrev pub build {ℓ} : {A : Type ℓ} → ((ℕ → Uuid) → Result A) → Action A
  build payload w = lift (payload (env.uuid4 w.sent)) w

  -- `send_message`, whose arguments are the fields of the message
  unfoldable pub send_message : (validate : Json → Result Uuid) → OutgoingMessage → Action Uuid
  unfolding direct_notification_payload jsonable_dict execute direct_notification_method
  send_message validate message =
      build (λ fresh. direct_notification_payload fresh message) ⟫ λ payload.
      execute direct_notification_method validate message.bot_id (with_json (jsonable_dict payload))

  -- `send`
  unfoldable pub send : (validate : Json → Result Uuid) → OutgoingMessage → Action Uuid
  unfolding send_message
  send validate message = send_message validate message

  -- The end of `DirectNotificationSyncMethod.execute`
  abbrev sync_result :
      HttpResponse → (is_error : Bool) → (result : Option Uuid) (reason : Option Str) → Action Uuid
  sync_result response true result reason = raise (direct_notification_sync_error response reason)
  sync_result response false (some sync_id) reason = pure sync_id
  sync_result response false none reason = raise (python assertion_error)

  unfoldable pub direct_notification_sync_execute :
      (validate : Json → Result SyncResponse) → (bot_id : Uuid) → Fields → Action Uuid
  unfolding authorized_call verify_and_extract direct_notification_sync_method
      direct_notification_sync_error
  direct_notification_sync_execute validate bot_id json =
      let endpoint = direct_notification_sync_method in
      authorized_call endpoint.handlers bot_id endpoint.method endpoint.path (with_json json)
      ⟫ λ response. verify_and_extract validate response ⟫ λ api_model.
          sync_result response api_model.is_error api_model.result api_model.reason

  unfoldable pub send_message_sync :
      (validate : Json → Result SyncResponse) → OutgoingMessage → Action Uuid
  unfolding direct_notification_payload jsonable_dict direct_notification_sync_execute
  send_message_sync validate message =
      build (λ fresh. direct_notification_payload fresh message) ⟫ λ payload.
      direct_notification_sync_execute validate message.bot_id (jsonable_dict payload)

  unfoldable pub send_internal_bot_notification :
      (validate : Json → Result Uuid) (bot_id chat_id : Uuid) (notification_data : Fields)
      (opts : Missing Fields) (recipients : Missing (List Uuid))
      → Action Uuid
  unfolding internal_notification_payload jsonable_dict execute internal_bot_notification_method
  send_internal_bot_notification validate bot_id chat_id notification_data opts recipients =
      execute internal_bot_notification_method validate bot_id (
        with_json
          (jsonable_dict (internal_notification_payload chat_id notification_data opts recipients)))

  -- `edit_message`, whose arguments are the fields of the message
  unfoldable pub edit_message : EditMessage → Action (Unit {0})
  unfolding edit_event_payload jsonable_dict execute edit_event_method
  edit_message message = build (λ fresh. edit_event_payload fresh message) ⟫ λ payload.
      execute edit_event_method env.validate_status message.bot_id
        (with_json (jsonable_dict payload))

  -- `edit`
  unfoldable pub edit : EditMessage → Action (Unit {0})
  unfolding edit_message
  edit message = edit_message message

  -- `reply_message`, whose arguments are the fields of the message
  unfoldable pub reply_message : ReplyMessage → Action (Unit {0})
  unfolding reply_event_payload jsonable_dict execute reply_event_method
  reply_message message = build (λ fresh. reply_event_payload fresh message) ⟫ λ payload.
      execute reply_event_method env.validate_status message.bot_id
        (with_json (jsonable_dict payload))

  -- `reply`
  unfoldable pub reply : ReplyMessage → Action (Unit {0})
  unfolding reply_message
  reply message = reply_message message
