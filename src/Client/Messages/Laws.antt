-- ===== src/Client/Messages/Laws.antt =====
-- The limit on the length of a message, and the message that is sent within it.
use pybotx.Client.Auth.{status_handlers, execute}
use pybotx.Common.{
  Bool-cases, inl, inr, ℕ, ◌≤◌, ◌<◌, ltb, ◌≡◌, refl, arith, true, false, List, All, Result, ok, err,
  value_error, length,
}
use pybotx.Common.Uuid.{Uuid}
use pybotx.Common.Json.{Json}
use pybotx.Models.Mentions.{
  Piece, IsPiece, written, sent_body, sent_mentions, find_and_replace-written,
}
use pybotx.Models.Outgoing.{OutgoingMessage}
use pybotx.Models.ApiBase.{Entries, jsonable_dict}
use pybotx.Client.Action.{done, World, lift, chain_done}
use pybotx.Client.Http.{Environment, with_json}
use pybotx.Client.Calls.{IsRead, execute-IsRead}
use pybotx.Client.Messages.Payloads.{
  max_notification_body_length, direct_notification_payload, direct_notification_dump,
}
use pybotx.Client.Messages.Endpoints.{direct_notification_method}
use pybotx.Client.Messages.Methods.{build, send_message}

-- A body above the limit is refused, and one of pieces within it is not.
too_long :
    (fresh : ℕ → Uuid) (m : OutgoingMessage)
    → max_notification_body_length < length m.body
    → direct_notification_payload fresh m ≡ err value_error
unfolding direct_notification_payload
too_long fresh m h =
    let e : ltb max_notification_body_length (length m.body) ≡ true = ground arith in rw e refl

accepted :
    (fresh : ℕ → Uuid) (m : OutgoingMessage) (ps : List Piece)
    → All IsPiece ps
    → m.body ≡ written ps
    → length m.body ≤ max_notification_body_length
    → direct_notification_payload fresh m
      ≡ ok (direct_notification_dump m (sent_body fresh 0 ps) (sent_mentions fresh 0 ps))
unfolding direct_notification_payload
accepted fresh m ps h body short =
    let e : ltb max_notification_body_length (length m.body) ≡ false = ground arith in
    rw (e, body, find_and_replace-written fresh ps h) refl

within_limit :
    (fresh : ℕ → Uuid) (m : OutgoingMessage) (payload : Entries)
    → direct_notification_payload fresh m ≡ ok payload
    → length m.body ≤ max_notification_body_length
within_limit fresh m payload h =
    elim (Bool-cases (ltb max_notification_body_length (length m.body))) [
      | inl long ↦ absurd (let e = too_long fresh m (ground arith) in cc)
      | inr short ↦ ground arith
    ]

lift_done : {A : Type 0} (r : Result A) (a : A) (w w' : World) → lift r w ≡ (done a, w') → r ≡ ok a
lift_done (ok b) a w w' h = cc h
lift_done (err e) a w w' h = absurd (cc h)

module _ ⦃env : Environment⦄ (validate : Json → Result Uuid) (message : OutgoingMessage)
    (w : World) where
  -- A message whose body is plain pieces without `<` and mentions (of 128-bit ids, with names without `<` and newline)
  -- and has at most 4096 characters, the tags of the mentions included: `send_message` does not refuse it,
  -- and is the call of the method with the text in which the marks stand for the mentions, and with
  -- these mentions.
  pub send_message_sent :
      (ps : List Piece)
      → All IsPiece ps
      → message.body ≡ written ps
      → length message.body ≤ max_notification_body_length
      → send_message validate message w
        ≡ execute direct_notification_method validate message.bot_id
            (with_json (
              jsonable_dict (
                direct_notification_dump message
                  (sent_body (env.uuid4 w.sent) 0 ps)
                  (sent_mentions (env.uuid4 w.sent) 0 ps))))
            w
  unfolding send_message
  send_message_sent ps h body short = rw (accepted (env.uuid4 w.sent) message ps h body short) refl

  -- A message for which `send_message` gives an id: its body has at most 4096 characters, and the id was read from the
  -- response to the request that was sent last, whose status is 2xx and not 401.
  pub send_message_done :
      (sync_id : Uuid) (w' : World)
      → send_message validate message w ≡ (done sync_id, w')
      → (length message.body ≤ max_notification_body_length)
        × IsRead status_handlers validate w' sync_id
  unfolding send_message direct_notification_method
  send_message_done sync_id w' h =
      chain_done (build (λ fresh. direct_notification_payload fresh message)) _ h
        (λ payload v first rest. (
          within_limit (env.uuid4 w.sent) message payload (
              lift_done (direct_notification_payload (env.uuid4 w.sent) message) payload w v first),
          execute-IsRead direct_notification_method validate message.bot_id
              (with_json (jsonable_dict payload)) v w' sync_id rest,
        ))
