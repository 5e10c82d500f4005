-- ===== src/Models/Outgoing.antt =====
-- pybotx/models/message: the messages that a bot builds and the client sends.
use pybotx.Common.{Bool, Option}
use pybotx.Common.{List}
use pybotx.Common.Text.{Str}
use pybotx.Common.Uuid.{Uuid}
use pybotx.Common.Json.{Fields}
use pybotx.Missing.{Missing}
use pybotx.Models.Attachments.{OutgoingAttachment}
use pybotx.Models.Markup.{Markup}

-- A file is what `from_file_attachment` reads of it: its content and its name.
pub record OutgoingMessage : Type 0 where
  pub bot_id : Uuid
  pub chat_id : Uuid
  pub body : Str
  pub metadata : Missing Fields
  pub bubbles : Missing Markup
  pub keyboard : Missing Markup
  pub file : Missing OutgoingAttachment
  pub silent_response : Missing Bool
  pub markup_auto_adjust : Missing Bool
  pub recipients : Missing (List Uuid)
  pub stealth_mode : Missing Bool
  pub send_push : Missing Bool
  pub ignore_mute : Missing Bool

pub record EditMessage : Type 0 where
  pub bot_id : Uuid
  pub sync_id : Uuid
  pub body : Missing Str
  pub metadata : Missing Fields
  pub bubbles : Missing Markup
  pub keyboard : Missing Markup
  pub file : Missing (Option OutgoingAttachment)
  pub markup_auto_adjust : Missing Bool

pub record ReplyMessage : Type 0 where
  pub bot_id : Uuid
  pub sync_id : Uuid
  pub body : Str
  pub metadata : Missing Fields
  pub bubbles : Missing Markup
  pub keyboard : Missing Markup
  pub file : Missing OutgoingAttachment
  pub silent_response : Missing Bool
  pub markup_auto_adjust : Missing Bool
  pub stealth_mode : Missing Bool
  pub send_push : Missing Bool
  pub ignore_mute : Missing Bool
