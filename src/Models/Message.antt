-- ===== src/Models/Message.antt =====
-- pybotx/models/message/incoming_message.py, with the classes of base_command.py, reply.py, forward.py
-- and chats.py that it uses.
mod Types
mod Convert
mod Argument
mod Words
mod Entities
mod Built
unfoldable pub use Types.*
unfoldable pub use Convert.*
unfoldable pub use Argument.*
pub use Words.*
pub use Entities.*
pub use Built.*
