-- ===== src/Models.antt =====
-- The channel-neutral data types: src/memory_rag/core/domain/models.py, core/routing/models.py,
-- core/embeddings/models.py and core/chat/models.py. Text is a list of code points, a `datetime` its microseconds since the
-- epoch, and a float the bit pattern of its double.
mod Routing
mod Notes
mod Answers
mod Chat
mod Calendar
unfoldable pub use Routing.*
unfoldable pub use Notes.*
unfoldable pub use Answers.*
unfoldable pub use Chat.*
unfoldable pub use Calendar.*
