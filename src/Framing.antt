-- ===== src/Framing.antt =====
-- crates/isobmff/src/framing and what it answers with: boxes written and read event by event.
pub mod Range
pub mod ReadError
pub mod WriteError
pub mod BoxEvent
pub mod BoxWriter
pub mod BoxReader
pub mod Reserved
