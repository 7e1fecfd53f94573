-- ===== src/Core.antt =====
-- crates/isobmff-core: box headers, framing, the field cursors and the boxes in a container.
pub mod FourCc
pub mod BoxType
pub mod BoxSize
pub mod Error
pub mod BoxHeader
pub mod Fixtures
pub mod RawBox
pub mod Field
pub mod Codec
pub mod FullBox
pub mod Container
