-- ===== src/Boxes.antt =====
-- crates/isobmff-boxes: the box types, each with its fields, its length and its codec.
pub mod FullBox
pub mod Table
pub mod Counted
pub mod HintStatistics
pub mod Timing
pub mod Numbers
pub mod Types
pub mod Samples
pub mod Headers
pub mod Kinds
