-- ===== src/Timeline.antt =====
-- crates/isobmff/src/timeline.rs: when the samples of a track are presented.
pub mod Multiples
