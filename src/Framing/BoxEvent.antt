-- ===== src/Framing/BoxEvent.antt =====
-- crates/isobmff/src/framing/box_event.rs: the steps in which a box is read and written.
use isobmff_rs.Common.{ℕ, List}
use isobmff_rs.Core.BoxHeader.{BoxHeader}

pub data BoxEvent : Type 0 where
  header : BoxHeader → BoxEvent
  payload : List ℕ → BoxEvent
  end : BoxEvent

pub data BoxEventKind : Type 0 where
  header_kind payload_kind end_kind : BoxEventKind

abbrev pub event_kind : BoxEvent → BoxEventKind
event_kind (header _) = header_kind
event_kind (payload _) = payload_kind
event_kind end = end_kind
