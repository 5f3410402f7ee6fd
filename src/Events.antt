-- ===== src/Events.antt =====
-- src/App/Watcher.hpp: the events that the watcher hands to the reader.
use aidt.Prelude.{Bytes}

pub data EventType : Type 0 where
  delete move_self modify move_to stop : EventType

pub record InotifyEvent : Type 0 where
  pub pathfile : Bytes
  pub origfile : Bytes
  pub aliasfile : Bytes
  pub event : EventType
