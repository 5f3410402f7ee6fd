-- ===== src/Watcher/Dispatch.antt =====
-- `Watcher::eventThread` of src/App/Watcher.cpp: one round takes an event from the queue and calls
-- the reader's handler for it. `waitPop` waits until `tryPop` has an event.
pub mod Drain
use aidt.Prelude.{ℕ, zero, suc, Bool, true, false, List, Option, none, some, if◌then◌else◌}
use aidt.Adbase.{QueueOps}
use aidt.Events.{InotifyEvent, delete, move_self, modify, move_to, stop}

-- The handlers that are set by `setReadHandler` and its like, over the state `S` of the reader.
pub record Handlers (S : Type 0) : Type 0 where
  pub read_handler : InotifyEvent → S → S × Bool
  pub clear_handler : InotifyEvent → S → S
  pub move_self_handler : InotifyEvent → S → S
  pub move_to_handler : InotifyEvent → S → S

-- The thread waits for an event, goes on, or ends.
pub data Next (S : Type 0) : Type 0 where
  waits : Next S
  runs : List InotifyEvent → S → Next S
  stops : List InotifyEvent → S → Next S

module _ (q : QueueOps InotifyEvent) {S : Type 0} (h : Handlers S) where
  -- One round of `Watcher::eventThread`
  pub event_round : List InotifyEvent → S → Next S
  event_round queue s = elim (q.try_pop queue) [
    | none ↦ waits
    | some (item, rest) ↦
        let item' = record item { event = modify } in
        let after = h.read_handler item s in
        elim item.event [
          | delete ↦ runs rest (h.clear_handler item s)
          | move_self ↦ runs (q.push rest item') (h.move_self_handler item' s)
          | modify ↦ runs (if after.1 then q.push rest item else rest) after.0
          | move_to ↦ runs (q.push rest item') (h.move_to_handler item' s)
          | stop ↦ stops rest s
        ]
  ]

  -- The loop of `Watcher::eventThread`, for a number of rounds: what it leaves when it ends.
  pub event_thread : ℕ → List InotifyEvent → S → Option (List InotifyEvent × S)
  event_thread zero queue s = none
  event_thread (suc fuel) queue s = elim (event_round queue s) [
    | waits ↦ none
    | runs queue' s' ↦ event_thread fuel queue' s'
    | stops queue' s' ↦ some (queue', s')
  ]
