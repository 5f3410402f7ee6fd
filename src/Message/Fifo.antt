-- ===== src/Message/Fifo.antt =====
-- Runs of the message queue of src/App/Message.cpp: the receivers' and the producer's calls, in any
-- order.
use aidt.Prelude.{
  ℕ, ◌≡◌, refl, List, [], ◌∷◌, ◌++◌, Bytes, map, append-nil, append_assoc, arith, if◌then◌else◌,
}
use mathlib.Core.List.{map-append}
use aidt.Adbase.{QueueOps, IsFifo}
use aidt.DataStore.{MessageItem}
use aidt.Settings.{AdbaseConfig}
use aidt.Message.{set_message, send, Outgoing}
use aidt.Message.Bounds.{queued}

pub data Call : Type 0 where
  sets : Bytes → ℕ → Bytes → Call
  sends : Call

-- The queue, the items that `setMessage` accepted, and what `send` handed out, oldest first.
pub record Trace : Type 0 where
  pub queue : List MessageItem
  pub accepted : List MessageItem
  pub delivered : List Outgoing

abbrev pub outgoing : MessageItem → Outgoing
outgoing item = record {
  topic_name = item.topic_name;
  part_id = item.part_id;
  message = item.message;
}

abbrev nothing : Outgoing
nothing = record { topic_name = []; part_id = 0; message = [] }

abbrev pub start : List MessageItem → Trace
start queue = record { queue = queue; accepted = []; delivered = [] }

module _ (q : QueueOps MessageItem) (conf : AdbaseConfig) where
  pub step : Trace → Call → Trace
  step t (sets topic_name part_id message) =
      let (queue, done) = set_message q conf t.queue topic_name part_id message in
      record t {
        queue = queue;
        accepted =
            if done then t.accepted ++ queued topic_name part_id message ∷ [] else t.accepted;
      }
  step t sends =
      let (queue, out, done) = send q t.queue nothing in
      record t { queue = queue; delivered = if done then t.delivered ++ out ∷ [] else t.delivered }

  pub run : Trace → List Call → Trace
  run t [] = t
  run t (c ∷ cs) = run (step t c) cs

module _ (q : QueueOps MessageItem) (fifo : IsFifo q) (conf : AdbaseConfig)
    (first : List MessageItem) where
  abbrev Conserves : Trace → Type 0
  Conserves t = t.delivered ++ map outgoing t.queue ≡ map outgoing (first ++ t.accepted)

  sends-Conserves :
      (t : Trace) (queue : List MessageItem)
      → t.queue ≡ queue
      → Conserves t
      → Conserves (step q conf t sends)
  unfolding step send
  sends-Conserves t [] e c = ground (arith, fifo.try_pop-nil)
  sends-Conserves t (item ∷ rest) e c = ground (
    arith,
    fifo.try_pop-cons item rest,
    append_assoc t.delivered (outgoing item ∷ []) (map outgoing rest),
  )

  sets-Conserves :
      (t : Trace) (topic_name : Bytes) (part_id : ℕ) (message : Bytes)
      → Conserves t
      → Conserves (step q conf t (sets topic_name part_id message))
  unfolding step set_message
  sets-Conserves t topic_name part_id message c =
      let item = queued topic_name part_id message in
      ground (
        arith,
        fifo.push_lem t.queue item,
        map-append outgoing t.queue (item ∷ []),
        append_assoc t.delivered (map outgoing t.queue) (outgoing item ∷ []),
        append_assoc first t.accepted (item ∷ []),
        map-append outgoing (first ++ t.accepted) (item ∷ []),
      )

  run-Conserves : (t : Trace) (cs : List Call) → Conserves t → Conserves (run q conf t cs)
  unfolding run
  run-Conserves t [] c = c
  run-Conserves t (sets topic_name part_id message ∷ cs) c =
      run-Conserves (step q conf t (sets topic_name part_id message)) cs
        (sets-Conserves t topic_name part_id message c)
  run-Conserves t (sends ∷ cs) c =
      run-Conserves (step q conf t sends) cs (sends-Conserves t t.queue refl c)

  -- Over any sequence of `setMessage` and `send` calls, what was handed out, followed by what is
  -- still queued, is what was queued at first, followed by what was accepted: topics, partitions and
  -- messages are handed out in the order in which they came, none twice and none left out.
  pub run_fifo :
      (cs : List Call)
      → let t = run q conf (start first) cs in
        t.delivered ++ map outgoing t.queue ≡ map outgoing (first ++ t.accepted)
  run_fifo cs = run-Conserves (start first) cs (rw append-nil refl)
