-- ===== src/ProducerIn.antt =====
-- src/Aims/Kafka/ProducerIn.cpp: what the Kafka producer calls for a message to send, and when a
-- message could not be sent.
pub mod Conservation
use aidt.Prelude.{ℕ, Bool, true, false, List, Bytes, if◌then◌else◌}
use aidt.Adbase.{BufferOps, QueueOps}
use aidt.Files.{Disk}
use aidt.DataStore.{MessageItem}
use aidt.Settings.{AdbaseConfig}
use aidt.Message.{Outgoing, error_callback}
use aidt.Message
use aidt.App.{TopicMap, check_valid}

-- The pointers of an `AdServerContext` or an `AimsContext` that are null until the program has
-- started.
pub record Context : Type 0 where
  pub has_app : Bool
  pub has_message : Bool

abbrev pub running : Context
running = record { has_app = true; has_message = true }

pub record State : Type 0 where
  pub queue : List MessageItem
  pub topics : TopicMap
  pub disk : Disk

module _ (b : BufferOps) (q : QueueOps MessageItem) (conf : AdbaseConfig) where
  -- `ProducerIn::send`. `out` holds the caller's variables; `live` is what `getTopics` returns.
  pub send : Context → TopicMap → ℕ → State → Outgoing → State × Outgoing × Bool
  send context live junk s out =
      if context.has_message
      then (if context.has_app
          then (let (queue, sent, ret) = Message.send q s.queue out in
              let (topics, valid) = check_valid live s.topics sent.topic_name sent.part_id in
              if valid then (record s { queue = queue; topics = topics }, sent, ret) else (
                record {
                  queue = queue;
                  topics = topics;
                  disk = error_callback b conf junk s.disk sent;
                },
                sent,
                false,
              ))
          else (s, out, false))
      else (s, out, false)

  -- `ProducerIn::errorCallback`
  pub on_error : Context → ℕ → State → Outgoing → State
  on_error context junk s out =
      if context.has_message then record s { disk = error_callback b conf junk s.disk out } else s
