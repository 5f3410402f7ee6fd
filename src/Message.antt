-- ===== src/Message.antt =====
-- src/App/Message.cpp: the queue between the receivers and the Kafka producer. The mutex is held for
-- a whole call of `errorCallback`, `saveMessage` and `loadMessage`; the other two make one queue
-- call each that changes the queue. The rate metric is not modelled.
pub mod Bounds
pub mod Fifo
pub mod Errors
use aidt.Prelude.{
  ℕ, Bool, true, false, ◌||◌, List, [], Option, none, some, Bytes, to_int, ltb_ℤ, length, nat_beq,
  if◌then◌else◌,
}
use aidt.Adbase.{BufferOps, QueueOps}
use aidt.Files.{Disk}
use aidt.DataStore
use aidt.DataStore.{MessageItem, save_item}
use aidt.Settings.{AdbaseConfig}

-- The arguments that `send` fills in for its caller.
pub record Outgoing : Type 0 where
  pub topic_name : Bytes
  pub part_id : ℕ
  pub message : Bytes

abbrev pub is_empty : Bytes → Bool
is_empty [] = true
is_empty _ = false

module _ (q : QueueOps MessageItem) where
  -- `Message::send`: the caller's variables keep their values when the queue is empty.
  pub send : List MessageItem → Outgoing → List MessageItem × Outgoing × Bool
  send queue out = elim (q.try_pop queue) [
    | none ↦ (queue, out, false)
    | some (item, rest) ↦ (
      rest,
      record { topic_name = item.topic_name; part_id = item.part_id; message = item.message },
      true,
    )
  ]

  -- `Message::setMessage`. In the source the test and the push are two calls of the queue, between
  -- which other receivers may push; here they are one step. `loadMessage` pushes without the test.
  unfoldable pub set_message :
      AdbaseConfig → List MessageItem → Bytes → ℕ → Bytes → List MessageItem × Bool
  set_message conf queue topic_name part_id message =
      if ltb_ℤ conf.message_queue_limit (to_int (q.get_size queue)) then (queue, false) else (
        q.push queue
            (record { part_id = part_id; try_num = 0; topic_name = topic_name; message = message }),
        true,
      )

module _ (b : BufferOps) where
  -- `Message::errorCallback`. `try_num` is not assigned there: `junk` is what the item holds.
  pub error_callback : AdbaseConfig → ℕ → Disk → Outgoing → Disk
  error_callback conf junk disk out =
      if is_empty out.topic_name || nat_beq (length out.message) 0
      then disk
      else save_item b disk conf.message_send_error (record {
        part_id = out.part_id;
        try_num = junk;
        topic_name = out.topic_name;
        message = out.message;
      })

  module _ (q : QueueOps MessageItem) (conf : AdbaseConfig) where
    -- `Message::saveMessage`
    unfoldable pub save_message : Disk → List MessageItem → Disk × List MessageItem
    save_message disk queue = DataStore.save_message b q disk conf.message_send_error queue

    -- `Message::loadMessage`
    unfoldable pub load_message : Disk → List MessageItem → Disk × List MessageItem
    load_message disk queue = DataStore.load_message b q disk conf.message_send_error queue
