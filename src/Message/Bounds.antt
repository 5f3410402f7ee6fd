-- ===== src/Message/Bounds.antt =====
-- The limit of the message queue of src/App/Message.cpp.
use aidt.Prelude.{
  refl, Bool-cases, ltb_ℤ, to_int, ◌⊎◌, inl, inr, ℕ, ◌^◌, ◌≤◌, ◌<◌, ◌≡◌, true, false, List, [], ◌∷◌,
  ◌++◌, pos, Bytes, length, arith,
}
use aidt.Adbase.{QueueOps, IsFifo}
use aidt.DataStore.{MessageItem}
use aidt.Settings.{AdbaseConfig}
use aidt.Message.{set_message}

abbrev pub queued : Bytes → ℕ → Bytes → MessageItem
queued topic_name part_id message = record {
  part_id = part_id;
  try_num = 0;
  topic_name = topic_name;
  message = message;
}

pub set_message_accepted :
    (q : QueueOps MessageItem) (fifo : IsFifo q) (conf : AdbaseConfig)
    (queue queue' : List MessageItem) (topic_name : Bytes) (part_id : ℕ) (message : Bytes)
    → set_message q conf queue topic_name part_id message ≡ (queue', true)
    → queue' ≡ queue ++ queued topic_name part_id message ∷ []
unfolding set_message
set_message_accepted q fifo conf queue queue' topic_name part_id message h =
    ground (arith, h, fifo.push_lem queue (queued topic_name part_id message))

pub set_message_refused :
    (q : QueueOps MessageItem) (conf : AdbaseConfig) (queue queue' : List MessageItem)
    (topic_name : Bytes) (part_id : ℕ) (message : Bytes)
    → set_message q conf queue topic_name part_id message ≡ (queue', false)
    → queue' ≡ queue
unfolding set_message
set_message_refused q conf queue queue' topic_name part_id message h = ground (arith, h)

module _ (q : QueueOps MessageItem) (fifo : IsFifo q) (conf : AdbaseConfig) (limit : ℕ)
    (limited : conf.message_queue_limit ≡ pos limit) where
  -- For a limit that an `int` holds and a queue of fewer than 2 ^ 31 items: either at most `limit`
  -- items are queued, and `setMessage` adds the message as the last item and returns true; or more
  -- are, and it leaves the queue as it was and returns false.
  pub set_message_lem :
      (queue : List MessageItem) (topic_name : Bytes) (part_id : ℕ) (message : Bytes)
      → length queue < 2 ^ 31
      → ((length queue ≤ limit)
          × (set_message q conf queue topic_name part_id message
              ≡ (queue ++ queued topic_name part_id message ∷ [], true)))
        ⊎ ((limit < length queue)
            × (set_message q conf queue topic_name part_id message ≡ (queue, false)))
  unfolding set_message
  set_message_lem queue topic_name part_id message small =
      elim (Bool-cases (ltb_ℤ conf.message_queue_limit (to_int (q.get_size queue)))) [
        | inl e ↦ inr (ground (arith, e, limited, fifo.get_size_lem queue), rw e refl)
        | inr e ↦ inl (
          ground (arith, e, limited, fifo.get_size_lem queue),
          rw (e, fifo.push_lem queue (queued topic_name part_id message)) refl,
        )
      ]
