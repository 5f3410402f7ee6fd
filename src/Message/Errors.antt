-- ===== src/Message/Errors.antt =====
-- `errorCallback` and one `send` of src/App/Message.cpp.
use aidt.Prelude.{ℕ, ◌≡◌, ◌≢◌, refl, true, false, List, [], ◌∷◌, Bytes, length, arith}
use aidt.Adbase.{BufferOps, QueueOps, IsFifo}
use aidt.Files.{Disk, append_file}
use aidt.DataStore.{MessageItem, serialize, save_item}
use aidt.Settings.{AdbaseConfig}
use aidt.Message.{Outgoing, error_callback, is_empty, send}
use aidt.Message.Fifo.{outgoing}

pub send-cons :
    (q : QueueOps MessageItem)
    → IsFifo q
    → (item : MessageItem) (rest : List MessageItem) (out : Outgoing)
    → send q (item ∷ rest) out ≡ (rest, outgoing item, true)
unfolding send
send-cons q fifo item rest out = rw (fifo.try_pop-cons item rest, send)

pub send-nil :
    (q : QueueOps MessageItem) → IsFifo q → (out : Outgoing) → send q [] out ≡ ([], out, false)
unfolding send
send-nil q fifo out = rw (fifo.try_pop-nil, send)

is_empty-false : (s : Bytes) → s ≢ [] → is_empty s ≡ false
is_empty-false [] h = absurd (h refl)
is_empty-false (c ∷ s) h = refl

-- What `errorCallback` makes of an item: the try count is what the fresh item holds.
abbrev pub failed_item : ℕ → MessageItem → MessageItem
failed_item junk item = record item { try_num = junk }

-- A message with a topic and a content is appended to the error file.
pub error_callback_writes :
    (b : BufferOps) (conf : AdbaseConfig) (junk : ℕ) (disk : Disk) (item : MessageItem)
    → item.topic_name ≢ []
    → item.message ≢ []
    → error_callback b conf junk disk (outgoing item)
      ≡ append_file disk conf.message_send_error (serialize b [] (failed_item junk item))
unfolding error_callback save_item
error_callback_writes b conf junk disk item named full =
    ground (arith, is_empty-false item.topic_name named, nonzero item.message full)
  where
    nonzero : (s : Bytes) → s ≢ [] → length s ≢ 0
    nonzero [] h = absurd (h refl)
    nonzero (c ∷ s) h = omega arith

-- One without is passed over.
pub error_callback_skips :
    (b : BufferOps) (conf : AdbaseConfig) (junk : ℕ) (disk : Disk) (out : Outgoing)
    → out.topic_name ≡ []
    → error_callback b conf junk disk out ≡ disk
unfolding error_callback
error_callback_skips b conf junk disk out e = rw e
