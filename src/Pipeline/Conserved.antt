-- ===== src/Pipeline/Conserved.antt =====
-- No message is lost, doubled or overtaken on its way from those who queue it to the producer.
use aidt.Prelude.{
  ℕ, ◌≡◌, sym, ap, ◌∙◌, Bool, List, [], ◌∷◌, ◌++◌, Bytes, length, drop, map, append-nil,
  append_assoc, drop-append,
}
use mathlib.Core.List.{map-append}
use aidt.Adbase.{BufferOps, IsBuffer, QueueOps, IsFifo}
use aidt.DataStore.{FdItem, MessageItem}
use aidt.Settings.{AdbaseConfig}
use aidt.Message.{Outgoing, load_message}
use aidt.Message.Fifo.{outgoing}
use aidt.App.{TopicMap}
use aidt.Reader.Format.{Memory}
use aidt.ProducerIn.{running, send}
use aidt.ProducerIn.Conservation.{send_takes, send_stays}
use aidt.McProcessor.Commands.{command}
use aidt.Http.{index}
use aidt.Pipeline.{
  Flow, inbox_of, state_of, grown_by, taken_of, Step, Reach, reads, commands, requests, resends,
  sends, fails, start, later,
}
use aidt.Pipeline.Grown.{Grown, Grown-read}
use aidt.Pipeline.Received.{Grown-command, Grown-index, Grown-load_message}

abbrev pub messages_of : List (Outgoing × Bool) → List Outgoing
messages_of taken = map (λ e. e.0) taken

module _ (b : BufferOps) (buffers : IsBuffer b) (q : QueueOps MessageItem) (fifo : IsFifo q)
    (conf : AdbaseConfig) (mem : Memory) (junk : FdItem) (explode : Bytes → ℕ → Bool → List Bytes)
    (version_text : Bytes) (first : List MessageItem) where
  abbrev pub Conserved : List (Outgoing × Bool) → List MessageItem → List MessageItem → Type 0
  Conserved taken queue accepted =
      messages_of taken ++ map outgoing queue ≡ map outgoing (first ++ accepted)

  pub Conserved-Grown :
      (s : Flow) (queue : List MessageItem)
      → Grown s.queue queue
      → Conserved s.taken s.queue s.accepted
      → Conserved s.taken queue (grown_by s queue)
  Conserved-Grown s queue (new, e) held =
      ap (λ x. messages_of s.taken ++ map outgoing x) e
      ∙ ap (◌++◌ (messages_of s.taken)) (map-append outgoing s.queue new)
      ∙ sym (append_assoc (messages_of s.taken) (map outgoing s.queue) (map outgoing new))
      ∙ ap (λ x. x ++ map outgoing new) held
      ∙ sym (map-append outgoing (first ++ s.accepted) new)
      ∙ ap (map outgoing) (append_assoc first s.accepted new)
      ∙ ap (λ x. map outgoing (first ++ (s.accepted ++ x)))
          (sym (ap (drop (length s.queue)) e ∙ drop-append s.queue new))

  -- The producer takes the oldest item, or nothing.
  Conserved-sends :
      (s : Flow) (queue : List MessageItem) (live : TopicMap) (any : ℕ) (out : Outgoing)
      → Conserved s.taken queue s.accepted
      → let (after, sent, ret) =
          send b q conf running live any (record (state_of s) { queue = queue }) out in
        Conserved (s.taken ++ taken_of queue sent ret) after.queue s.accepted
  Conserved-sends s [] live any out held =
      ap
        (λ t.
          messages_of t
          ++ map outgoing
              (send b q conf running live any (record (state_of s) { queue = [] }) out).0.queue)
        (append-nil s.taken)
      ∙ ap (λ x. messages_of s.taken ++ map outgoing x)
          (send_stays b q fifo conf live any s.topics s.disk out)
      ∙ held
  Conserved-sends s (item ∷ rest) live any out held =
      let (after, sent, ret) =
        send b q conf running live any (record (state_of s) { queue = item ∷ rest }) out in
      let (left, took) = send_takes b q fifo conf live any item rest s.topics s.disk out in
      ap (λ x. x ++ map outgoing after.queue) (map-append (λ e. e.0) s.taken ((sent, ret) ∷ []))
      ∙ append_assoc (messages_of s.taken) (sent ∷ []) (map outgoing after.queue)
      ∙ ap (λ x. messages_of s.taken ++ (x ∷ map outgoing after.queue)) took
      ∙ ap (λ x. messages_of s.taken ++ (outgoing item ∷ map outgoing x)) left
      ∙ held

  pub Conserved-Step :
      (s t : Flow)
      → Conserved s.taken s.queue s.accepted
      → Step b q conf mem junk explode version_text s t
      → Conserved t.taken t.queue t.accepted
  Conserved-Step s t held (reads w contents event r c reading h) =
      Conserved-Grown s reading.queue
        (Grown-read q fifo conf b buffers mem w junk contents event r c s.queue reading h) held
  Conserved-Step s t held (commands context live c) =
      let after = (command b q conf explode version_text context live (inbox_of s) c).0 in
      Conserved-Grown s after.queue
        (Grown-command q fifo conf explode live (inbox_of s) b version_text context c) held
  Conserved-Step s t held (requests context live request) =
      Conserved-Grown s (index q conf context live (inbox_of s) request).0.queue
        (Grown-index q fifo conf context live (inbox_of s) request) held
  Conserved-Step s t held resends =
      Conserved-Grown s (load_message b q conf s.disk s.queue).1
        (Grown-load_message q fifo conf b s.disk s.queue) held
  Conserved-Step s t held (sends live any out) = Conserved-sends s s.queue live any out held
  Conserved-Step s t held (fails any out) = held

  -- For buffers and queues as documented: whatever the reader, the receivers, resends of the message
  -- file and the producer do, in any order and with any answers of Kafka, the messages that the producer
  -- took, in their order, followed by those that are still queued, are those that were queued at first,
  -- followed by those that came into the queue: none is lost, doubled, changed or overtaken.
  pub conserved_lem :
      (s t : Flow)
      → s.queue ≡ first
      → s.accepted ≡ []
      → s.taken ≡ []
      → Reach b q conf mem junk explode version_text s t
      → messages_of t.taken ++ map outgoing t.queue ≡ map outgoing (first ++ t.accepted)
  conserved_lem s t queued none_in none_out start =
      ap (λ x. messages_of x ++ map outgoing s.queue) none_out
      ∙ ap (map outgoing) (queued ∙ sym (append-nil first))
      ∙ ap (λ x. map outgoing (first ++ x)) (sym none_in)
  conserved_lem s t queued none_in none_out (later before step) =
      Conserved-Step _ t (conserved_lem s _ queued none_in none_out before) step
