-- ===== src/Pipeline/Received.antt =====
-- What the receivers and the message file put behind the messages that are queued.
use aidt.Prelude.{
  ℕ, zero, suc, inl, inr, Bool, true, not, ◌||◌, List, [], ◌∷◌, Bytes, length, Option-cases,
  Bool-cases, Yields, map-Yields, bytes_eq, get_or_else-Yields,
}
use aidt.Prelude.Table.{find}
use aidt.Adbase.{BufferOps, QueueOps, IsFifo}
use aidt.Files.{Disk}
use aidt.DataStore.{MessageItem, read_message, load_message_loop}
use aidt.DataStore
use aidt.Settings.{AdbaseConfig}
use aidt.Message.{load_message, is_empty}
use aidt.App.{TopicMap, check_valid}
use aidt.ProducerIn.{Context}
use aidt.McProcessor.{Inbox, parse_key, store}
use aidt.McProcessor
use aidt.McProcessor.Commands.{
  Command, command, add, append, decrement, delete_op, flush, get, increment, prepend, noop, quit,
  replace, set, version, verbosity, stat,
}
use aidt.Http.{Request, query_part, index}
use aidt.Pipeline.Grown.{Grown, Grown-refl, Grown-trans, Grown-set_message}

module _ (q : QueueOps MessageItem) (fifo : IsFifo q) (conf : AdbaseConfig) where
  module _ (explode : Bytes → ℕ → Bool → List Bytes) (live : TopicMap) (s : Inbox) where
    Grown-store :
        (topic : Bytes) (part_id : ℕ) (text : Bytes)
        → Grown s.queue (store q conf explode live s topic part_id text).0.queue
    unfolding store
    Grown-store topic part_id text = elim (Bool-cases (check_valid live s.topics topic part_id).1) [
      | inl e ↦ rw (e, store) (Grown-set_message q fifo conf s.queue topic part_id text)
      | inr e ↦ rw (e, store) (Grown-refl s.queue)
    ]

    Grown-set :
        (context : Context) (key text : Bytes)
        → Grown s.queue (McProcessor.set q conf explode context live s key text).0.queue
    unfolding McProcessor.set
    Grown-set context key text = elim (Bool-cases context.has_app) [
      | inr e ↦ rw (e, McProcessor.set) (Grown-refl s.queue)
      | inl e ↦ elim (Bool-cases context.has_message) [
        | inr e' ↦ rw (e, e', McProcessor.set) (Grown-refl s.queue)
        | inl e' ↦ elim (Option-cases (parse_key (explode key b'#' true))) [
          | inl bad ↦ rw (e, e', bad, McProcessor.set) (Grown-refl s.queue)
          | inr ((topic, part_id), good) ↦
              rw (e, e', good, McProcessor.set) (Grown-store topic part_id text)
        ]
      ]
    ]

    pub Grown-command :
        (b : BufferOps) (version_text : Bytes) (context : Context) (c : Command)
        → Grown s.queue (command b q conf explode version_text context live s c).0.queue
    unfolding command
    Grown-command b version_text context (set key value flags exptime cas) =
        Grown-set context key value
    Grown-command b version_text context (add key value flags exptime) = Grown-refl s.queue
    Grown-command b version_text context (append key value cas) = Grown-refl s.queue
    Grown-command b version_text context (decrement key delta initial expiration) =
        Grown-refl s.queue
    Grown-command b version_text context (delete_op key cas) = Grown-refl s.queue
    Grown-command b version_text context (flush when) = Grown-refl s.queue
    Grown-command b version_text context (get key) = Grown-refl s.queue
    Grown-command b version_text context (increment key delta initial expiration) =
        Grown-refl s.queue
    Grown-command b version_text context (prepend key value cas) = Grown-refl s.queue
    Grown-command b version_text context noop = Grown-refl s.queue
    Grown-command b version_text context quit = Grown-refl s.queue
    Grown-command b version_text context (replace key value flags exptime cas) = Grown-refl s.queue
    Grown-command b version_text context version = Grown-refl s.queue
    Grown-command b version_text context (verbosity verbose) = Grown-refl s.queue
    Grown-command b version_text context (stat key) = Grown-refl s.queue

  pub Grown-index :
      (context : Context) (live : TopicMap) (s : Inbox) (request : Request)
      → Grown s.queue (index q conf context live s request).0.queue
  unfolding index
  Grown-index context live s request =
      let part_id = query_part request.part_id in
      elim (Bool-cases (not context.has_app || not context.has_message)) [
        | inl e ↦ rw (e, index) (Grown-refl s.queue)
        | inr e ↦ elim (Bool-cases (is_empty request.topic_name)) [
          | inl e1 ↦ rw (e, e1, index) (Grown-refl s.queue)
          | inr e1 ↦ elim (Bool-cases (is_empty request.text)) [
            | inl e2 ↦ rw (e, e1, e2, index) (Grown-refl s.queue)
            | inr e2 ↦ elim (Bool-cases (check_valid live s.topics request.topic_name part_id).1) [
              | inl ok ↦
                  rw (e, e1, e2, ok, index)
                    (Grown-set_message q fifo conf s.queue request.topic_name part_id request.text)
              | inr ok ↦ rw (e, e1, e2, ok, index) (Grown-refl s.queue)
            ]
          ]
        ]
      ]

  module _ (b : BufferOps) where
    Grown-load_message_loop :
        (fuel : ℕ) (ifs : Bytes) (queue : List MessageItem)
        → Yields (Grown queue) (load_message_loop b q fuel ifs queue)
    unfolding load_message_loop
    Grown-load_message_loop zero ifs queue = tt
    Grown-load_message_loop (suc fuel) ifs queue = elim (Option-cases (read_message b ifs)) [
      | inl e ↦ rw (e, load_message_loop) (Grown-refl queue)
      | inr ((item, rest), e) ↦
          rw (e, load_message_loop)
            (map-Yields {P = Grown (q.push queue item)}
              (load_message_loop b q fuel rest (q.push queue item))
              (λ queue' grown.
                Grown-trans queue (q.push queue item) queue' (item ∷ [], fifo.push_lem queue item)
                  grown)
              (Grown-load_message_loop fuel rest (q.push queue item)))
    ]

    pub Grown-load_message :
        (disk : Disk) (queue : List MessageItem) → Grown queue (load_message b q conf disk queue).1
    unfolding load_message DataStore.load_message
    Grown-load_message disk queue = elim (Option-cases (find conf.message_send_error disk.files)) [
      | inl e ↦ rw (e, load_message, DataStore.load_message) (Grown-refl queue)
      | inr (ifs, e) ↦
          rw (e, load_message, DataStore.load_message)
            (get_or_else-Yields (Grown queue) (load_message_loop b q (suc (length ifs)) ifs queue)
              queue (Grown-load_message_loop (suc (length ifs)) ifs queue) (Grown-refl queue))
    ]
