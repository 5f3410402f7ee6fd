-- ===== src/McProcessor/Store.antt =====
-- What a `set` of src/McProcessor.cpp stores.
use aidt.Prelude.{
  ℕ, ◌≡◌, ◌⊎◌, refl, Bool, true, false, List, [], ◌∷◌, ◌++◌, Option, none, some, Bytes, length,
  arith, pos, ◌≤◌, ◌<◌, ◌^◌,
}
use aidt.Adbase.{QueueOps, IsFifo}
use aidt.DataStore.{MessageItem}
use aidt.Settings.{AdbaseConfig}
use aidt.Message.Bounds.{queued, set_message_lem}
use aidt.App.{TopicMap, check_valid}
use aidt.ProducerIn.{running}
use aidt.McProcessor.{Inbox, Status, success, not_stored, auth_error, set, store, parse_key}

module _ (q : QueueOps MessageItem) (fifo : IsFifo q) (conf : AdbaseConfig)
    (explode : Bytes → ℕ → Bool → List Bytes) (limit : ℕ)
    (limited : conf.message_queue_limit ≡ pos limit) where
  -- What a reply says of the queue, for a key that names `topic` and `part_id`.
  abbrev pub Answers : TopicMap → Inbox → Bytes → ℕ → Bytes → Inbox × Status → Type 0
  Answers live s topic part_id text r =
      let valid = (check_valid live s.topics topic part_id).1 in
      ((r.1 ≡ success)
        × (valid ≡ true)
        × (length s.queue ≤ limit)
        × (r.0.queue ≡ s.queue ++ queued topic part_id text ∷ []))
      ⊎ ((r.1 ≡ not_stored) × (valid ≡ true) × (limit < length s.queue) × (r.0.queue ≡ s.queue))
      ⊎ ((r.1 ≡ auth_error) × (valid ≡ false) × (r.0.queue ≡ s.queue))

  store-Answers :
      (live : TopicMap) (s : Inbox) (topic : Bytes) (part_id : ℕ) (text : Bytes)
      → length s.queue < 2 ^ 31
      → Answers live s topic part_id text (store q conf explode live s topic part_id text)
  unfolding store
  store-Answers live s topic part_id text small =
      ground (arith, set_message_lem q fifo conf limit limited s.queue topic part_id text small)

  -- The reply to a key that names a topic and a partition, and to one that does not.
  abbrev pub ByKey : TopicMap → Inbox → Bytes → Option (Bytes × ℕ) → Inbox × Status → Type 0
  ByKey live s text none r = r ≡ (s, auth_error)
  ByKey live s text (some (topic, part_id)) r = Answers live s topic part_id text r

  -- While the program is running, and the queue is shorter than 2 ^ 31: a key that does not name a
  -- topic and a partition is answered with `AUTH_ERROR` and changes nothing. Any other `set` is
  -- answered with success exactly when the topic and the partition pass the check and the queue
  -- holds at most `limit` messages, and then the data is the last message of the queue, under that
  -- topic and partition; a full queue is answered with `NOT_STORED`, a failed check with
  -- `AUTH_ERROR`, and both leave the queue as it was.
  pub set_stores :
      (live : TopicMap) (s : Inbox) (key text : Bytes)
      → length s.queue < 2 ^ 31
      → ByKey live s text
          (parse_key (explode key b'#' true))
          (set q conf explode running live s key text)
  unfolding set
  set_stores live s key text small = by_key (parse_key (explode key b'#' true))
    where
      by_key :
          (o : Option (Bytes × ℕ))
          → ByKey live s text o (elim o [
            | none ↦ (s, auth_error)
            | some (topic, part_id) ↦ store q conf explode live s topic part_id text
          ])
      by_key none = refl
      by_key (some (topic, part_id)) = store-Answers live s topic part_id text small
