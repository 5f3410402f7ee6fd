-- ===== src/Http/Store.antt =====
-- What a request to src/Http/Message.cpp stores.
use aidt.Prelude.{
  ℕ, ◌≡◌, ◌≢◌, ◌⊎◌, inl, inr, true, false, [], ◌∷◌, ◌++◌, Bytes, length, arith, pos, ◌≤◌, ◌<◌, ◌^◌,
}
use aidt.Adbase.{QueueOps, IsFifo}
use aidt.DataStore.{MessageItem}
use aidt.Settings.{AdbaseConfig}
use aidt.Message.{is_empty}
use aidt.Message.Bounds.{queued, set_message_lem}
use aidt.App.{TopicMap, check_valid}
use aidt.ProducerIn.{running}
use aidt.McProcessor.{Inbox}
use aidt.Http.{Request, index, query_part}

query_part-ne-zero : (s : Bytes) → query_part s ≢ 0
unfolding query_part
query_part-ne-zero s = ground arith

module _ (q : QueueOps MessageItem) (fifo : IsFifo q) (conf : AdbaseConfig) (limit : ℕ)
    (limited : conf.message_queue_limit ≡ pos limit) where
  -- While the program is running, and the queue is shorter than 2 ^ 31: either the request has a
  -- topic and data, the topic and the partition pass the check, and the queue holds at most `limit`
  -- messages, and then the reply is code 0 and the data is the last message of the queue, under that
  -- topic and partition; or one of these fails, and then the code is 1000 and the queue as it was.
  pub index_stores :
      (live : TopicMap) (s : Inbox) (request : Request)
      → length s.queue < 2 ^ 31
      → let r = index q conf running live s request in
        let part_id = query_part request.part_id in
        let valid = (check_valid live s.topics request.topic_name part_id).1 in
        ((is_empty request.topic_name ≡ false)
          × (is_empty request.text ≡ false)
          × (valid ≡ true)
          × (length s.queue ≤ limit)
          × (r.1.ret ≡ 0)
          × (r.0.queue ≡ s.queue ++ queued request.topic_name part_id request.text ∷ []))
        ⊎ (((is_empty request.topic_name ≡ true)
              ⊎ (is_empty request.text ≡ true)
              ⊎ (valid ≡ false)
              ⊎ (limit < length s.queue))
            × (r.1.ret ≡ 1000)
            × (r.0.queue ≡ s.queue))
  unfolding index
  index_stores live s request small =
      let part_id = query_part request.part_id in
      ground (
        arith,
        set_message_lem q fifo conf limit limited s.queue request.topic_name part_id request.text
            small,
      )

  -- While the program is running, and the queue is shorter than 2 ^ 31: a request is either refused, and the queue is as it was, or its data is the
  -- last message of the queue under a partition that is not 0: a `part_id` of 0 names any partition,
  -- as one that is missing or is no number does.
  pub index_ne_zero :
      (live : TopicMap) (s : Inbox) (request : Request)
      → length s.queue < 2 ^ 31
      → let r = index q conf running live s request in
        ((r.1.ret ≡ 1000) × (r.0.queue ≡ s.queue))
        ⊎ ((part_id : ℕ) × (part_id ≢ 0)
            × (r.1.ret ≡ 0)
            × (r.0.queue ≡ s.queue ++ queued request.topic_name part_id request.text ∷ []))
  index_ne_zero live s request small = elim (index_stores live s request small) [
    | inl (a, e, d, f, ok, at_queue) ↦
        inr (query_part request.part_id, query_part-ne-zero request.part_id, ok, at_queue)
    | inr (why, refused, at_queue) ↦ inl (refused, at_queue)
  ]
