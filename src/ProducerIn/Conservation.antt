-- ===== src/ProducerIn/Conservation.antt =====
-- What becomes of a message that the producer of src/Aims/Kafka/ProducerIn.cpp takes from the queue of
-- src/App/Message.cpp.
use aidt.Prelude.{
  ℕ, ◌≡◌, ◌≢◌, ◌⊎◌, inl, inr, refl, Bool-cases, true, false, List, [], ◌∷◌, ◌++◌, some, bytes_eq,
  get_or_else, if◌then◌else◌,
}
use aidt.Prelude.Table.{find}
use aidt.Adbase.{BufferOps, QueueOps, IsFifo}
use aidt.Files.{Disk, find-append_file}
use aidt.DataStore.{MessageItem, serialize}
use aidt.Settings.{AdbaseConfig}
use aidt.Message.{Outgoing, error_callback}
use aidt.Message.Errors.{
  send-cons, send-nil, failed_item, error_callback_writes, error_callback_skips,
}
use aidt.App.{TopicMap, check_valid}
use aidt.App.Topics.{check_valid-nil}
use aidt.Message.Fifo.{outgoing}
use aidt.ProducerIn.{State, send, running}

module _ (b : BufferOps) (q : QueueOps MessageItem) (fifo : IsFifo q) (conf : AdbaseConfig)
    (live : TopicMap) (junk : ℕ) where
  sent_item :
      (item : MessageItem) (rest : List MessageItem) (topics : TopicMap) (disk : Disk)
      (out : Outgoing)
      → let checked = check_valid live topics item.topic_name item.part_id in
        send b q conf running live junk
          (record { queue = item ∷ rest; topics = topics; disk = disk })
          out
        ≡ (if checked.1
            then (record { queue = rest; topics = checked.0; disk = disk }, outgoing item, true)
            else (
              record {
                queue = rest;
                topics = checked.0;
                disk = error_callback b conf junk disk (outgoing item);
              },
              outgoing item,
              false,
            ))
  unfolding send
  sent_item item rest topics disk out = simp (send-cons q fifo item rest out)

  -- The oldest item is taken, whatever the check says of it; where there is none nothing is taken.
  pub send_takes :
      (item : MessageItem) (rest : List MessageItem) (topics : TopicMap) (disk : Disk)
      (out : Outgoing)
      → let (after, sent, ret) =
          send b q conf running live junk
            (record { queue = item ∷ rest; topics = topics; disk = disk })
            out in
        (after.queue ≡ rest) × (sent ≡ outgoing item)
  send_takes item rest topics disk out =
      rw (sent_item item rest topics disk out)
        (elim (Bool-cases (check_valid live topics item.topic_name item.part_id).1) [
          | inl e ↦ rw e (refl, refl)
          | inr e ↦ rw e (refl, refl)
        ])

  pub send_stays :
      (topics : TopicMap) (disk : Disk) (out : Outgoing)
      → (send b q conf running live junk
          (record { queue = []; topics = topics; disk = disk })
          out).0.queue
        ≡ []
  unfolding send
  send_stays topics disk out =
      elim (Bool-cases (check_valid live topics out.topic_name out.part_id).1) [
        | inl e ↦ rw (send-nil q fifo out, e) refl
        | inr e ↦ rw (send-nil q fifo out, e) refl
      ]

  -- The producer asks for a message while the program is running and `item`, with a topic and a
  -- content, is the oldest of the queue. Then `item` leaves the queue, and it is either handed out,
  -- with the disk as it was, or, if its topic and partition do not pass the check, its record stands
  -- behind what the error file held, provided that this file can be opened.
  pub send_conserves :
      (item : MessageItem) (rest : List MessageItem) (topics : TopicMap) (disk : Disk)
      (out : Outgoing)
      → item.topic_name ≢ []
      → item.message ≢ []
      → disk.writable conf.message_send_error ≡ true
      → let s : State = record { queue = item ∷ rest; topics = topics; disk = disk } in
        let (after, sent, ret) = send b q conf running live junk s out in
        (after.queue ≡ rest)
        × (((ret ≡ true) × (sent ≡ outgoing item) × (after.disk ≡ disk))
            ⊎ ((ret ≡ false)
                × ((check_valid live topics item.topic_name item.part_id).1 ≡ false)
                × (find conf.message_send_error after.disk.files
                    ≡ some (
                        get_or_else (find conf.message_send_error disk.files) []
                        ++ serialize b [] (failed_item junk item)))))
  send_conserves item rest topics disk out named full open_ok =
      rw (sent_item item rest topics disk out)
        (elim (Bool-cases (check_valid live topics item.topic_name item.part_id).1) [
          | inl e ↦ rw e (refl, inl (refl, refl, refl))
          | inr e ↦
              rw (e, error_callback_writes b conf junk disk item named full)
                (
                  refl,
                  inr (
                    refl,
                    refl,
                    find-append_file disk conf.message_send_error
                        (serialize b [] (failed_item junk item)) open_ok,
                  ),
                )
        ])

  -- With nothing queued and no topic in the caller's variables nothing changes, and nothing is handed
  -- out.
  pub send_idle :
      (topics : TopicMap) (disk : Disk) (out : Outgoing)
      → out.topic_name ≡ []
      → let s : State = record { queue = []; topics = topics; disk = disk } in
        send b q conf running live junk s out ≡ (s, out, false)
  unfolding send
  send_idle topics disk out e = simp (
    send-nil q fifo out,
    check_valid-nil live topics out.topic_name out.part_id e,
    error_callback_skips b conf junk disk out e,
  )
