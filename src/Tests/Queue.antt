-- ===== src/Tests/Queue.antt =====
-- The theorems on the queue, its receivers and the producer at concrete inputs.
use aidt.Prelude.{
  ◌<◌, ◌≤◌, ◌≡◌, ◌⊎◌, refl, true, false, [], ◌∷◌, ◌++◌, some, Bytes, length, get_or_else, bytes_eq,
  arith,
}
use aidt.Prelude.Table.{find}
use aidt.DataStore.{serialize}
use aidt.Message.{is_empty, Outgoing}
use aidt.Message.Bounds.{queued}
use aidt.Message.Errors.{failed_item}
use aidt.Message.Fifo.{outgoing}
use aidt.App.{TopicMap, check_valid}
use aidt.ProducerIn.{State, send, running}
use aidt.ProducerIn.Conservation.{send_conserves}
use aidt.McProcessor.{Inbox, set, parse_key}
use aidt.McProcessor.Store.{ByKey, set_stores}
use aidt.Http.{Request, index, query_part}
use aidt.Http.Store.{index_stores}
use aidt.Tests.Instances.{
  buffer_ops, list_queue, list_fifo, text_ops, first_item, second_item, both_items, settings, disk,
}

abbrev topic : Bytes
topic = b't' ∷ []

abbrev text : Bytes
text = b'z' ∷ []

-- Topic `t` has the partitions 0 and 1.
abbrev topics : TopicMap
topics = (topic, 0 ∷ 1 ∷ []) ∷ []

abbrev out : Outgoing
out = record { topic_name = []; part_id = 0; message = [] }

send_conserves_example :
    let s : State = record { queue = both_items; topics = []; disk = disk } in
    let (after, sent, ret) = send buffer_ops list_queue settings running topics 9 s out in
    (after.queue ≡ second_item ∷ [])
    × (((ret ≡ true) × (sent ≡ outgoing first_item) × (after.disk ≡ disk))
        ⊎ ((ret ≡ false)
            × ((check_valid topics [] first_item.topic_name first_item.part_id).1 ≡ false)
            × (find settings.message_send_error after.disk.files
                ≡ some (
                    get_or_else (find settings.message_send_error disk.files) []
                    ++ serialize buffer_ops [] (failed_item 9 first_item)))))
send_conserves_example =
    send_conserves buffer_ops list_queue list_fifo settings topics 9 first_item (second_item ∷ [])
      [] disk out (λ h. cc) (λ h. cc) refl

abbrev inbox : Inbox
inbox = record { queue = both_items; topics = topics }

-- The key `t#1`.
abbrev key : Bytes
key = b't' ∷ b'#' ∷ b'1' ∷ []

set_stores_example :
    ByKey list_queue list_fifo settings text_ops.explode 2 refl topics inbox text
      (parse_key (text_ops.explode key b'#' true))
      (set list_queue settings text_ops.explode running topics inbox key text)
set_stores_example =
    set_stores list_queue list_fifo settings text_ops.explode 2 refl topics inbox key text
      (omega arith)

abbrev request : Request
request = record { topic_name = topic; part_id = b'0' ∷ []; text = text }

index_stores_example :
    let r = index list_queue settings running topics inbox request in
    let part_id = query_part request.part_id in
    let valid = (check_valid topics topics topic part_id).1 in
    ((is_empty topic ≡ false)
      × (is_empty text ≡ false)
      × (valid ≡ true)
      × (length both_items ≤ 2)
      × (r.1.ret ≡ 0)
      × (r.0.queue ≡ both_items ++ queued topic part_id text ∷ []))
    ⊎ (((is_empty topic ≡ true)
          ⊎ (is_empty text ≡ true)
          ⊎ (valid ≡ false)
          ⊎ (2 < length both_items))
        × (r.1.ret ≡ 1000)
        × (r.0.queue ≡ both_items))
index_stores_example =
    index_stores list_queue list_fifo settings 2 refl topics inbox request (omega arith)
