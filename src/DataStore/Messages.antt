-- ===== src/DataStore/Messages.antt =====
-- The records of the message file of src/App/DataStore.cpp, whole and cut off.
use aidt.Prelude.{
  ℕ, zero, suc, ◌^◌, ◌<◌, ◌≡◌, refl, sym, ap, List, [], ◌∷◌, ◌++◌, none, some, Bytes, length,
  length-append, append_assoc, append-nil, arith, All, Option-cases, inl, inr, bytes_eq,
}
use aidt.Adbase.{BufferOps, IsBuffer, QueueOps, IsFifo}
use aidt.Files.Streams.{
  IsStream, bind-IsStream, read_bytes-IsStream, read_bytes-IsStream_zero, some-IsStream,
}
use aidt.Prelude.Table.{find}
use aidt.Files.{Disk, read_bytes, read_bytes-append, append_file, rename, bak}
use aidt.DataStore.{
  MessageItem, size32_lem, serialize, read_message, load_message_loop, load_message, drain,
  save_message,
}

-- The records of a list of items, one behind the other.
abbrev pub records : BufferOps → List MessageItem → Bytes
records b [] = []
records b (item ∷ items) = serialize b [] item ++ records b items

-- The fields fit their places in a record.
pub record Fits (item : MessageItem) : Type 0 where
  pub part_id_fits : item.part_id < 2 ^ 32
  pub try_num_fits : item.try_num < 2 ^ 32
  pub topic_fits : length item.topic_name < 2 ^ 32
  pub message_fits : length item.message < 2 ^ 32

module _ (b : BufferOps) (laws : IsBuffer b) where
  open laws use {int32, append_lem, append_int32_lem, length-int32, read_int32_lem, network_lem}

  header : MessageItem → Bytes
  header item = int32 item.part_id ++ (int32 item.try_num ++ int32 (length item.topic_name))

  -- A record of the message file.
  wire : MessageItem → Bytes
  wire item = header item ++ (item.topic_name ++ (int32 (length item.message) ++ item.message))

  serialize-wire : (item : MessageItem) → Fits item → serialize b [] item ≡ wire item
  unfolding serialize wire header
  serialize-wire item fits = simp (
    size32_lem _ fits.topic_fits,
    size32_lem _ fits.message_fits,
    append_lem,
    append_int32_lem,
    append_assoc,
  )

  length-header : (item : MessageItem) → length (header item) ≡ 12
  unfolding header
  length-header item = ground (
    arith,
    length-append (int32 item.part_id) (int32 item.try_num ++ int32 (length item.topic_name)),
    length-append (int32 item.try_num) (int32 (length item.topic_name)),
    length-int32 item.part_id,
    length-int32 item.try_num,
    length-int32 (length item.topic_name),
  )

  read_int32_last : (v : ℕ) → v < 2 ^ 32 → b.read_int32 (int32 v) ≡ (v, [])
  read_int32_last v h = rw append-nil at (read_int32_lem v [] h)

  read_int32-header :
      (item : MessageItem)
      → Fits item
      → b.read_int32 (header item)
        ≡ (item.part_id, int32 item.try_num ++ int32 (length item.topic_name))
  unfolding header
  read_int32-header item fits = read_int32_lem item.part_id _ fits.part_id_fits

  read_message-wire :
      (item : MessageItem) (rest : Bytes)
      → Fits item
      → read_message b (wire item ++ rest) ≡ some (item, rest)
  unfolding read_message wire
  read_message-wire item rest fits =
      let text = item.message ++ rest in
      let sized = int32 (length item.message) ++ text in
      simp (
        append_assoc,
        read_bytes-append 12 (header item) (item.topic_name ++ sized) (length-header item),
        append_lem,
        read_int32-header item fits,
        read_int32_lem item.try_num _ fits.try_num_fits,
        read_int32_last _ fits.topic_fits,
        read_bytes-append _ item.topic_name sized refl,
        read_bytes-append 4 (int32 (length item.message)) text (length-int32 _),
        network_lem _ fits.message_fits,
        read_bytes-append _ item.message rest refl,
      )

  -- A record is read back as it was written, whatever follows it.
  pub read_message-serialize :
      (item : MessageItem) (rest : Bytes)
      → Fits item
      → read_message b (serialize b [] item ++ rest) ≡ some (item, rest)
  read_message-serialize item rest fits =
      rw (serialize-wire item fits) (read_message-wire item rest fits)

  -- What is read does not depend on what follows it in the file, and is 16 bytes at least.
  read_message-IsStream : IsStream 16 (read_message b)
  unfolding read_message
  read_message-IsStream = bind-IsStream (read_bytes-IsStream 12) λ len_buf.
      bind-IsStream (read_bytes-IsStream_zero _) λ topic.
        bind-IsStream (read_bytes-IsStream 4)
          λ size_buf. bind-IsStream (read_bytes-IsStream_zero _) λ text. some-IsStream _

  -- A record that is cut off anywhere is not read.
  pub read_message_torn :
      (item : MessageItem) (x : ℕ) (front back : Bytes)
      → Fits item
      → serialize b [] item ≡ front ++ x ∷ back
      → read_message b front ≡ none
  read_message_torn item x front back fits cut = elim (Option-cases (read_message b front)) [
    | inl e ↦ e
    | inr ((i, r), e) ↦
        let whole = read_message-serialize item [] fits in
        let whole' : read_message b (front ++ x ∷ back) ≡ some (item, []) =
          rw (append-nil, cut) at whole in
        let longer = read_message-IsStream.more front (x ∷ back) i r e in
        ground (arith, length-append r (x ∷ back))
  ]

  module _ (q : QueueOps MessageItem) (fifo : IsFifo q) where
    -- Whatever the file holds, fuel for every byte and one more is enough for the loop of
    -- `loadMessage`: it ends and gives a queue.
    pub load_message_loop_total :
        (fuel : ℕ) (ifs : Bytes) (queue : List MessageItem)
        → length ifs < fuel
        → (r : List MessageItem) × (load_message_loop b q fuel ifs queue ≡ some r)
    unfolding load_message_loop
    load_message_loop_total zero ifs queue h = elim h [ ]
    load_message_loop_total (suc fuel) ifs queue h = elim (Option-cases (read_message b ifs)) [
      | inl e ↦ (queue, rw (e, load_message_loop))
      | inr ((item, rest), e) ↦
          rw (e, load_message_loop)
            (load_message_loop_total fuel rest (q.push queue item)
              (omega (arith, read_message-IsStream.uses ifs item rest e)))
    ]

    -- A file of whole records, with something behind them that is no record.
    load_message_loop-records :
        (items : List MessageItem) (tail : Bytes) (fuel : ℕ) (queue : List MessageItem)
        → All Fits items
        → read_message b tail ≡ none
        → length (records b items ++ tail) < fuel
        → load_message_loop b q fuel (records b items ++ tail) queue ≡ some (queue ++ items)
    unfolding load_message_loop
    load_message_loop-records [] tail (suc fuel) queue fits torn h =
        rw (torn, load_message_loop) (ap some (sym (append-nil queue)))
    load_message_loop-records items tail zero queue fits torn h = elim h [ ]
    load_message_loop-records (item ∷ items) tail (suc fuel) queue fits torn h =
        let rest = records b items ++ tail in
        let whole = read_message-serialize item rest fits.0 in
        let regroup = append_assoc (serialize b [] item) (records b items) tail in
        rw
          (
            regroup,
            whole,
            load_message_loop,
            fifo.push_lem queue item,
            load_message_loop-records items tail fuel (queue ++ item ∷ []) fits.1 torn
                (omega (arith, read_message-IsStream.uses _ item rest whole, ap length regroup)),
          )
          (ap some (append_assoc queue (item ∷ []) items))

    drain-records :
        (queue : List MessageItem) (fuel : ℕ)
        → length queue < fuel
        → drain b q fuel queue ≡ some (records b queue, [])
    unfolding drain
    drain-records queue zero h = elim h [ ]
    drain-records [] (suc fuel) h = rw (fifo.empty-nil, drain)
    drain-records (item ∷ rest) (suc fuel) h = rw (
      fifo.empty-cons item rest,
      drain,
      fifo.try_pop-cons item rest,
      drain-records rest fuel (omega arith),
    )

    -- `saveMessage(messageFile)` empties the queue. If the file can be opened, the records of all
    -- items, in the order of the queue, stand behind what the file held; if not, the disk is as it
    -- was and the items are in neither place.
    pub save_message_lem :
        (disk : Disk) (file : Bytes) (queue : List MessageItem)
        → save_message b q disk file queue ≡ (append_file disk file (records b queue), [])
    unfolding save_message
    save_message_lem disk file queue = rw (drain-records queue (suc (length queue)) (omega arith))

    -- `loadMessage` on a file that holds whole records and behind them the beginning of one more, or
    -- nothing: exactly the items of the whole records are pushed, in order, and the file is renamed.
    pub load_message-records :
        (disk : Disk) (file tail : Bytes) (items queue : List MessageItem)
        → All Fits items
        → find file disk.files ≡ some (records b items ++ tail)
        → read_message b tail ≡ none
        → load_message b q disk file queue ≡ (rename disk file (file ++ bak), queue ++ items)
    unfolding load_message
    load_message-records disk file tail items queue fits at_file torn = rw (
      at_file,
      load_message,
      load_message_loop-records items tail (suc (length (records b items ++ tail))) queue fits torn
          (omega arith),
    )

  pub read_message-nil : read_message b [] ≡ none
  unfolding read_message read_bytes
  read_message-nil = refl
