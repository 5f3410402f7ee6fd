-- ===== src/DataStore/Restart.antt =====
-- The message file of src/App/DataStore.cpp over a stop and a start of the program.
use aidt.Prelude.{
  ℕ, ◌≡◌, refl, true, false, List, [], ◌∷◌, ◌++◌, none, some, Bytes, append-nil, append_assoc,
  arith, All, All-append, get_or_else, bytes_eq, Bool-cases, inl, inr, sym, ap, ◌∙◌, list_beq_iff,
  length, length-append, list_beq,
}
use aidt.Prelude.Table.{find}
use aidt.Adbase.{BufferOps, IsBuffer, QueueOps, IsFifo}
use aidt.Files.{Disk, bak, append_file, rename_lem, find-append_file}
use aidt.DataStore.{MessageItem, serialize, load_message, save_message}
use aidt.DataStore.Messages.{
  Fits, records, save_message_lem, load_message-records, read_message_torn, read_message-nil,
}

pub records-append :
    (b : BufferOps) (xs ys : List MessageItem) → records b (xs ++ ys) ≡ records b xs ++ records b ys
records-append b [] ys = refl
records-append b (x ∷ xs) ys =
    ap (◌++◌ (serialize b [] x)) (records-append b xs ys)
    ∙ sym (append_assoc (serialize b [] x) (records b xs) (records b ys))

ne_bak : (file : Bytes) → list_beq (file ++ bak) file ≡ false
ne_bak file = elim (Bool-cases (list_beq (file ++ bak) file)) [
  | inl e ↦
      let eq = (list_beq_iff (file ++ bak) file).0 e in
      absurd (omega (arith, ap length eq, length-append file bak))
  | inr e ↦ e
]

module _ (b : BufferOps) (laws : IsBuffer b) (q : QueueOps MessageItem) (fifo : IsFifo q)
    (disk : Disk) (file : Bytes) where
  -- What the program writes when it stops it reads when it starts: if the message file can be opened
  -- and holds the records of `old` items, `loadMessage` after `saveMessage` pushes `old` and then
  -- the items of the saved queue, each with its topic, partition, try count and message; the message
  -- file is gone then, and all its records stand in the file renamed to `.bak`.
  pub load_message-save_message :
      (old queue : List MessageItem)
      → disk.writable file ≡ true
      → get_or_else (find file disk.files) [] ≡ records b old
      → All Fits old
      → All Fits queue
      → let after = load_message b q (save_message b q disk file queue).0 file [] in
        (after.1 ≡ old ++ queue)
        × (find file after.0.files ≡ none)
        × (find (file ++ bak) after.0.files ≡ some (records b (old ++ queue)))
  load_message-save_message old queue open_ok holds fits_old fits =
      let all = All-append Fits old queue fits_old fits in
      let saved = append_file disk file (records b queue) in
      let text : find file saved.files ≡ some (records b (old ++ queue)) =
        rw (
          find-append_file disk file (records b queue) open_ok,
          holds,
          records-append b old queue,
        ) in
      let text' : find file saved.files ≡ some (records b (old ++ queue) ++ []) =
        rw append-nil text in
      let moved =
        rename_lem saved file (file ++ bak) (records b (old ++ queue)) text (ne_bak file) in
      rw
        (
          save_message_lem b laws q fifo disk file queue,
          load_message-records b laws q fifo saved file [] (old ++ queue) [] all text'
              (read_message-nil b laws),
        )
        (refl, moved.0, moved.1)

  -- A file whose last record was cut off, as by a crash while it was written, gives back the items of
  -- all whole records before it, in order and behind the queue, and nothing else.
  pub load_message_torn :
      (items queue : List MessageItem) (item : MessageItem) (x : ℕ) (front back : Bytes)
      → All Fits items
      → Fits item
      → serialize b [] item ≡ front ++ x ∷ back
      → find file disk.files ≡ some (records b items ++ front)
      → (load_message b q disk file queue).1 ≡ queue ++ items
  load_message_torn items queue item x front back fits_all fits cut at_file = rw (
      load_message-records b laws q fifo disk file front items queue fits_all at_file
        (read_message_torn b laws item x front back fits cut))

  -- If the message file cannot be opened, `saveMessage` still empties the queue: the disk is as it
  -- was, and every queued message is lost.
  pub save_message_lost :
      (queue : List MessageItem)
      → disk.writable file ≡ false
      → save_message b q disk file queue ≡ (disk, [])
  unfolding append_file
  save_message_lost queue shut = rw (save_message_lem b laws q fifo disk file queue, shut)
