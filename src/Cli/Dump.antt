-- ===== src/Cli/Dump.antt =====
-- What `dumpMessage` of src/BootStrapCli.cpp leaves in the dump directory.
use aidt.Prelude.{
  suc, ◌≡◌, refl, sym, ap, ◌∙◌, true, List, [], ◌∷◌, ◌++◌, append-nil, append_assoc, some, Bytes,
  length, list_beq, list_beq_iff, get_or_else, if◌then◌else◌, bytes_eq, Bool-cases, inl, inr,
}
use aidt.Prelude.Table.{find, find-insert}
use aidt.Adbase.{QueueOps, IsFifo}
use aidt.Files.{Disk, append_file}
use aidt.DataStore.{MessageItem}
use aidt.Cli.{dump_path, dump_message_file, dump_loop}

module _ (dump_dir : Bytes) where
  -- The messages, each on a line, that belong into the file `path`.
  abbrev pub lines_for : Bytes → List MessageItem → Bytes
  lines_for path [] = []
  lines_for path (item ∷ items) =
      if list_beq (dump_path dump_dir item.topic_name) path
      then (item.message ++ b'\n' ∷ []) ++ lines_for path items
      else lines_for path items

  abbrev pub contents : Bytes → Disk → Bytes
  contents path disk = get_or_else (find path disk.files) []

  contents-dump_message_file :
      (path : Bytes) (disk : Disk) (item : MessageItem)
      → disk.writable (dump_path dump_dir item.topic_name) ≡ true
      → contents path (dump_message_file dump_dir disk item)
        ≡ contents path disk ++ lines_for path (item ∷ [])
  unfolding dump_message_file append_file
  contents-dump_message_file path disk item open_ok =
      let file = dump_path dump_dir item.topic_name in
      let line = item.message ++ b'\n' ∷ [] in
      rw (open_ok, append_file)
        (rw (find-insert path file (get_or_else (find file disk.files) [] ++ line) disk.files)
          (elim (Bool-cases (list_beq file path)) [
            | inl e ↦
                rw (e, append-nil)
                  (ap (λ p. contents p disk ++ line) ((list_beq_iff file path).0 e))
            | inr e ↦ rw (e, append-nil) refl
          ]))

  -- Every path can be opened, before and after the dump of a message.
  abbrev pub AllWritable : Disk → Type 0
  AllWritable disk = (path : Bytes) → disk.writable path ≡ true

  dump_message_file-AllWritable :
      (disk : Disk) (item : MessageItem)
      → AllWritable disk
      → AllWritable (dump_message_file dump_dir disk item)
  unfolding dump_message_file append_file
  dump_message_file-AllWritable disk item open_ok path =
      rw (open_ok (dump_path dump_dir item.topic_name), append_file) (open_ok path)

  lines_for-cons :
      (path : Bytes) (item : MessageItem) (items : List MessageItem)
      → lines_for path (item ∷ items) ≡ lines_for path (item ∷ []) ++ lines_for path items
  lines_for-cons path item items =
      elim (Bool-cases (list_beq (dump_path dump_dir item.topic_name) path)) [
        | inl e ↦ rw (e, append-nil) refl
        | inr e ↦ rw e refl
      ]

  module _ (q : QueueOps MessageItem) (fifo : IsFifo q) where
    -- For a disk on which every path can be opened: the loop of `dumpMessage` empties the queue, and
    -- appends to each file the messages of its topic, in the order of the queue, each on a line.
    pub dump_loop_lem :
        (items : List MessageItem) (disk : Disk) (path : Bytes)
        → AllWritable disk
        → (after : Disk) × (dump_loop q dump_dir (suc (length items)) disk items ≡ some (after, []))
          × (contents path after ≡ contents path disk ++ lines_for path items)
    unfolding dump_loop
    dump_loop_lem [] disk path open_ok =
        (disk, rw (fifo.empty-nil, dump_loop) refl, sym (append-nil (contents path disk)))
    dump_loop_lem (item ∷ items) disk path open_ok =
        let next = dump_message_file dump_dir disk item in
        let (after, emptied, written) =
          dump_loop_lem items next path (dump_message_file-AllWritable disk item open_ok) in
        (
          after,
          rw (fifo.empty-cons item items, fifo.try_pop-cons item items, dump_loop) emptied,
          written
              ∙ ap (λ c. c ++ lines_for path items)
                  (contents-dump_message_file path disk item
                    (open_ok (dump_path dump_dir item.topic_name)))
              ∙ append_assoc (contents path disk) (lines_for path (item ∷ []))
                  (lines_for path items)
              ∙ ap (λ c. contents path disk ++ c) (sym (lines_for-cons path item items)),
        )
