-- ===== src/DataStore.antt =====
-- src/App/DataStore.cpp and DataStore.hpp: the files of unsent messages and of reading offsets.
-- A stream's read loop takes fuel; a record has at least 16 bytes (an offset record 32), so one
-- round more than the file has bytes is enough.
pub mod Messages
pub mod Restart
pub mod Offsets
pub mod Reload
pub mod Loaded
use aidt.Prelude.{
  ℕ, zero, suc, ◌+◌, ◌%◌, ◌^◌, ◌<◌, ◌≡◌, Bool, true, false, ◌||◌, not, List, [], ◌∷◌, ◌++◌, Option,
  none, some, ◌>>=◌, Bytes, length, ℤ, if◌then◌else◌, get_or_else, bytes_eq, arith,
}
use aidt.Prelude.Table.{find, insert}
use aidt.Adbase.{BufferOps, QueueOps}
use aidt.Files.{Disk, read_bytes, append_file, write_file, rename, bak}

-- An `int` that is only stored, sent or compared for equality is its bit pattern, below 2 ^ 32, so
-- that the casts between `int` and `uint32_t` are the identity.
pub record MessageItem : Type 0 where
  pub part_id : ℕ
  pub try_num : ℕ
  pub topic_name : Bytes
  pub message : Bytes

-- `fs` is a pointer: the number of a stream of the reader.
pub record FdItem : Type 0 where
  pub pathfile : Bytes
  pub origfile : Bytes
  pub offset : ℕ
  pub last_time : ℤ
  pub move_protected : Bool
  pub fs : Option ℕ

abbrev pub FdMap : Type 0
FdMap = List (Bytes × FdItem)

-- What `stat` says of a path that is a regular file.
pub record FileStat : Type 0 where
  pub ino : ℕ
  pub size : ℕ

-- `static_cast<uint32_t>(s.size())`
unfoldable pub size32 : Bytes → ℕ
size32 s = length s % 2 ^ 32

pub size32_lem : (s : Bytes) → length s < 2 ^ 32 → size32 s ≡ length s
unfolding size32
size32_lem s h = omega arith

module _ (b : BufferOps) where
  open b use {append, append_int32, append_int64, read_int32, read_int64}

  -- `DataStore::serialize`
  unfoldable pub serialize : Bytes → MessageItem → Bytes
  serialize buffer item =
      let b1 = append_int32 buffer item.part_id in
      let b2 = append_int32 b1 item.try_num in
      let b3 = append_int32 b2 (size32 item.topic_name) in
      let b4 = append b3 item.topic_name in
      let b5 = append_int32 b4 (size32 item.message) in append b5 item.message

  -- One round of the loop of `loadMessage`, up to the push: the item and what is left of the file,
  -- or `none` at a `break`.
  pub read_message : Bytes → Option (MessageItem × Bytes)
  read_message ifs = do
    (len_buf, ifs1) ← read_bytes 12 ifs
    let header = read_int32 (append [] len_buf)
    let tries = read_int32 header.1
    let topic_size = read_int32 tries.1
    (topic, ifs2) ← read_bytes topic_size.0 ifs1
    (size_buf, ifs3) ← read_bytes 4 ifs2
    (text, ifs4) ← read_bytes (b.network_to_host32 (b.memcpy32 size_buf)) ifs3
    some (
      record {
        part_id = header.0;
        try_num = tries.0;
        topic_name = topic;
        message = append [] text;
      },
      ifs4,
    )

  -- One round of the loop of `loadOffsets`, up to the assignment. `junk` is what the fresh `FdItem`
  -- holds before its fields are assigned.
  pub read_offset : FdItem → Bytes → Option (FdItem × Bytes)
  read_offset junk ifs = do
    (len_buf, ifs1) ← read_bytes 32 ifs
    let offset = read_int64 (append [] len_buf)
    let inode = read_int64 offset.1
    let filesize = read_int64 inode.1
    let path_file_size = read_int32 filesize.1
    let orig_file_size = read_int32 path_file_size.1
    (path_file, ifs2) ← read_bytes path_file_size.0 ifs1
    (orig_file, ifs3) ← read_bytes orig_file_size.0 ifs2
    some (
      record junk { pathfile = path_file; origfile = orig_file; offset = offset.0; fs = none },
      ifs3,
    )

  pub load_offsets_loop : FdItem → ℕ → Bytes → FdMap → Option FdMap
  load_offsets_loop junk zero ifs maps = none
  load_offsets_loop junk (suc fuel) ifs maps = elim (read_offset junk ifs) [
    | none ↦ some maps
    | some (item, rest) ↦ load_offsets_loop junk fuel rest (insert item.origfile item maps)
  ]

  -- `DataStore::loadOffsets`
  pub load_offsets : FdItem → Disk → Bytes → FdMap → FdMap
  load_offsets junk disk offset_file maps = elim (find offset_file disk.files) [
    | none ↦ maps
    | some ifs ↦ get_or_else (load_offsets_loop junk (suc (length ifs)) ifs maps) maps
  ]

  -- The record that `saveOffset` writes for a file of status `st`.
  pub offset_record : FileStat → FdItem → Bytes
  offset_record st item =
      let b1 = append_int64 [] item.offset in
      let b2 = append_int64 b1 st.ino in
      let b3 = append_int64 b2 st.size in
      let b4 = append_int32 b3 (size32 item.pathfile) in
      let b5 = append_int32 b4 (size32 item.origfile) in
      append (append b5 item.pathfile) item.origfile

  -- `DataStore::saveOffset`: what is written to the stream, and the result. `stat` gives the status
  -- of the regular files.
  pub save_offset : (Bytes → Option FileStat) → FdItem → Bytes × Bool
  save_offset stat item = elim (stat item.origfile) [
    | none ↦ ([], false)
    | some st ↦ (offset_record st item, true)
  ]

  -- The writes of a loop of `saveOffset` calls over a map.
  pub save_offset_all : (Bytes → Option FileStat) → FdMap → Bytes
  unfolding save_offset
  save_offset_all stat [] = []
  save_offset_all stat ((k, item) ∷ maps) = (save_offset stat item).0 ++ save_offset_all stat maps

  -- `DataStore::saveOffsets`
  pub save_offsets : (Bytes → Option FileStat) → Disk → Bytes → FdMap → Disk
  save_offsets stat disk offset_file maps = write_file disk offset_file (save_offset_all stat maps)

  -- `DataStore::saveMessage(messageFile, item)`: a stream that is not open and good writes nothing.
  unfoldable pub save_item : Disk → Bytes → MessageItem → Disk
  save_item disk message_file item = append_file disk message_file (serialize [] item)

  module _ (q : QueueOps MessageItem) where
    unfoldable pub load_message_loop : ℕ → Bytes → List MessageItem → Option (List MessageItem)
    load_message_loop zero ifs queue = none
    load_message_loop (suc fuel) ifs queue = elim (read_message ifs) [
      | none ↦ some queue
      | some (item, rest) ↦ load_message_loop fuel rest (q.push queue item)
    ]

    -- `DataStore::loadMessage`
    unfoldable pub load_message : Disk → Bytes → List MessageItem → Disk × List MessageItem
    load_message disk message_file queue = elim (find message_file disk.files) [
      | none ↦ (disk, queue)
      | some ifs ↦ (
        rename disk message_file (message_file ++ bak),
        get_or_else (load_message_loop (suc (length ifs)) ifs queue) queue,
      )
    ]

    -- The loop of `saveMessage(messageFile)`: what is written, and the queue that is left.
    pub drain : ℕ → List MessageItem → Option (Bytes × List MessageItem)
    drain zero queue = none
    drain (suc fuel) queue = elim (q.empty queue) [
      | true ↦ some ([], queue)
      | false ↦ elim (q.try_pop queue) [
        | none ↦ drain fuel queue
        | some (item, rest) ↦ (do
          (out, left) ← drain fuel rest
          some (serialize [] item ++ out, left))
      ]
    ]

    -- `DataStore::saveMessage(messageFile)`. The stream is not tested: where the file cannot be
    -- opened, what the loop writes is lost.
    pub save_message : Disk → Bytes → List MessageItem → Disk × List MessageItem
    save_message disk message_file queue =
        let (out, left) = get_or_else (drain (suc (length queue)) queue) ([], queue) in
        (append_file disk message_file out, left)
