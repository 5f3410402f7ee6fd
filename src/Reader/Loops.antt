-- ===== src/Reader/Loops.antt =====
-- src/App/Reader.cpp: `readString`, `readBinary` and `read`. Between the calls of a loop that take the
-- mutex another thread only saves the offsets. `running` is what `_running` holds during the call.
pub mod Lines
pub mod Text
pub mod Frames
pub mod Binary
pub mod Total
pub mod Alias
pub mod Keeps
pub mod Owned
pub mod Rounds
use aidt.Prelude.{
  ℕ, zero, suc, ◌+◌, ◌%◌, ◌^◌, Bool, true, false, not, ◌&&◌, ◌||◌, List, [], ◌∷◌, ◌++◌, Option,
  none, some, ◌>>=◌, ℤ, ltb_ℤ, to_int, Bytes, length, take, drop, ltb, nat_beq, if◌then◌else◌,
  bytes_eq, nat_eq, get_or_else, pos, is_some,
}
use aidt.Prelude.Table.{find, insert}
use aidt.Adbase.{BufferOps, QueueOps}
use aidt.Files.{read_bytes}
use aidt.DataStore.{FdItem, FdMap, MessageItem}
use aidt.Settings.{AdbaseConfig}
use aidt.Message.{set_message}
use aidt.App.{any_part}
use aidt.Config.{Config, WatcherFileInfo, find_file}
use aidt.Events.{InotifyEvent}
use aidt.Reader.Store.{Streams, mark_bad}
use aidt.Reader.Format.{Memory, payload}
use aidt.Reader.{Reader, World, Opened, init_stream, set_file_offset}

-- How a loop ends: at the end of what there is to read, after a read that came short (the stream is
-- not good then), at a `break` with `isContinue`, in undefined behaviour, or without fuel.
pub data End : Type 0 where
  drained short continues undefined unfinished : End

-- What a loop changes, and how it ends.
pub record Outcome : Type 0 where
  pub fd_map : FdMap
  pub queue : List MessageItem
  pub end : End

abbrev pub outcome : FdMap → List MessageItem → End → Outcome
outcome fd_map queue end = record { fd_map = fd_map; queue = queue; end = end }

module _ (b : BufferOps) (q : QueueOps MessageItem) (conf : AdbaseConfig) (mem : Memory) where
  -- `Reader::sendMessage`; `none` is undefined behaviour.
  unfoldable pub send_message :
      WatcherFileInfo → List MessageItem → Bytes → Option (List MessageItem × Bool)
  send_message info queue msg =
      if info.is_binary
      then some (set_message q conf queue info.topic_name any_part msg)
      else (payload mem info.format msg >>= λ text.
          some (set_message q conf queue info.topic_name any_part (b.append [] text)))

  module _ (info : WatcherFileInfo) (origfile : Bytes) where
    -- The loop of `readString` over the bytes that the file still has. A `char` is signed, so the
    -- byte 255 is `EOF`.
    unfoldable pub read_string_loop : Bytes → Bytes → ℕ → ℕ → FdMap → List MessageItem → Outcome
    read_string_loop [] buffer read_size lines fd_map queue = outcome fd_map queue drained
    read_string_loop (c ∷ rest) buffer read_size lines fd_map queue =
        let more = buffer ++ c ∷ [] in
        let longer = read_string_loop rest more (suc read_size) lines fd_map queue in
        let blank = read_string_loop rest buffer (suc read_size) lines fd_map queue in
        if nat_beq c 255
        then outcome fd_map queue drained
        else if not (nat_beq c b'\n')
        then (if ltb_ℤ conf.max_line_bytes (to_int (length more))
            then outcome fd_map queue continues
            else longer)
        else if nat_beq (length buffer) 0
        then blank
        else elim (send_message info queue buffer) [
          | none ↦ outcome fd_map queue undefined
          | some (queue', false) ↦ outcome fd_map queue' continues
          | some (queue', true) ↦
              (let fd_map' = set_file_offset origfile (suc read_size) fd_map in
                let next = read_string_loop rest [] 0 (suc lines) fd_map' queue' in
                if ltb_ℤ conf.max_lines (pos (suc lines))
                then outcome fd_map' queue' continues
                else next)
        ]

    -- The loop of `readBinary` over the bytes from the local offset on. Memory for a message is
    -- always found, and a file has fewer than 2 ^ 64 bytes.
    pub read_binary_loop : ℕ → Bytes → ℕ → FdMap → List MessageItem → Outcome
    read_binary_loop zero rest lines fd_map queue = outcome fd_map queue unfinished
    read_binary_loop (suc fuel) rest lines fd_map queue =
        let len = b.network_to_host32 (b.memcpy32 (take 4 rest)) in
        let behind = drop 4 rest in
        if ltb (length rest) 4
        then outcome fd_map queue short
        else if ltb (length behind) len
        then outcome fd_map queue short
        else elim (send_message info queue (b.append [] (take len behind))) [
          | none ↦ outcome fd_map queue undefined
          | some (queue', false) ↦ outcome fd_map queue' continues
          | some (queue', true) ↦
              (let fd_map' = set_file_offset origfile (len + 4) fd_map in
                let next = read_binary_loop fuel (drop len behind) (suc lines) fd_map' queue' in
                if ltb_ℤ conf.max_lines (pos (suc lines))
                then outcome fd_map' queue' continues
                else next)
        ]

-- What a call of `read` leaves, with the value of `isContinue` (none if it is not assigned).
pub record Reading : Type 0 where
  pub reader : Reader
  pub config : Config
  pub queue : List MessageItem
  pub is_continue : Option Bool

-- What the loop leaves; `none` is undefined behaviour.
unfoldable pub finish : Opened → Outcome → Option Reading
finish o out =
    let reading : Streams → Bool → Option Reading = λ streams again. some (record {
      reader = record o.reader { fd_map = out.fd_map; streams = streams };
      config = o.config;
      queue = out.queue;
      is_continue = some again;
    }) in
    elim out.end [
      | drained ↦ reading o.reader.streams false
      | short ↦ reading (mark_bad o.item.fs o.reader.streams) false
      | continues ↦ reading o.reader.streams true
      | undefined ↦ none
      | unfinished ↦ none
    ]

module _ (b : BufferOps) (q : QueueOps MessageItem) (conf : AdbaseConfig) (mem : Memory) (w : World)
    (junk : FdItem) (contents : ℕ → Bytes) where
  -- The bytes that the opened stream has from the item's offset on.
  unfoldable pub rest_of : FdItem → Bytes
  rest_of item = elim item.fs [ none ↦ [] | some h ↦ drop item.offset (contents h) ]

  -- `Reader::readString`
  unfoldable pub read_string :
      InotifyEvent → WatcherFileInfo → Reader → Config → List MessageItem → Option Reading
  unfolding finish rest_of
  read_string event info r c queue =
      let o = init_stream conf w junk event info r c in
      let out =
        if o.ret && r.running
        then read_string_loop b q conf mem info event.origfile (rest_of o.item) [] 0 0
            o.reader.fd_map queue
        else outcome o.reader.fd_map queue (if o.is_continue then continues else drained) in
      finish o out

  -- `Reader::readBinary`, with fuel for every byte that there is.
  unfoldable pub read_binary :
      InotifyEvent → WatcherFileInfo → Reader → Config → List MessageItem → Option Reading
  unfolding finish rest_of
  read_binary event info r c queue =
      let o = init_stream conf w junk event info r c in
      let rest = rest_of o.item in
      let out =
        if o.ret && r.running
        then read_binary_loop b q conf mem info event.origfile (suc (length rest)) rest 0
            o.reader.fd_map queue
        else outcome o.reader.fd_map queue (if o.is_continue then continues else drained) in
      finish o out

  -- `Reader::read`
  unfoldable pub read : InotifyEvent → Reader → Config → List MessageItem → Option Reading
  read event r c queue = elim (find_file c event.pathfile) [
    | none ↦ some (record { reader = r; config = c; queue = queue; is_continue = none })
    | some info ↦
        if info.is_binary
        then read_binary event info r c queue
        else read_string event info r c queue
  ]
