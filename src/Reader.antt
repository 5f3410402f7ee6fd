-- ===== src/Reader.antt =====
-- src/App/Reader.cpp: the reading position and the stream of each file. Streams are shared by
-- pointer, so they stand in a store of their own, by number; `delete` takes a stream out of it.
-- The mutex is held for the whole of every operation of this file.
pub mod Store
pub mod Format
pub mod Handlers
pub mod Loops
pub mod Ownership
pub mod Reached
pub mod Ready
pub mod Followed
use aidt.Prelude.{
  ℕ, suc, ◌+◌, ◌-◌, ◌%◌, ◌^◌, Bool, true, false, not, ◌&&◌, ◌||◌, List, [], ◌∷◌, ◌++◌, Option, none,
  some, ℤ, pos, negsuc, ◌-ℤ◌, ltb_ℤ, to_int, to_uint32, Bytes, ltb, nat_beq, list_beq, is_some,
  get_or_else, if◌then◌else◌, bytes_eq, nat_eq,
}
use aidt.Prelude.Table.{find, insert, erase}
use aidt.DataStore.{FdItem, FdMap}
use aidt.Settings.{AdbaseConfig}
use aidt.Config.{Config, WatcherFileInfo, set_move_time}
use aidt.Events.{InotifyEvent}
use Store.{Stream, Streams, is_open, is_good, close_stream}

pub record Reader : Type 0 where
  pub fd_map : FdMap
  pub alias_map : List (Bytes × Bytes)
  pub current_fd_num : ℕ
  pub running : Bool
  pub streams : Streams
  pub next_stream : ℕ

-- What the system answers during one call: `time(nullptr)`, and which files can be opened.
pub record World : Type 0 where
  pub now : ℕ
  pub can_open : Bytes → Bool

-- `static_cast<uint32_t>(time(nullptr))`, as an `int`
abbrev pub current_time : World → ℤ
current_time w = to_int w.now

-- The part of `Reader::openStream` that opens: a new stream, or the old one again, which is closed.
-- A stream that does not open is deleted.
unfoldable pub reopen : World → Bytes → Reader → Option ℕ → Reader × Option ℕ
reopen w file r none =
    if w.can_open file
    then (
      record r {
        streams = insert r.next_stream (record { is_open = true; good = true }) r.streams;
        next_stream = suc r.next_stream;
        current_fd_num = suc r.current_fd_num;
      },
      some r.next_stream,
    )
    else (record r { next_stream = suc r.next_stream; current_fd_num = suc r.current_fd_num }, none)
reopen w file r (some h) =
    if w.can_open file
    then (
      record r {
        streams = insert h (record { is_open = true; good = true }) r.streams;
        current_fd_num = suc r.current_fd_num;
      },
      some h,
    )
    else (record r { streams = erase h r.streams; current_fd_num = suc r.current_fd_num }, none)

-- `Reader::openStream`
unfoldable pub open_stream : World → Bytes → Reader → Option ℕ → Reader × Option ℕ
unfolding reopen close_stream
open_stream w file r stream =
    if is_open stream r.streams && is_good stream r.streams
    then (r, stream)
    else if is_some stream && (not (is_good stream r.streams) && is_open stream r.streams)
    then reopen w file (record r { streams = close_stream stream r.streams }) stream
    else reopen w file r stream

abbrev is_zero : ℤ → Bool
is_zero (pos n) = nat_beq n 0
is_zero (negsuc n) = false

-- The loop of `Reader::gcFstreamNonLock`: the count, and the streams.
pub gc_loop : ℤ → ℤ → FdMap → Streams → ℕ × Streams
unfolding close_stream
gc_loop time life_time [] streams = (0, streams)
gc_loop time life_time ((k, item) ∷ maps) streams =
    let skip =
      is_zero item.last_time || (ltb_ℤ (time -ℤ item.last_time) life_time || item.move_protected) in
    let one = if is_open item.fs streams then 1 else 0 in
    let (count, streams') =
      gc_loop time life_time maps (if skip then streams else close_stream item.fs streams) in
    (one + count, streams')

-- `Reader::gcFstreamNonLock`: streams are counted before they are closed.
unfoldable pub gc_fstream_non_lock : World → ℤ → Reader → Reader
unfolding gc_loop
gc_fstream_non_lock w life_time r =
    let (count, streams) = gc_loop (current_time w) life_time r.fd_map r.streams in
    record r { streams = streams; current_fd_num = count }

-- The entry that `initStream` works on, before it is opened. `junk` is what a fresh `FdItem` holds.
unfoldable pub init_item :
    World
    → FdItem
    → InotifyEvent
    → Bytes
    → WatcherFileInfo
    → Reader
    → Config
    → FdItem × Reader × Config
unfolding close_stream
init_item w junk event origfile info r c = elim (find origfile r.fd_map) [
  | none ↦
      (record junk { pathfile = event.pathfile; origfile = origfile; offset = 0; fs = none }, r, c)
  | some item ↦
      let waited = (to_uint32 (current_time w) + 2 ^ 32 - info.move_time % 2 ^ 32) % 2 ^ 32 in
      if not (nat_beq info.move_time 0) && ltb (to_uint32 info.time_wait) waited
      then (
        record item { offset = 0; move_protected = false },
        record r { streams = close_stream item.fs r.streams },
        set_move_time c origfile 0,
      )
      else (item, r, c)
]

pub record Opened : Type 0 where
  pub reader : Reader
  pub config : Config
  pub item : FdItem
  pub is_continue : Bool
  pub ret : Bool

-- The rest of `initStream`, once there is a stream to spare.
unfoldable pub init_opened :
    World → FdItem → InotifyEvent → WatcherFileInfo → Reader → Config → Opened
unfolding init_item open_stream
init_opened w junk event info r c =
    let origfile = get_or_else (find event.origfile r.alias_map) event.origfile in
    let (item, r1, c1) = init_item w junk event origfile info r c in
    let (r2, fs) = open_stream w origfile r1 item.fs in
    let item' = record item { fs = fs; last_time = current_time w } in
    record {
      reader = record r2 { fd_map = insert origfile item' r2.fd_map };
      config = c1;
      item = item';
      is_continue = false;
      ret = is_some fs;
    }

-- `Reader::initStream`
unfoldable pub init_stream :
    AdbaseConfig → World → FdItem → InotifyEvent → WatcherFileInfo → Reader → Config → Opened
unfolding gc_fstream_non_lock init_opened
init_stream conf w junk event info r c =
    let r' =
      if ltb_ℤ conf.max_fd (pos r.current_fd_num) then gc_fstream_non_lock w (pos 1) r else r in
    if ltb_ℤ conf.max_fd (pos r'.current_fd_num)
    then record { reader = r'; config = c; item = junk; is_continue = true; ret = false }
    else init_opened w junk event info r' c

-- `Reader::setFileOffset`
unfoldable pub set_file_offset : Bytes → ℕ → FdMap → FdMap
set_file_offset path_file offset fd_map = elim (find path_file fd_map) [
  | none ↦ fd_map
  | some item ↦ insert path_file (record item { offset = (item.offset + offset) % 2 ^ 64 }) fd_map
]
