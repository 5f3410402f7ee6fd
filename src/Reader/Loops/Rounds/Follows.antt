-- ===== src/Reader/Loops/Rounds/Follows.antt =====
-- A reader of src/App/Reader.cpp that has a text file open, and a call of `read` with it.
use aidt.Prelude.{
  ℕ, ◌+◌, ◌%◌, ◌^◌, ◌>>=◌, ◌≡◌, refl, sym, ap, ◌∙◌, true, false, ◌&&◌, List, [], none, some, pos,
  ltb_ℤ, Bytes, drop, bytes_eq, list_beq_iff, if◌then◌else◌,
}
use aidt.Prelude.Table.{find, insert, find-insert}
use aidt.Adbase.{BufferOps, QueueOps}
use aidt.DataStore.{FdItem, FdMap, MessageItem}
use aidt.Settings.{AdbaseConfig}
use aidt.Config.{Config, WatcherFileInfo, find_file}
use aidt.Events.{InotifyEvent}
use aidt.Reader.{
  Reader, World, Opened, current_time, init_item, init_opened, open_stream, init_stream,
  set_file_offset,
}
use aidt.Reader.Format.{Memory}
use aidt.Reader.Store.{is_open, is_good}
use aidt.Reader.Loops.{
  outcome, continues, drained, finish, rest_of, read_string_loop, read_string, read_binary, read,
}
use aidt.Reader.Loops.Lines.{offset_at, some_injective}
use aidt.Reader.Loops.Keeps.{read_string_loop-holds}

-- The reader keeps the place `o` for the file, has the stream `h` open for it, and may open streams.
pub record Follows (conf : AdbaseConfig) (path : Bytes) (h : ℕ) (r : Reader) (o : ℕ) : Type 0 where
  pub running : r.running ≡ true
  pub spare : ltb_ℤ conf.max_fd (pos r.current_fd_num) ≡ false
  pub unaliased : find path r.alias_map ≡ none
  pub item : FdItem
  pub kept : find path r.fd_map ≡ some item
  pub stream : item.fs ≡ some h
  pub place : item.offset ≡ o
  pub ready : (is_open (some h) r.streams && is_good (some h) r.streams) ≡ true

module _ (conf : AdbaseConfig) (h : ℕ) (event : InotifyEvent) (info : WatcherFileInfo)
    (at_rest : info.move_time ≡ 0) where
  -- The item as `initStream` keeps it.
  abbrev pub touched : World → FdItem → FdItem
  touched w item = record item { fs = some h; last_time = current_time w }

  abbrev pub touch : World → Reader → FdItem → Reader
  touch w r item = record r { fd_map = insert event.origfile (touched w item) r.fd_map }

  open_ready :
      (w : World) (file : Bytes) (r : Reader)
      → (is_open (some h) r.streams && is_good (some h) r.streams) ≡ true
      → open_stream w file r (some h) ≡ (r, some h)
  unfolding open_stream
  open_ready w file r e = rw (e, open_stream) refl

  init_item_lem :
      (w : World) (junk : FdItem) (r : Reader) (c : Config) (item : FdItem)
      → find event.origfile r.fd_map ≡ some item
      → init_item w junk event event.origfile info r c ≡ (item, r, c)
  unfolding init_item
  init_item_lem w junk r c item kept = rw (kept, at_rest, init_item) refl

  -- `initStream` takes the stream that is there, and returns true.
  abbrev pub opened : World → Reader → Config → FdItem → Opened
  opened w r c item = record {
    reader = touch w r item;
    config = c;
    item = touched w item;
    is_continue = false;
    ret = true;
  }

  init_opened_lem :
      (w : World) (junk : FdItem) (r : Reader) (c : Config) (o : ℕ)
      (f : Follows conf event.origfile h r o)
      → init_opened w junk event info r c ≡ opened w r c f.item
  unfolding init_opened
  init_opened_lem w junk r c o f =
      rw
        (
          f.unaliased,
          init_item_lem w junk r c f.item f.kept,
          f.stream,
          open_ready w event.origfile r f.ready,
          init_opened,
        )
        refl

  init_stream_open :
      (w : World) (junk : FdItem) (r : Reader) (c : Config) (o : ℕ)
      (f : Follows conf event.origfile h r o)
      → init_stream conf w junk event info r c ≡ opened w r c f.item
  unfolding init_stream
  init_stream_open w junk r c o f =
      rw (f.spare, init_stream) (rw f.spare (init_opened_lem w junk r c o f))

  module _ (b : BufferOps) (q : QueueOps MessageItem) (mem : Memory) (w : World) (junk : FdItem)
      (contents : ℕ → Bytes) (r : Reader) (c : Config) (queue : List MessageItem) where
    read_string_open :
        (o : ℕ) (f : Follows conf event.origfile h r o)
        → read_string b q conf mem w junk contents event info r c queue
          ≡ finish (opened w r c f.item) (
              read_string_loop b q conf mem info event.origfile
                (drop o (contents h))
                []
                0
                0
                (touch w r f.item).fd_map
                queue)
    unfolding read_string rest_of
    read_string_open o f =
        ap
          (λ o. finish o (
            if o.ret && r.running
            then read_string_loop b q conf mem info event.origfile
                (rest_of b q conf mem w junk contents o.item) [] 0 0 o.reader.fd_map queue
            else outcome o.reader.fd_map queue (if o.is_continue then continues else drained)))
          (init_stream_open w junk r c o f)
        ∙ ap
            (λ x. finish (opened w r c f.item) (
              if x
              then read_string_loop b q conf mem info event.origfile
                  (drop f.item.offset (contents h)) [] 0 0 (touch w r f.item).fd_map queue
              else outcome (touch w r f.item).fd_map queue drained))
            f.running
        ∙ ap
            (λ n. finish (opened w r c f.item) (
              read_string_loop b q conf mem info event.origfile (drop n (contents h)) [] 0 0
                (touch w r f.item).fd_map queue))
            f.place

    -- A call of `read` is then one of the loop on what the file has from the place on.
    pub read_open :
        (o : ℕ) (f : Follows conf event.origfile h r o)
        → find_file c event.pathfile ≡ some info
        → info.is_binary ≡ false
        → read b q conf mem w junk contents event r c queue
          ≡ finish (opened w r c f.item) (
              read_string_loop b q conf mem info event.origfile
                (drop o (contents h))
                []
                0
                0
                (touch w r f.item).fd_map
                queue)
    unfolding read
    read_open o f found is_text =
        let strings = read_string b q conf mem w junk contents event info r c queue in
        let binaries = read_binary b q conf mem w junk contents event info r c queue in
        let picked : read b q conf mem w junk contents event r c queue
            ≡ (if info.is_binary then binaries else strings) =
          rw (found, read) refl in
        picked ∙ ap (λ x. if x then binaries else strings) is_text ∙ read_string_open o f

  -- An entry of the map for the file with its stream.
  abbrev Holds : FdMap → Type 0
  Holds m = (item : FdItem) × (find event.origfile m ≡ some item) × (item.fs ≡ some h)

  Holds-set_file_offset : (k : ℕ) (m : FdMap) → Holds m → Holds (set_file_offset event.origfile k m)
  unfolding set_file_offset
  Holds-set_file_offset k m (item, kept, stream) =
      let item' = record item { offset = (item.offset + k) % 2 ^ 64 } in
      rw (kept, set_file_offset)
        (
          item',
          find-insert event.origfile event.origfile item' m
              ∙ rw ((list_beq_iff event.origfile event.origfile).1 refl) refl,
          stream,
        )

  touched_found :
      (w : World) (r : Reader) (item : FdItem)
      → find event.origfile (touch w r item).fd_map ≡ some (touched w item)
  touched_found w r item =
      find-insert event.origfile event.origfile (touched w item) r.fd_map
      ∙ rw ((list_beq_iff event.origfile event.origfile).1 refl) refl

  pub offset_at-touch :
      (w : World) (r : Reader) (o : ℕ) (f : Follows conf event.origfile h r o)
      → offset_at event.origfile (touch w r f.item).fd_map ≡ some o
  offset_at-touch w r o f = rw (touched_found w r f.item) (ap some f.place)

  -- The reader follows the file on from where the loop leaves it.
  pub Follows-loop :
      (b : BufferOps) (q : QueueOps MessageItem) (mem : Memory) (w : World) (r : Reader) (o o' : ℕ)
      (f : Follows conf event.origfile h r o) (s : Bytes) (queue : List MessageItem)
      → let out =
          read_string_loop b q conf mem info event.origfile s [] 0 0
            (touch w r f.item).fd_map
            queue in
        offset_at event.origfile out.fd_map ≡ some o'
        → Follows conf event.origfile h (record (touch w r f.item) { fd_map = out.fd_map }) o'
  Follows-loop b q mem w r o o' f s queue at =
      let (item, kept, stream) =
        read_string_loop-holds b q conf mem info event.origfile (λ m queue'. Holds m)
          (λ k m queue' held. Holds-set_file_offset k m held)
          (λ m queue' queue'' line done sent held. held) s [] 0 0 (touch w r f.item).fd_map queue
          (touched w f.item, touched_found w r f.item, refl) in
      record {
        running = f.running;
        spare = f.spare;
        unaliased = f.unaliased;
        item = item;
        kept = kept;
        stream = stream;
        place = some_injective (sym (ap (λ x. x >>= λ i. some i.offset) kept) ∙ at);
        ready = f.ready;
      }
