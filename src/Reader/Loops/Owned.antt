-- ===== src/Reader/Loops/Owned.antt =====
-- `read` of src/App/Reader.cpp, on a reader whose positions own their streams.
use aidt.Prelude.{
  ℕ, suc, ◌≡◌, ◌&&◌, inl, inr, Bool, true, false, List, [], some, Bytes, length, if◌then◌else◌,
  Option-cases, Yields, Yields-if, subst,
}
use aidt.Adbase.{BufferOps, QueueOps}
use aidt.DataStore.{FdItem, FdMap, MessageItem}
use aidt.Settings.{AdbaseConfig}
use aidt.Config.{Config, WatcherFileInfo, find_file}
use aidt.Events.{InotifyEvent}
use aidt.Reader.{Reader, World, Opened, init_stream}
use aidt.Reader.Format.{Memory}
use aidt.Reader.Store.{mark_bad}
use aidt.Reader.Loops.{
  End, drained, short, continues, undefined, unfinished, Outcome, outcome, Reading, finish, rest_of,
  read_string, read_binary, read,
}
use aidt.Reader.Loops.Keeps.{read_string_loop-keeps, read_binary_loop-keeps}
use aidt.Reader.Ownership.{Owned, IsSound}
use aidt.Reader.Ownership.Opening.{Live-mark_bad}
use aidt.Reader.Ownership.Operations.{Owned-streams, Owned-set_file_offset, IsSound-init_stream}

abbrev Reads : Reading → Type 0
Reads reading = IsSound reading.reader

Reads-finish :
    (o : Opened) (m : FdMap) (queue : List MessageItem) (end : End)
    → Owned m o.reader.streams o.reader.next_stream
    → Yields Reads (finish o (outcome m queue end))
unfolding finish
Reads-finish o m queue drained owned = owned
Reads-finish o m queue short owned =
    Owned-streams m o.reader.streams (mark_bad o.item.fs o.reader.streams) o.reader.next_stream
      (Live-mark_bad o.reader.streams o.reader.next_stream o.item.fs) owned
Reads-finish o m queue continues owned = owned
Reads-finish o m queue undefined owned = tt
Reads-finish o m queue unfinished owned = tt

-- What the loop, or the lines that stand in its place, leave is finished.
Reads-if :
    (o : Opened) (t : Bool) (run stay : Outcome)
    → Owned run.fd_map o.reader.streams o.reader.next_stream
    → Owned stay.fd_map o.reader.streams o.reader.next_stream
    → Yields Reads (finish o (if t then run else stay))
Reads-if o true run stay ran stayed = Reads-finish o run.fd_map run.queue run.end ran
Reads-if o false run stay ran stayed = Reads-finish o stay.fd_map stay.queue stay.end stayed

module _ (b : BufferOps) (q : QueueOps MessageItem) (conf : AdbaseConfig) (mem : Memory) (w : World)
    (junk : FdItem) (contents : ℕ → Bytes) (event : InotifyEvent) (r : Reader) (c : Config)
    (queue : List MessageItem) (sound : IsSound r) where
  Reads-read_string :
      (info : WatcherFileInfo)
      → Yields Reads (read_string b q conf mem w junk contents event info r c queue)
  unfolding read_string
  Reads-read_string info =
      let o = init_stream conf w junk event info r c in
      let opened = IsSound-init_stream conf w junk event info r c sound in
      Reads-if o (o.ret && r.running) _ _
        (read_string_loop-keeps b q conf mem info event.origfile
          (λ m. Owned m o.reader.streams o.reader.next_stream)
          (Owned-set_file_offset o.reader.streams o.reader.next_stream event.origfile)
          (rest_of b q conf mem w junk contents o.item) [] 0 0 o.reader.fd_map queue opened)
        opened

  Reads-read_binary :
      (info : WatcherFileInfo)
      → Yields Reads (read_binary b q conf mem w junk contents event info r c queue)
  unfolding read_binary
  Reads-read_binary info =
      let o = init_stream conf w junk event info r c in
      let opened = IsSound-init_stream conf w junk event info r c sound in
      let rest = rest_of b q conf mem w junk contents o.item in
      Reads-if o (o.ret && r.running) _ _
        (read_binary_loop-keeps b q conf mem info event.origfile
          (λ m. Owned m o.reader.streams o.reader.next_stream)
          (Owned-set_file_offset o.reader.streams o.reader.next_stream event.origfile)
          (suc (length rest)) rest 0 o.reader.fd_map queue opened)
        opened

  pub IsSound-read :
      (reading : Reading)
      → read b q conf mem w junk contents event r c queue ≡ some reading
      → IsSound reading.reader
  unfolding read
  IsSound-read reading h =
      subst (Yields Reads) h (elim (Option-cases (find_file c event.pathfile)) [
        | inl e ↦ rw (e, read) sound
        | inr (info, e) ↦
            rw (e, read)
              (Yields-if Reads info.is_binary _ _ (Reads-read_binary info) (Reads-read_string info))
      ])
