-- ===== src/Reader/Ready.antt =====
-- What `initStream` of src/App/Reader.cpp promises to the loops that read.
use aidt.Prelude.{
  ℕ, ◌≡◌, inl, inr, Bool, true, false, not, ◌&&◌, Option, none, some, Bytes, is_some, pos, ltb_ℤ,
  if◌then◌else◌, nat_eq, arith, Bool-cases, subst, get_or_else, bytes_eq,
}
use aidt.Prelude.Table.{find, insert, find-insert}
use aidt.DataStore.{FdItem}
use aidt.Settings.{AdbaseConfig}
use aidt.Config.{Config, WatcherFileInfo}
use aidt.Events.{InotifyEvent}
use aidt.Reader.{
  Reader, World, Opened, reopen, open_stream, init_item, init_opened, init_stream,
  gc_fstream_non_lock,
}
use aidt.Reader.Store.{Streams, close_stream, is_open, is_good}

-- A pointer that is not null is to a stream that is open and good.
abbrev Ready : Option ℕ → Streams → Type 0
Ready none streams = Unit {0}
Ready (some h) streams = (is_open (some h) streams && is_good (some h) streams) ≡ true

Ready-insert :
    (h : ℕ) (streams : Streams)
    → Ready (some h) (insert h (record { is_open = true; good = true }) streams)
Ready-insert h streams =
    ground (arith, find-insert h h (record { is_open = true; good = true }) streams)

reopen-Ready :
    (w : World) (file : Bytes) (r : Reader) (f : Option ℕ)
    → let (r', f') = reopen w file r f in Ready f' r'.streams
unfolding reopen
reopen-Ready w file r none = elim (Bool-cases (w.can_open file)) [
  | inl e ↦ rw (e, reopen) (Ready-insert r.next_stream r.streams)
  | inr e ↦ rw (e, reopen) tt
]
reopen-Ready w file r (some h) = elim (Bool-cases (w.can_open file)) [
  | inl e ↦ rw (e, reopen) (Ready-insert h r.streams)
  | inr e ↦ rw (e, reopen) tt
]

kept-Ready :
    (f : Option ℕ) (streams : Streams)
    → (is_open f streams && is_good f streams) ≡ true
    → Ready f streams
kept-Ready none streams h = tt
kept-Ready (some j) streams h = h

open_stream-Ready :
    (w : World) (file : Bytes) (r : Reader) (f : Option ℕ)
    → let (r', f') = open_stream w file r f in Ready f' r'.streams
unfolding open_stream
open_stream-Ready w file r f =
    let closed : Reader = record r { streams = close_stream f r.streams } in
    elim (Bool-cases (is_open f r.streams && is_good f r.streams)) [
      | inl e ↦ rw (e, open_stream) (kept-Ready f r.streams e)
      | inr e ↦
          elim (Bool-cases (is_some f && (not (is_good f r.streams) && is_open f r.streams))) [
            | inl e' ↦ rw (e, e', open_stream) (reopen-Ready w file closed f)
            | inr e' ↦ rw (e, e', open_stream) (reopen-Ready w file r f)
          ]
    ]

-- The stream of an item that was opened is ready; the other items are not read.
abbrev Given : Bool → Option ℕ → Streams → Type 0
Given false f streams = Unit {0}
Given true f streams = (is_open f streams && is_good f streams) ≡ true

Given-Ready : (f : Option ℕ) (streams : Streams) → Ready f streams → Given (is_some f) f streams
Given-Ready none streams ready = tt
Given-Ready (some j) streams ready = ready

abbrev Gives : Opened → Type 0
Gives o = Given o.ret o.item.fs o.reader.streams

module _ (conf : AdbaseConfig) (w : World) (junk : FdItem) (event : InotifyEvent)
    (info : WatcherFileInfo) (r : Reader) (c : Config) where
  Gives-init_opened : (r' : Reader) → Gives (init_opened w junk event info r' c)
  unfolding init_opened
  Gives-init_opened r' =
      let k = get_or_else (find event.origfile r'.alias_map) event.origfile in
      let (item, r1, c1) = init_item w junk event k info r' c in
      let (r2, f) = open_stream w k r1 item.fs in
      Given-Ready f r2.streams (open_stream-Ready w k r1 item.fs)

  Gives-init_stream : Gives (init_stream conf w junk event info r c)
  unfolding init_stream
  Gives-init_stream =
      spared
        (if ltb_ℤ conf.max_fd (pos r.current_fd_num) then gc_fstream_non_lock w (pos 1) r else r)
    where
      spared :
          (r' : Reader)
          → Gives (
              if ltb_ℤ conf.max_fd (pos r'.current_fd_num)
              then record { reader = r'; config = c; item = junk; is_continue = true; ret = false }
              else init_opened w junk event info r' c)
      spared r' = elim (Bool-cases (ltb_ℤ conf.max_fd (pos r'.current_fd_num))) [
        | inl e ↦ rw e tt
        | inr e ↦ rw e (Gives-init_opened r')
      ]

  -- When `initStream` returns true, the item that it gives holds a stream, and that stream is open and
  -- good: neither a stream that the collection closed nor one that was left after a short read is read.
  pub init_stream_lem :
      let o = init_stream conf w junk event info r c in
      o.ret ≡ true
      → (is_open o.item.fs o.reader.streams && is_good o.item.fs o.reader.streams) ≡ true
  init_stream_lem h =
      let o = init_stream conf w junk event info r c in
      subst (λ t. Given t o.item.fs o.reader.streams) h Gives-init_stream
