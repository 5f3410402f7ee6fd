-- ===== src/Reader/Followed/Once.antt =====
-- What the readings of one text file by src/App/Reader.cpp queue, taken together.
use aidt.Prelude.{
  suc, ◌+◌, ◌^◌, ◌<◌, ◌≡◌, refl, sym, ap, ◌∙◌, false, List, [], ◌∷◌, ◌++◌, append_assoc, some,
  Bytes, length, take, drop, bytes_eq, arith, length-append, drop-append, subst,
}
use aidt.Adbase.{BufferOps, IsBuffer, QueueOps, IsFifo}
use aidt.DataStore.{FdItem, MessageItem}
use aidt.Settings.{AdbaseConfig}
use aidt.Config.{WatcherFileInfo}
use aidt.Reader.{Reader}
use aidt.Reader.Format.{Memory}
use aidt.Reader.Loops.{Reading}
use aidt.Reader.Handlers.{clear, moveself, moveto, stop}
use aidt.Reader.Loops.Lines.{complete, Closed, Closed-append, items, items-append}
use aidt.Reader.Followed.{position, Unaliased}
use aidt.Reader.Followed.Others.{KeptPlace-read}
use aidt.Reader.Followed.Handled.{Stays-clear, Stays-moveself, Stays-moveto, Stays-stop}
use aidt.Reader.Followed.Scene.{
  Scene, Step, Reach, grows, shares, follows, reads, clears, moves_self, moves_to, stops, start,
  later,
}
use aidt.Reader.Followed.Forward.{Forward, Forward-read, take-drop}

behind :
    (before done rest : Bytes)
    → drop (length before + length done) (before ++ (done ++ rest)) ≡ rest
behind [] done rest =
    let e : 0 + length done ≡ length done = omega arith in
    ap (λ n. drop n (done ++ rest)) e ∙ drop-append done rest
behind (c ∷ before) done rest =
    let e : suc (length before) + length done ≡ suc (length before + length done) = omega arith in
    ap (λ n. drop n (c ∷ before ++ (done ++ rest))) e ∙ behind before done rest

module _ (b : BufferOps) (buffers : IsBuffer b) (q : QueueOps MessageItem) (fifo : IsFifo q)
    (conf : AdbaseConfig) (mem : Memory) (junk : FdItem) (path : Bytes) (info : WatcherFileInfo)
    (is_text : info.is_binary ≡ false) (at_rest : info.move_time ≡ 0) where
  module _ (before : Bytes) where
    -- The place splits the text where a line ends, and the messages of the file are those of the lines
    -- between the first place and this one.
    record Delivered (s : Scene) : Type 0 where
      done : Bytes
      rest : Bytes
      split : s.text ≡ before ++ (done ++ rest)
      at : position path s.reader.fd_map ≡ length before + length done
      lines : items mem info (complete [] done) ≡ some s.sent
      closed : Closed [] done
      unaliased : Unaliased path s.reader.alias_map
      small : length s.text < 2 ^ 64

    -- The file is read on.
    Delivered-Forward :
        (s : Scene) (d : Delivered s) (reading : Reading)
        → Forward b buffers q fifo conf mem junk path info is_text at_rest s.reader s.queue
            (length before + length d.done)
            d.rest
            reading
        → Delivered (record {
          reader = reading.reader;
          queue = reading.queue;
          text = s.text;
          sent = s.sent ++ drop (length s.queue) reading.queue;
        })
    Delivered-Forward s d reading f = record {
      done = d.done ++ take f.n d.rest;
      rest = drop f.n d.rest;
      split =
          d.split
          ∙ ap (λ t. before ++ (d.done ++ t)) (take-drop f.n d.rest)
          ∙ ap (◌++◌ before) (sym (append_assoc d.done (take f.n d.rest) (drop f.n d.rest)));
      at = f.at ∙ omega (arith, length-append d.done (take f.n d.rest));
      lines =
          ap (items mem info) (d.closed (take f.n d.rest))
          ∙ items-append mem info (complete [] d.done) (complete [] (take f.n d.rest)) s.sent f.sent
              d.lines f.lines
          ∙ ap (λ new. some (s.sent ++ new))
              (sym (ap (drop (length s.queue)) f.queued ∙ drop-append s.queue f.sent));
      closed = Closed-append d.done (take f.n d.rest) d.closed f.closed;
      unaliased = subst (Unaliased path) (sym f.aliases) d.unaliased;
      small = d.small;
    }

    -- Something else happens to the reader.
    Delivered-reader :
        (s : Scene) (r : Reader) (queue : List MessageItem)
        → Delivered s
        → position path r.fd_map ≡ position path s.reader.fd_map
        → Unaliased path r.alias_map
        → Delivered (record s { reader = r; queue = queue })
    Delivered-reader s r queue d at unaliased = record {
      done = d.done;
      rest = d.rest;
      split = d.split;
      at = at ∙ d.at;
      lines = d.lines;
      closed = d.closed;
      unaliased = unaliased;
      small = d.small;
    }

    Delivered-Step :
        (s t : Scene) → Delivered s → Step b q conf mem junk path info s t → Delivered t
    Delivered-Step s t d (grows more small) = record {
      done = d.done;
      rest = d.rest ++ more;
      split =
          ap (λ x. x ++ more) d.split
          ∙ append_assoc before (d.done ++ d.rest) more
          ∙ ap (◌++◌ before) (append_assoc d.done d.rest more);
      at = d.at;
      lines = d.lines;
      closed = d.closed;
      unaliased = d.unaliased;
      small = small;
    }
    Delivered-Step s t d (shares queue) = Delivered-reader s s.reader queue d refl d.unaliased
    Delivered-Step s t d (follows w contents event c reading named setting seen h) =
        Delivered-Forward s d reading (
          Forward-read b buffers q fifo conf mem junk path info is_text at_rest w contents event
            s.reader c s.queue before d.rest named d.unaliased (length before + length d.done) d.at
            (omega (
              arith,
              d.small,
              ap length d.split,
              length-append before (d.done ++ d.rest),
              length-append d.done d.rest,
            ))
            (λ h e.
              ap (drop (length before + length d.done)) (seen h e ∙ d.split)
              ∙ behind before d.done d.rest)
            reading setting h)
    Delivered-Step s t d (reads w contents event c reading other h) =
        let (aliases, at) =
          KeptPlace-read b q conf mem w junk contents event s.reader c s.queue path other
            d.unaliased reading h in
        Delivered-reader s reading.reader reading.queue d at
          (subst (Unaliased path) (sym aliases) d.unaliased)
    Delivered-Step s t d (clears event other) =
        let stays = Stays-clear path s.reader d.unaliased event other in
        Delivered-reader s (clear event s.reader) s.queue d stays.at stays.unaliased
    Delivered-Step s t d (moves_self w event c) =
        let stays = Stays-moveself path s.reader d.unaliased w event c in
        Delivered-reader s (moveself w event s.reader c).0 s.queue d stays.at stays.unaliased
    Delivered-Step s t d (moves_to event other old) =
        let stays = Stays-moveto path s.reader d.unaliased event other old in
        Delivered-reader s (moveto event s.reader) s.queue d stays.at stays.unaliased
    Delivered-Step s t d stops =
        let stays = Stays-stop path s.reader d.unaliased in
        Delivered-reader s (stop s.reader) s.queue d stays.at stays.unaliased

    Delivered-Reach :
        (s t : Scene) → Delivered s → Reach b q conf mem junk path info s t → Delivered t
    Delivered-Reach s t d start = d
    Delivered-Reach s t d (later before_it step) =
        Delivered-Step _ t (Delivered-Reach s _ d before_it) step

    -- For buffers and queues as documented and a text setting that was not moved: start from a reader
    -- that keeps the place behind `before`, with no alias for the file or of it. Whatever happens then,
    -- in any order: text is added to the file, its events and those of other files are read, other files
    -- are deleted and moved, the receivers and the producer change the queue. At any time the kept place
    -- divides the file's text into `before`, what was done, and the rest, and the readings of the file
    -- have queued exactly the items of the complete lines of what was done that are not empty, in their
    -- order: each once, and none but these.
    pub once_lem :
        (s t : Scene) (rest : Bytes)
        → s.text ≡ before ++ rest
        → position path s.reader.fd_map ≡ length before
        → Unaliased path s.reader.alias_map
        → length s.text < 2 ^ 64
        → s.sent ≡ []
        → Reach b q conf mem junk path info s t
        → (done left : Bytes) × (t.text ≡ before ++ (done ++ left))
          × (position path t.reader.fd_map ≡ length before + length done)
          × (items mem info (complete [] done) ≡ some t.sent)
    once_lem s t rest split at unaliased small none_sent reach =
        let d =
          Delivered-Reach s t
            (record {
              done = [];
              rest = rest;
              split = split;
              at = at ∙ omega arith;
              lines = ap some (sym none_sent);
              closed = λ u. refl;
              unaliased = unaliased;
              small = small;
            })
            reach in
        (d.done, d.rest, d.split, d.at, d.lines)
