-- ===== src/Reader/Reached.antt =====
-- The states that a reader of src/App/Reader.cpp comes through: every operation that another part of
-- the program calls, in any order and with any arguments, from the reader that `App::run` makes.
pub mod Restart
use aidt.Prelude.{ℕ, ◌≡◌, refl, inr, Bool, true, List, [], Option, none, some, Bytes}
use aidt.Adbase.{BufferOps, QueueOps}
use aidt.Files.{Disk}
use aidt.DataStore.{FdItem, MessageItem}
use aidt.Settings.{AdbaseConfig}
use aidt.Config.{Config}
use aidt.Events.{InotifyEvent}
use aidt.Reader.{Reader, World}
use aidt.Reader.Format.{Memory}
use aidt.Reader.Handlers.{clear, moveself, moveto, load, stop}
use aidt.Reader.Handlers.Owned.{
  IsSound-clear, IsSound-moveself, IsSound-moveto, IsSound-load, IsSound-stop,
}
use aidt.Reader.Loops.{Reading, read}
use aidt.Reader.Loops.Owned.{IsSound-read}
use aidt.Reader.Ownership.{IsSound}

-- `new app::Reader(...)`
abbrev pub new_reader : Reader
new_reader = record {
  fd_map = [];
  alias_map = [];
  current_fd_num = 0;
  running = true;
  streams = [];
  next_stream = 0;
}

module _ (b : BufferOps) (q : QueueOps MessageItem) (conf : AdbaseConfig) (mem : Memory)
    (junk : FdItem) where
  -- One operation: the events are handled by the thread of the event queue, the offset file is loaded
  -- at the start, and the end of the program stops the reader.
  pub data Step (r : Reader) : Reader → Type 0 where
    reads :
        (w : World) (contents : ℕ → Bytes) (event : InotifyEvent) (c : Config)
        (queue : List MessageItem) (reading : Reading)
        → read b q conf mem w junk contents event r c queue ≡ some reading
        → Step r reading.reader
    clears : (event : InotifyEvent) → Step r (clear event r)
    moves_self : (w : World) (event : InotifyEvent) (c : Config) → Step r (moveself w event r c).0
    moves_to : (event : InotifyEvent) → Step r (moveto event r)
    loads : (disk : Disk) → Step r (load b junk conf r disk)
    stops : Step r (stop r)

  pub data Reach : Reader → Type 0 where
    start : Reach new_reader
    later : {r r' : Reader} → Reach r → Step r r' → Reach r'

  IsSound-new_reader : IsSound new_reader
  IsSound-new_reader = record {
    unique = tt;
    named = λ p. tt;
    live = λ p. tt;
    apart = λ p q. inr tt;
  }

  IsSound-Step : (r r' : Reader) → IsSound r → Step r r' → IsSound r'
  IsSound-Step r r' sound (reads w contents event c queue reading h) =
      IsSound-read b q conf mem w junk contents event r c queue sound reading h
  IsSound-Step r r' sound (clears event) = IsSound-clear event r sound
  IsSound-Step r r' sound (moves_self w event c) = IsSound-moveself w event r c sound
  IsSound-Step r r' sound (moves_to event) = IsSound-moveto event r sound
  IsSound-Step r r' sound (loads disk) = IsSound-load b junk conf r disk sound
  IsSound-Step r r' sound stops = IsSound-stop r sound

  -- In every state that a reader comes through, by any sequence of reads, of handled deletions and
  -- moves and of loads of the offset file, every position stands under the name that it carries, every
  -- stream that a position holds has not been deleted, and no two positions hold the same stream.
  pub Reach-IsSound : (r : Reader) → Reach r → IsSound r
  Reach-IsSound r start = IsSound-new_reader
  Reach-IsSound r (later before step) = IsSound-Step _ r (Reach-IsSound _ before) step
