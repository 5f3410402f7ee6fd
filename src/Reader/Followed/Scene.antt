-- ===== src/Reader/Followed/Scene.antt =====
-- One text file and the program beside it: every step that may happen to the reader of
-- src/App/Reader.cpp and to its message queue, in any order, while the file keeps its name.
use aidt.Prelude.{ℕ, ◌^◌, ◌<◌, ◌≡◌, false, List, ◌++◌, some, Bytes, length, drop, list_beq}
use aidt.Adbase.{BufferOps, QueueOps}
use aidt.DataStore.{FdItem, MessageItem}
use aidt.Settings.{AdbaseConfig}
use aidt.Config.{Config, WatcherFileInfo, find_file}
use aidt.Events.{InotifyEvent}
use aidt.Reader.{Reader, World, init_stream}
use aidt.Reader.Format.{Memory}
use aidt.Reader.Handlers.{clear, moveself, moveto, stop}
use aidt.Reader.Loops.{Reading, read}

-- The reader, the message queue, what the file holds, and the messages that the readings of this file
-- have queued, oldest first.
pub record Scene : Type 0 where
  pub reader : Reader
  pub queue : List MessageItem
  pub text : Bytes
  pub sent : List MessageItem

module _ (b : BufferOps) (q : QueueOps MessageItem) (conf : AdbaseConfig) (mem : Memory)
    (junk : FdItem) (path : Bytes) (info : WatcherFileInfo) where
  pub data Step (s : Scene) : Scene → Type 0 where
    -- Something is written behind the end of the file.
    grows :
        (more : Bytes)
        → length (s.text ++ more) < 2 ^ 64
        → Step s (record s { text = s.text ++ more })
    -- The receivers and the producer change the queue.
    shares : (queue : List MessageItem) → Step s (record s { queue = queue })
    -- An event of the file is read, under its setting or under none.
    follows :
        (w : World) (contents : ℕ → Bytes) (event : InotifyEvent) (c : Config) (reading : Reading)
        → event.origfile ≡ path
        → ((found : WatcherFileInfo) → find_file c event.pathfile ≡ some found → found ≡ info)
        → ((h : ℕ)
            → (init_stream conf w junk event info s.reader c).item.fs ≡ some h
            → contents h ≡ s.text)
        → read b q conf mem w junk contents event s.reader c s.queue ≡ some reading
        → Step s (record {
          reader = reading.reader;
          queue = reading.queue;
          text = s.text;
          sent = s.sent ++ drop (length s.queue) reading.queue;
        })
    -- An event of another file is read.
    reads :
        (w : World) (contents : ℕ → Bytes) (event : InotifyEvent) (c : Config) (reading : Reading)
        → list_beq event.origfile path ≡ false
        → read b q conf mem w junk contents event s.reader c s.queue ≡ some reading
        → Step s (record s { reader = reading.reader; queue = reading.queue })
    -- Other files are deleted and moved.
    clears :
        (event : InotifyEvent)
        → list_beq event.origfile path ≡ false
        → Step s (record s { reader = clear event s.reader })
    moves_self :
        (w : World) (event : InotifyEvent) (c : Config)
        → Step s (record s { reader = (moveself w event s.reader c).0 })
    moves_to :
        (event : InotifyEvent)
        → list_beq event.origfile path ≡ false
        → list_beq event.aliasfile path ≡ false
        → Step s (record s { reader = moveto event s.reader })
    stops : Step s (record s { reader = stop s.reader })

  pub data Reach (s : Scene) : Scene → Type 0 where
    start : Reach s s
    later : {t u : Scene} → Reach s t → Step t u → Reach s u
