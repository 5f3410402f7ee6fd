-- ===== src/Delivery.antt =====
-- A text file of src/App/Reader.cpp and the way of its lines through the program, up to the producer: the
-- scene of the file and the flow of the messages have one queue.
pub mod Merge
pub mod Complete
use aidt.Prelude.{ℕ, ◌≡◌, Bool, true, false, List, ◌++◌, Bytes, length, drop, if◌then◌else◌}
use aidt.Adbase.{BufferOps, QueueOps}
use aidt.DataStore.{FdItem, MessageItem}
use aidt.Settings.{AdbaseConfig}
use aidt.Config.{WatcherFileInfo}
use aidt.Reader.Format.{Memory}
use aidt.Reader.Followed.Scene.{
  Scene, grows, shares, follows, reads, clears, moves_self, moves_to, stops,
}
use aidt.Reader.Followed.Scene
use aidt.Pipeline.{Flow, grown_by}
use aidt.Pipeline

-- `others` are the items that came into the queue and not by a reading of the file, oldest first; those
-- of the file's readings are `scene.sent`.
pub record Delivery : Type 0 where
  pub scene : Scene
  pub flow : Flow
  pub others : List MessageItem

module _ (b : BufferOps) (q : QueueOps MessageItem) (conf : AdbaseConfig) (mem : Memory)
    (junk : FdItem) (path : Bytes) (info : WatcherFileInfo) where
  -- A step of the file or of its reader, and not one of those that share the queue.
  unfoldable pub is_own : {s u : Scene} → Scene.Step b q conf mem junk path info s u → Bool
  is_own (grows more small) = true
  is_own (shares queue) = false
  is_own (follows w contents event c reading named setting seen h) = true
  is_own (reads w contents event c reading other h) = true
  is_own (clears event other) = true
  is_own (moves_self w event c) = true
  is_own (moves_to event other old) = true
  is_own stops = true

  -- Whether it is a reading of the file.
  unfoldable pub of_file : {s u : Scene} → Scene.Step b q conf mem junk path info s u → Bool
  of_file (grows more small) = false
  of_file (shares queue) = false
  of_file (follows w contents event c reading named setting seen h) = true
  of_file (reads w contents event c reading other h) = false
  of_file (clears event other) = false
  of_file (moves_self w event c) = false
  of_file (moves_to event other old) = false
  of_file stops = false

  module _ (explode : Bytes → ℕ → Bool → List Bytes) (version_text : Bytes) where
    pub data Step (s : Delivery) : Delivery → Type 0 where
      -- The file or the reader changes, or a file is read; what comes into the queue counts as accepted.
      turns :
          {u : Scene} (step : Scene.Step b q conf mem junk path info s.scene u)
          → is_own step ≡ true
          → Step s (record {
            scene = u;
            flow = record s.flow { queue = u.queue; accepted = grown_by s.flow u.queue };
            others =
                if of_file step then s.others else s.others ++ drop (length s.flow.queue) u.queue;
          })
      -- Other readers, the receivers, a resend, the producer.
      passes :
          {t : Flow}
          → Pipeline.Step b q conf mem junk explode version_text s.flow t
          → Step s (record {
            scene = record s.scene { queue = t.queue };
            flow = t;
            others = s.others ++ drop (length s.flow.accepted) t.accepted;
          })

    pub data Reach (s : Delivery) : Delivery → Type 0 where
      start : Reach s s
      later : {t u : Delivery} → Reach s t → Step t u → Reach s u
