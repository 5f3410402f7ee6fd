-- ===== src/Pipeline.antt =====
-- The way of the messages through the program: what the reader of src/App/Reader.cpp, the receivers of
-- src/McProcessor.cpp and src/Http/Message.cpp and a resend put into the queue, and what the producer of
-- src/Aims/Kafka/ProducerIn.cpp takes out, in any order. The queue, the topics and the disk are shared.
pub mod Grown
pub mod Received
pub mod Conserved
use aidt.Prelude.{ℕ, ◌≡◌, Bool, List, [], ◌∷◌, ◌++◌, Option, some, Bytes, length, drop}
use aidt.Adbase.{BufferOps, QueueOps}
use aidt.Files.{Disk}
use aidt.DataStore.{FdItem, MessageItem}
use aidt.Settings.{AdbaseConfig}
use aidt.Message.{Outgoing, load_message}
use aidt.App.{TopicMap}
use aidt.Config.{Config}
use aidt.Events.{InotifyEvent}
use aidt.Reader.{Reader, World}
use aidt.Reader.Format.{Memory}
use aidt.Reader.Loops.{Reading, read}
use aidt.ProducerIn.{Context, State, running, send, on_error}
use aidt.McProcessor.{Inbox}
use aidt.McProcessor.Commands.{Command, command}
use aidt.Http.{Request, index}

-- What the parts share, the items that came into the queue, and what the producer took, with the answer
-- that it was given: whether the message is to be sent.
pub record Flow : Type 0 where
  pub queue : List MessageItem
  pub topics : TopicMap
  pub disk : Disk
  pub accepted : List MessageItem
  pub taken : List (Outgoing × Bool)

abbrev pub inbox_of : Flow → Inbox
inbox_of s = record { queue = s.queue; topics = s.topics }

abbrev pub state_of : Flow → State
state_of s = record { queue = s.queue; topics = s.topics; disk = s.disk }

-- What came behind the items of the queue.
abbrev pub grown_by : Flow → List MessageItem → List MessageItem
grown_by s queue = s.accepted ++ drop (length s.queue) queue

-- What the producer takes where there is something to take.
abbrev pub taken_of : List MessageItem → Outgoing → Bool → List (Outgoing × Bool)
taken_of [] sent ret = []
taken_of (item ∷ rest) sent ret = (sent, ret) ∷ []

-- What is left when a receiver, a resend and the producer are done.
abbrev pub received : Flow → Inbox → Flow
received s after = record s {
  queue = after.queue;
  topics = after.topics;
  accepted = grown_by s after.queue;
}

abbrev pub loaded : Flow → Disk × List MessageItem → Flow
loaded s after = record s { queue = after.1; disk = after.0; accepted = grown_by s after.1 }

abbrev pub produced : Flow → State × Outgoing × Bool → Flow
produced s (after, sent, ret) = record {
  queue = after.queue;
  topics = after.topics;
  disk = after.disk;
  accepted = s.accepted;
  taken = s.taken ++ taken_of s.queue sent ret;
}

module _ (b : BufferOps) (q : QueueOps MessageItem) (conf : AdbaseConfig) (mem : Memory)
    (junk : FdItem) (explode : Bytes → ℕ → Bool → List Bytes) (version_text : Bytes) where
  pub data Step (s : Flow) : Flow → Type 0 where
    -- Any reader reads for any event.
    reads :
        (w : World) (contents : ℕ → Bytes) (event : InotifyEvent) (r : Reader) (c : Config)
        (reading : Reading)
        → read b q conf mem w junk contents event r c s.queue ≡ some reading
        → Step s (record s { queue = reading.queue; accepted = grown_by s reading.queue })
    commands :
        (context : Context) (live : TopicMap) (c : Command)
        → Step s (received s (command b q conf explode version_text context live (inbox_of s) c).0)
    requests :
        (context : Context) (live : TopicMap) (request : Request)
        → Step s (received s (index q conf context live (inbox_of s) request).0)
    resends : Step s (loaded s (load_message b q conf s.disk s.queue))
    sends :
        (live : TopicMap) (any : ℕ) (out : Outgoing)
        → Step s (produced s (send b q conf running live any (state_of s) out))
    -- A message could not be sent.
    fails :
        (any : ℕ) (out : Outgoing)
        → Step s (record s { disk = (on_error b q conf running any (state_of s) out).disk })

  pub data Reach (s : Flow) : Flow → Type 0 where
    start : Reach s s
    later : {t u : Flow} → Reach s t → Step t u → Reach s u
