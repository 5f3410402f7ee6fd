-- ===== src/McProcessor/Commands.antt =====
-- src/McProcessor.cpp: the commands of the memcache protocol, as `AdServer::bindMcCallback` of
-- src/AdServer.cpp hands them to it. `get`, `stat` and `version` append to a buffer; what is only
-- logged is not modelled.
use aidt.Prelude.{ℕ, Bool, List, [], Bytes}
use aidt.Adbase.{BufferOps, QueueOps}
use aidt.DataStore.{MessageItem}
use aidt.Settings.{AdbaseConfig}
use aidt.App.{TopicMap}
use aidt.ProducerIn.{Context}
use aidt.McProcessor
use aidt.McProcessor.{Status, success, Inbox}

pub data Command : Type 0 where
  add : Bytes → Bytes → ℕ → ℕ → Command
  append : Bytes → Bytes → ℕ → Command
  decrement : Bytes → ℕ → ℕ → ℕ → Command
  delete_op : Bytes → ℕ → Command
  flush : ℕ → Command
  get : Bytes → Command
  increment : Bytes → ℕ → ℕ → ℕ → Command
  prepend : Bytes → Bytes → ℕ → Command
  noop quit : Command
  replace : Bytes → Bytes → ℕ → ℕ → ℕ → Command
  set : Bytes → Bytes → ℕ → ℕ → ℕ → Command
  version : Command
  verbosity : ℕ → Command
  stat : Bytes → Command

-- The status of a command and the data of its reply.
pub record Answer : Type 0 where
  pub status : Status
  pub data_out : Bytes

abbrev done : Answer
done = record { status = success; data_out = [] }

-- `McProcessor::get` and `McProcessor::stat`: the reply is the key.
pub get_key : BufferOps → Bytes → Answer
get_key b key = record { status = success; data_out = b.append [] key }

-- `McProcessor::version`; the build makes `VERSION`.
pub get_version : BufferOps → Bytes → Answer
get_version b version_text = record { status = success; data_out = b.append [] version_text }

module _ (b : BufferOps) (q : QueueOps MessageItem) (conf : AdbaseConfig)
    (explode : Bytes → ℕ → Bool → List Bytes) (version_text : Bytes) (context : Context) where
  -- One command; `live` is what the producer's `getTopics` returns.
  unfoldable pub command : TopicMap → Inbox → Command → Inbox × Answer
  unfolding get_key get_version
  command live s (add key value flags exptime) = (s, done)
  command live s (append key value cas) = (s, done)
  command live s (decrement key delta initial expiration) = (s, done)
  command live s (delete_op key cas) = (s, done)
  command live s (flush when) = (s, done)
  command live s (get key) = (s, get_key b key)
  command live s (increment key delta initial expiration) = (s, done)
  command live s (prepend key value cas) = (s, done)
  command live s noop = (s, done)
  command live s quit = (s, done)
  command live s (replace key value flags exptime cas) = (s, done)
  command live s (set key value flags exptime cas) =
      let (s', status) = McProcessor.set q conf explode context live s key value in
      (s', record { status = status; data_out = [] })
  command live s version = (s, get_version b version_text)
  command live s (verbosity verbose) = (s, done)
  command live s (stat key) = (s, get_key b key)
