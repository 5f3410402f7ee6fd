-- ===== src/Lib.antt =====
-- A model of aidt, the agent that sends the lines of files and the messages of its receivers to Kafka.
--
-- The program. `Watcher` (src/App/Watcher.cpp) turns inotify's events into events for `Reader`
-- (src/App/Reader.cpp), by the settings that `Config` (src/App/Config.cpp) keeps. `Reader` reads the
-- lines or the binary frames that were added to a file and hands them to `Message`
-- (src/App/Message.cpp), whose queue the memcache and HTTP receivers (src/McProcessor.cpp,
-- src/Http/Message.cpp) fill too. The Kafka producer (src/Aims/Kafka/ProducerIn.cpp) takes messages
-- from the queue; `App` (src/App.cpp) checks their topics. `DataStore` (src/App/DataStore.cpp) saves
-- the queue and the reading offsets in files and loads them again, when `App` starts and stops the
-- parts. `AdServer` (src/AdServer.cpp) keeps the receivers and the pages of src/Http/Server.cpp;
-- `BootStrap` (src/BootStrap.cpp) reads the settings and starts and stops all of them.
--
-- The files. The modules are named for the source files.
--   Prelude    shared helpers: tests on numbers, lists, keys, tables, the integers.
--   Adbase     the operations of the library adbase, as records that the definitions take, with the
--              laws that are relied on: buffers, queues, the splitting of texts.
--   Files, Texts, Strtoul, Decimal   what is used of files, of `std::string` and of the C library.
--   DataStore  `serialize`, `saveMessage`, `loadMessage`, `saveOffset(s)`, `loadOffsets`. Messages and
--              Restart are on the message file, Offsets and Reload on the offset file.
--   Message    `send`, `setMessage`, `errorCallback`, `saveMessage`, `loadMessage`. Bounds is on the
--              limit of the queue at one call, Fifo on sequences of calls, Errors on `errorCallback`.
--   BootStrap  the program as a whole: `parseOption`, `reload`, `stop` and the kill signal of
--              src/aidt.cpp. Options is on `loadConfig`, here and in App: how the options of an ini
--              file become the settings. Launch is on the start and on the option `-t`, Reloaded
--              and Stopped on reloads and on the end.
--   Aims       the settings and the life of the Kafka producer.
--   App        `checkValidTopicAndPartition`. Lifecycle is on `run`, `stop`, `reload` and `resend`, the
--              parts together, and on the timer that saves the positions (src/Timer.cpp).
--   Pipeline   all that puts messages into the queue and takes them out, in any order.
--   Delivery   a text file and the Pipeline together: from its lines to the producer.
--   ProducerIn, McProcessor, Http   the two ends of the queue. McProcessor/Commands has all commands of
--              the protocol; Http/Server has the pages of the status server: Object the JSON and the
--              lines, Status the page of the process and its modules, Metrics the page of samples.
--   AdServer   the three servers, and `httpFallback`.
--   Config     the table of settings and `patternPath`. Update is on reloads, Pattern on the search.
--   Events     `InotifyEvent`.
--   Reader     `initStream`, `openStream`, the collection of streams and `setFileOffset`. Store is on
--              `std::fstream`, Format on the `snprintf` of `sendMessage`, Handlers on `clear`,
--              `moveself`, `moveto`, `save` and `load`, Loops on `readString`, `readBinary` and `read`,
--              with Loops/Rounds on the calls for an event that is queued again. Ownership says to
--              whom a stream belongs, Followed is on one text file over all that may happen beside
--              it, Reached is on the states that a reader comes through, Ready on what `initStream`
--              returns.
--   Watcher    `createWatcher`, `deleteWatcher`, `patternPathFile`, `paserWatcherFile`. Paser is
--              `paserEvent`, Dispatch is `eventThread`, Configured is on the watches that settings
--              ask for, Threads on both threads and `stop` in any interleaving.
--   ConfigPaser   the reading of the settings, over what is called of yaml-cpp (src/App/ConfigPaser.cpp).
--              Checked is on `check` and `paser`.
--   Cli        the dumps of the tool (src/BootStrapCli.cpp). Dump is on `dumpMessage`, Offsets and
--              Restored on `dumpOffset` and `dynamicOffset`.
--   Tests      the theorems at concrete inputs.
--
-- The state. An object is a record of its members; an operation takes the record and gives a new one.
-- An operation that holds the mutex to its end is one step; where it does not, the file says which
-- parts are. A map is a list of keys and values, visited in the list's order. A `std::fstream` stands
-- in a store by number, since items share it by pointer. Undefined behaviour is `none`, or an outcome
-- of its own. A byte is a number; a `std::string` is a list of bytes.
--
-- Options. An option that cannot be read is an exception; what was assigned before it stays.
--
-- Numbers. They are natural; an unsigned integer is reduced where the source's type wraps, and an
-- `int` that is compared is an integer read in two's complement. Counters of lines and of streams are
-- taken to stay below 2 ^ 31, and memory is always found.
--
-- Fuel. The loops over a file take fuel: one round more than the file has bytes is enough, since every
-- round of them goes forward. The event thread takes a number of rounds, one for every event up to
-- the one that stops it. The calls of `read` for an event that is queued again take one call more
-- than the file has bytes left: each of them reads some.
--
-- Not modelled: how threads and sockets are made, forking, the set-up of the log, the timers and the
-- servers, which hand values and callbacks to adbase and the system; the controllers that answer with a
-- constant;
-- log lines. Inotify and the copy of inotify-tools (src/thridpart/inotify) are not part of the
-- program: a list of requests stands for them. The metrics and the statistics of a process are
-- adbase's, and are parameters; so is the order in which a `std::unordered_map` is visited.
pub mod Prelude
pub mod Adbase
pub mod Files
pub mod Texts
pub mod Strtoul
pub mod Decimal
pub mod Settings
pub mod DataStore
pub mod Message
pub mod App
pub mod ProducerIn
pub mod McProcessor
pub mod Http
pub mod Config
pub mod Events
pub mod Reader
pub mod Watcher
pub mod AdServer
pub mod Aims
pub mod BootStrap
pub mod Cli
pub mod ConfigPaser
pub mod Delivery
pub mod Pipeline
pub mod Tests
