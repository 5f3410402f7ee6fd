-- ===== src/Watcher/Threads.antt =====
-- The two threads of src/App/Watcher.cpp and its `stop`, in any interleaving, from the time when both
-- threads are in their loops. A call of `consumerConfigQueue` or `paserEvent` is one step, as is a round
-- of the event thread.
pub mod Steps
pub mod Stopping
pub mod Ends
use aidt.Prelude.{
  ℕ, ◌+◌, ◌-◌, ◌≡◌, Bool, true, false, List, [], Option, none, some, Bytes, if◌then◌else◌,
}
use aidt.Adbase.{QueueOps, TextOps}
use aidt.Config.{Config}
use aidt.Events.{InotifyEvent}
use aidt.Events
use aidt.Watcher.{Watcher, System, consumer_config_queue}
use aidt.Watcher.Paser.{RawEvent, paser_event}
use aidt.Watcher.Dispatch.{Handlers, runs, stops, event_round}

-- Where `Watcher::watcherThread` is: at the test of `_running`, at `consumerConfigQueue`, at the next
-- event of inotify, or at its end.
pub data At : Type 0 where
  at_test at_config at_event at_end : At

-- `state` is the reader's. `rounds` counts the rounds of the event thread, the last one included.
pub record Threads (S : Type 0) : Type 0 where
  pub watcher : Watcher
  pub config : Config
  pub running : Bool
  pub at : At
  pub event_thread_number : ℕ
  pub state : S
  pub rounds : ℕ

-- The event that `stop` pushes.
unfoldable pub stop_event : InotifyEvent
stop_event = record { pathfile = []; origfile = []; aliasfile = []; event = Events.stop }

module _ {S : Type 0} where
  -- What `Watcher::Watcher` and `Watcher::start` leave when both threads are in their loops.
  abbrev pub started : Config → S → Threads S
  started config state = record {
    watcher = record { cache = []; event_queue = []; dir_type_move_from = []; watches = [] };
    config = config;
    running = true;
    at = at_test;
    event_thread_number = 1;
    state = state;
    rounds = 0;
  }

  abbrev pub with_queue : Threads S → List InotifyEvent → Threads S
  with_queue s queue = record s { watcher = record s.watcher { event_queue = queue } }

  -- `Watcher::stop` up to the wait for the event thread.
  unfoldable pub stop : QueueOps InotifyEvent → Threads S → Threads S
  unfolding stop_event
  stop q s = record (with_queue s (q.push s.watcher.event_queue stop_event)) { running = false }

  -- The test of the loop of `Watcher::watcherThread`.
  unfoldable pub test : Threads S → Threads S
  test s = record s { at = if s.running then at_config else at_end }

  -- Its call of `consumerConfigQueue`.
  pub consume : QueueOps InotifyEvent → System → TextOps → QueueOps Bytes → Threads S → Threads S
  consume q sys t names s =
      let (config, watcher) = consumer_config_queue q sys t names s.config s.watcher in
      record s { watcher = watcher; config = config; at = at_event }

  -- What it does with what `inotifytools_next_event` returns.
  pub parse : QueueOps InotifyEvent → System → TextOps → Option RawEvent → Threads S → Threads S
  parse q sys t none s = record s { at = at_test }
  parse q sys t (some event) s = record s {
    watcher = paser_event q t sys s.config s.watcher event;
    at = at_test;
  }

  -- What a round of `Watcher::eventThread` leaves, and what its end leaves.
  unfoldable pub go_on : Threads S → List InotifyEvent → S → Threads S
  go_on s queue state = record (with_queue s queue) { state = state; rounds = s.rounds + 1 }

  pub finish : Threads S → List InotifyEvent → S → Threads S
  finish s queue state = record (with_queue s queue) {
    state = state;
    rounds = s.rounds + 1;
    event_thread_number = s.event_thread_number - 1;
  }

  module _ (q : QueueOps InotifyEvent) (t : TextOps) (names : QueueOps Bytes) (h : Handlers S) where
    pub data Step (s : Threads S) : Threads S → Type 0 where
      tests : s.at ≡ at_test → Step s (test s)
      consumes : (sys : System) → s.at ≡ at_config → Step s (consume q sys t names s)
      parses :
          (sys : System) (event : Option RawEvent)
          → s.at ≡ at_event
          → Step s (parse q sys t event s)
      -- The settings are reloaded.
      reloads : (c : Config) → Step s (record s { config = c })
      goes_on :
          (queue : List InotifyEvent) (state : S)
          → s.event_thread_number ≡ 1
          → event_round q h s.watcher.event_queue s.state ≡ runs queue state
          → Step s (go_on s queue state)
      finishes :
          (queue : List InotifyEvent) (state : S)
          → s.event_thread_number ≡ 1
          → event_round q h s.watcher.event_queue s.state ≡ stops queue state
          → Step s (finish s queue state)
      stops_all : Step s (stop q s)

    pub data Reach (s : Threads S) : Threads S → Type 0 where
      start : Reach s s
      later : {t' u : Threads S} → Reach s t' → Step t' u → Reach s u
