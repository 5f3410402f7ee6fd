-- ===== src/Watcher/Configured/Rounds.antt =====
-- The rounds of `watcherThread` of src/App/Watcher.cpp that take the queued settings.
use aidt.Prelude.{
  ℕ, zero, suc, ◌≡◌, refl, ap, ◌∙◌, List, [], ◌∷◌, ◌++◌, append_assoc, Option, none, some, Bytes,
  length, bytes_eq,
}
use aidt.Prelude.Table.{find}
use aidt.Adbase.{QueueOps, IsFifo, TextOps}
use aidt.Config.{Config, WatcherFileMap, WatcherFileInfo, update_file_info}
use aidt.Config.Update.{consumer_config-cons, update_file_info_lem, keys, Unique}
use aidt.Events.{InotifyEvent}
use aidt.Watcher.{Watcher, Watch, System, create_watcher, consumer_config_queue}
use aidt.Watcher.Configured.{planned, files_of, grown, grown_nil, create_watcher_lem}

abbrev pub table : WatcherFileMap → List Bytes → Config
table m ks = record { file_map = m; queue = ks }

module _ (q : QueueOps InotifyEvent) (sys : System) (t : TextOps) (names : QueueOps Bytes) where
  -- Rounds of `consumerConfigQueue` without an event between them.
  pub rounds : ℕ → Config → Watcher → Config × Watcher
  rounds zero c w = (c, w)
  rounds (suc n) c w = let (c', w') = consumer_config_queue q sys t names c w in rounds n c' w'

  -- What a round does with a path that was taken and looked up.
  abbrev handled : Watcher → Config × Option WatcherFileInfo → Config × Watcher
  handled w (c, none) = (c, w)
  handled w (c, some info) =
      (c, create_watcher q sys t c w info.path_file info.excludes info.is_dir info.is_recursive)

module _ (sys : System) (t : TextOps) where
  abbrev plan :
      WatcherFileMap → List Bytes → Option WatcherFileInfo → List Watch × List InotifyEvent
  plan m ks none = ([], [])
  plan m ks (some info) =
      planned sys t (table m ks) info.path_file info.excludes info.is_dir info.is_recursive

  -- The watches and the first events for the settings of the paths `ks`, in their order.
  pub plan_all : WatcherFileMap → List Bytes → List Watch × List InotifyEvent
  plan_all m [] = ([], [])
  plan_all m (k ∷ ks) =
      let (watches, events) = plan m [] (find k m) in
      let (more_watches, more_events) = plan_all m ks in
      (watches ++ more_watches, events ++ more_events)

module _ (q : QueueOps InotifyEvent) (fifo : IsFifo q) (sys : System) (t : TextOps)
    (names : QueueOps Bytes) (name_fifo : IsFifo names) where
  -- What is planned does not depend on the queue of paths.
  planned-table :
      (m : WatcherFileMap) (ks : List Bytes) (info : WatcherFileInfo)
      → plan sys t m ks (some info) ≡ plan sys t m [] (some info)
  unfolding planned files_of
  planned-table m ks info = refl

  handled_lem :
      (m : WatcherFileMap) (ks : List Bytes) (w : Watcher) (found : Option WatcherFileInfo)
      → handled q sys t names w (table m ks, found) ≡ (table m ks, grown w (plan sys t m [] found))
  handled_lem m ks w none = ap (λ w'. (table m ks, w')) (grown_nil q fifo sys t (table m []) w)
  handled_lem m ks w (some info) =
      ap (λ w'. (table m ks, w'))
        (create_watcher_lem q fifo sys t (table m ks) w info.path_file info.excludes info.is_dir
            info.is_recursive
          ∙ ap (grown w) (planned-table m ks info))

  round_lem :
      (m : WatcherFileMap) (k : Bytes) (ks : List Bytes) (w : Watcher)
      → consumer_config_queue q sys t names (table m (k ∷ ks)) w
        ≡ (table m ks, grown w (plan sys t m [] (find k m)))
  unfolding consumer_config_queue
  round_lem m k ks w =
      ap (handled q sys t names w) (consumer_config-cons names name_fifo m k ks)
      ∙ handled_lem m ks w (find k m)

  grown-grown :
      (w : Watcher) (watches more_watches : List Watch) (events more_events : List InotifyEvent)
      → grown (grown w (watches, events)) (more_watches, more_events)
        ≡ grown w (watches ++ more_watches, events ++ more_events)
  grown-grown w watches more_watches events more_events =
      rw
        (append_assoc w.watches watches more_watches, append_assoc w.event_queue events more_events)
        refl

  rounds_lem :
      (m : WatcherFileMap) (ks : List Bytes) (w : Watcher)
      → rounds q sys t names (length ks) (table m ks) w
        ≡ (table m [], grown w (plan_all sys t m ks))
  unfolding rounds plan_all
  rounds_lem m [] w = ap (λ w'. (table m [], w')) (grown_nil q fifo sys t (table m []) w)
  rounds_lem m (k ∷ ks) w =
      let (watches, events) = plan sys t m [] (find k m) in
      let (more_watches, more_events) = plan_all sys t m ks in
      ap (λ (s : Config × Watcher). rounds q sys t names (length ks) s.0 s.1) (round_lem m k ks w)
      ∙ rounds_lem m ks (grown w (plan sys t m [] (find k m)))
      ∙ ap (λ w'. (table m [], w')) (grown-grown w watches more_watches events more_events)

  -- For queues as documented: after new settings, in which no path stands twice, were taken over into a
  -- table whose queue was empty, as many rounds of `watcherThread` as there are settings leave no path
  -- in the queue, have requested the watch for each setting that has one, in their order, and have
  -- queued an event to read for each regular file of theirs; nothing else is requested or queued.
  pub rounds-update_file_info :
      (m infos : WatcherFileMap) (w : Watcher)
      → Unique infos
      → let c = update_file_info names (table m []) infos in
        rounds q sys t names (length (keys infos)) c w
        ≡ (record c { queue = [] }, grown w (plan_all sys t c.file_map (keys infos)))
  rounds-update_file_info m infos w unique =
      let c = update_file_info names (table m []) infos in
      let queued = (update_file_info_lem names name_fifo (table m []) infos unique).1 in
      ap (λ ks. rounds q sys t names (length (keys infos)) (table c.file_map ks) w) queued
      ∙ rounds_lem c.file_map (keys infos) w
