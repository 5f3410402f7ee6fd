-- ===== src/Watcher.antt =====
-- src/App/Watcher.cpp: from inotify's events to the events of the reader. One thread runs the
-- operations of this file and of Watcher/Paser.antt, another one those of Watcher/Dispatch.antt; the
-- event queue is all that they share. inotify itself is not modelled: the requests that the program
-- makes of it stand in the state, in their order; whether they succeed is only logged.
pub mod Cache
pub mod Paser
pub mod Dispatch
pub mod Added
pub mod Threads
pub mod Configured
use aidt.Prelude.{
  ℕ, ◌%◌, ◌^◌, Bool, true, false, not, List, [], ◌∷◌, ◌++◌, Option, none, some, ℤ, pos, ◌-ℤ◌, ltb_ℤ,
  to_int, Bytes, init, ◌&&◌, ◌>>=◌, length, ltb, get_or_else, if◌then◌else◌, bytes_eq,
}
use aidt.Prelude.Table.{find, insert, erase}
use aidt.Adbase.{QueueOps, TextOps}
use aidt.Texts.{join_parts}
use aidt.Config.{
  Config, WatcherFileInfo, find_file, pattern_path, consumer_config, is_has_watcher_file,
}
use aidt.Events.{InotifyEvent, modify}

-- `InotifyPaserCacheItem`
pub record CacheItem : Type 0 where
  pub pathfile : Bytes
  pub last_time : ℤ

abbrev pub Cache : Type 0
Cache = List (Bytes × CacheItem)

pub data Watch : Type 0 where
  watch_file : Bytes → Watch
  watch_recursively : Bytes → Watch
  watch_excluding : Bytes → List Bytes → Watch
  remove_watch : Bytes → Watch

pub record Watcher : Type 0 where
  pub cache : Cache
  pub event_queue : List InotifyEvent
  pub dir_type_move_from : Bytes
  pub watches : List Watch

pub data Kind : Type 0 where
  absent regular directory other : Kind

-- What the system answers: `time`, `stat`, `mkdirRecursive` and `recursiveDir`.
pub record System : Type 0 where
  pub now : ℕ
  pub kind : Bytes → Kind
  pub make_dir : Bytes → Bool
  pub list_dir : Bytes → Bool → List Bytes → List Bytes

abbrev pub is_regular : Kind → Bool
is_regular regular = true
is_regular _ = false

abbrev pub is_directory : Kind → Bool
is_directory directory = true
is_directory _ = false

request : Watcher → Watch → Watcher
request w watch = record w { watches = w.watches ++ watch ∷ [] }

abbrev pub expired : ℤ → CacheItem → Bool
expired current_time item = ltb_ℤ (pos 1) (current_time -ℤ item.last_time)

-- The entries of the cache that stay when it is cleaned.
clean : ℤ → Cache → Cache
clean current_time [] = []
clean current_time ((k, item) ∷ cache) =
    if expired current_time item
    then clean current_time cache
    else (k, item) ∷ clean current_time cache

module _ (t : TextOps) where
  -- `Watcher::patternPathFile`
  unfoldable pub pattern_path_file :
      System → Config → Cache → Bytes → Cache × Option WatcherFileInfo
  unfolding clean
  pattern_path_file sys c cache origin_file =
      let current_time = to_int sys.now in
      let cache' = if ltb 1024 (length cache % 2 ^ 32) then clean current_time cache else cache in
      elim (find origin_file cache') [
        | none ↦
            (let path_file = get_or_else (pattern_path t c.file_map origin_file) [] in
              (
                insert origin_file (record { pathfile = path_file; last_time = current_time })
                    cache',
                find_file c path_file,
              ))
        | some item ↦ (
          insert origin_file (record item { last_time = current_time }) cache',
          find_file c item.pathfile,
        )
      ]

module _ (q : QueueOps InotifyEvent) (sys : System) where
  -- `Watcher::addModifyEvent`
  pub add_modify_event : List InotifyEvent → Bytes → Bytes → List InotifyEvent
  add_modify_event queue path_file origin_file =
      if is_regular (sys.kind origin_file)
      then q.push queue
          (record { pathfile = path_file; origfile = origin_file; aliasfile = []; event = modify })
      else queue

  pub add_modify_events : List InotifyEvent → Bytes → List Bytes → List InotifyEvent
  add_modify_events queue path_file [] = queue
  add_modify_events queue path_file (origin_file ∷ origin_files) =
      add_modify_events (add_modify_event queue path_file origin_file) path_file origin_files

  -- `Watcher::paserWatcherFile`
  pub paser_watcher_file : Config → List InotifyEvent → Bytes → List InotifyEvent
  paser_watcher_file c queue path_file = elim (find_file c path_file) [
    | none ↦ queue
    | some info ↦
        if not info.is_dir
        then add_modify_event queue path_file path_file
        else add_modify_events queue path_file
            (sys.list_dir path_file info.is_recursive info.excludes)
  ]

  -- The end of `createWatcher`.
  pub watched : Config → Watcher → Watch → Bytes → Watcher
  unfolding request
  watched c w watch path_file = record (request w watch) {
    event_queue = paser_watcher_file c w.event_queue path_file;
  }

  module _ (t : TextOps) where
    -- `Watcher::createWatcher`
    pub create_watcher : Config → Watcher → Bytes → List Bytes → Bool → Bool → Watcher
    unfolding watched
    create_watcher c w path_file excludes is_dir is_recursive =
        if not is_dir
        then (if not (is_regular (sys.kind path_file))
            then w
            else elim (t.explode path_file b'/' true) [
              | [] ↦ w
              | part ∷ parts ↦ watched c w (watch_file (join_parts (init (part ∷ parts)))) path_file
            ])
        else if not (is_directory (sys.kind path_file)) && not (sys.make_dir path_file)
        then w
        else if not is_recursive
        then watched c w (watch_file path_file) path_file
        else elim excludes [
          | [] ↦ watched c w (watch_recursively path_file) path_file
          | exclude ∷ others ↦ watched c w (watch_excluding path_file (exclude ∷ others)) path_file
        ]

    -- `Watcher::deleteWatcher`; `none` is undefined behaviour.
    pub delete_watcher : Config → Watcher → Bytes → Bool → Option Watcher
    unfolding request
    delete_watcher c w path_file is_dir =
        if is_dir
        then some w
        else if not (is_regular (sys.kind path_file))
        then some w
        else (is_has_watcher_file t c path_file >>= λ has.
            if has then some w else elim (t.explode path_file b'/' true) [
              | [] ↦ some w
              | part ∷ parts ↦ some (request w (remove_watch (join_parts (init (part ∷ parts)))))
            ])

    -- `Watcher::consumerConfigQueue`
    pub consumer_config_queue : QueueOps Bytes → Config → Watcher → Config × Watcher
    consumer_config_queue names c w =
        let (c', consumed) = consumer_config names c in
        elim consumed [
          | none ↦ (c', w)
          | some info ↦
              (c', create_watcher c' w info.path_file info.excludes info.is_dir info.is_recursive)
        ]
