-- ===== src/Tests/Watch.antt =====
-- The theorems on the watcher at concrete inputs.
use aidt.Prelude.{ℕ, suc, ◌≡◌, refl, true, List, [], ◌∷◌, ◌++◌, some, Bytes, bytes_eq, pos, nat_beq}
use aidt.Texts.{trim_slashes}
use aidt.Config.{find_file, WatcherFileMap, update_file_info}
use aidt.Config.Update.{keys}
use aidt.Watcher.Configured.{grown}
use aidt.Watcher.Configured.Rounds.{rounds, table, plan_all, rounds-update_file_info}
use aidt.Events.{InotifyEvent, EventType, delete, move_self, modify, move_to, stop}
use aidt.Watcher.{Watcher, System, regular, Cache, CacheItem, pattern_path_file}
use aidt.Watcher.Cache.{path_of, Agrees, pattern_path_file_lem}
use aidt.Watcher.Paser.{orig_file_of, paser_event}
use aidt.Watcher.Paser.Moved.{moved_from, moved_to, moved_pair}
use aidt.Watcher.Dispatch.{Handlers, event_thread}
use aidt.Watcher.Dispatch.Drain.{handle_all, event_thread_lem}
use aidt.Tests.Instances.{
  text_ops, list_queue, list_fifo, path_a, path_b, file_info, dir_info, config,
}

abbrev pub event_at : Bytes → EventType → InotifyEvent
event_at path event = record { pathfile = path; origfile = path; aliasfile = []; event = event }

-- Handlers that count what they are called for, and read once more at the first reading.
abbrev pub handlers : Handlers ℕ
handlers = record {
  read_handler = λ item n. (suc n, nat_beq n 0);
  clear_handler = λ item n. suc n;
  move_self_handler = λ item n. suc n;
  move_to_handler = λ item n. suc n;
}

abbrev events : List InotifyEvent
events = event_at path_a modify ∷ event_at path_b delete ∷ event_at path_b move_self ∷ []

event_thread_lem_example :
    event_thread list_queue handlers 4 (events ++ event_at [] stop ∷ event_at path_a modify ∷ []) 0
    ≡ some (
      (event_at path_a modify ∷ []) ++ (handle_all handlers events 0).0,
      (handle_all handlers events 0).1,
    )
event_thread_lem_example =
    event_thread_lem list_queue list_fifo handlers events (event_at [] stop)
      (event_at path_a modify ∷ []) 0 ((λ h. cc), ((λ h. cc), ((λ h. cc), tt))) refl

abbrev system : System
system = record {
  now = 100;
  kind = λ path. regular;
  make_dir = λ path. true;
  list_dir = λ path recursive excludes. [];
}

pattern_path_file_lem_example :
    let after = pattern_path_file text_ops system config [] path_a in
    (after.1 ≡ find_file config (path_of text_ops config path_a)) × Agrees text_ops config after.0
pattern_path_file_lem_example = pattern_path_file_lem text_ops config system [] path_a tt

-- The files `/d/x` and `/d/y`.
abbrev directory : Bytes
directory = b'/' ∷ b'd' ∷ []

abbrev name_x : Bytes
name_x = b'x' ∷ []

abbrev name_y : Bytes
name_y = b'y' ∷ []

abbrev cached : CacheItem
cached = record { pathfile = directory; last_time = pos 100 }

abbrev cache : Cache
cache = (directory ++ (b'/' ∷ name_x), cached) ∷ (directory ++ (b'/' ∷ name_y), cached) ∷ []

abbrev watcher : Watcher
watcher = record { cache = cache; event_queue = []; dir_type_move_from = []; watches = [] }

moved_pair_example :
    let from = orig_file_of (moved_from directory name_x) in
    let to = orig_file_of (moved_to directory name_y) in
    let half =
      paser_event list_queue text_ops system config watcher (moved_from directory name_x) in
    let whole = paser_event list_queue text_ops system config half (moved_to directory name_y) in
    (whole.event_queue
      ≡ []
        ++ (record {
          pathfile = dir_info.path_file;
          origfile = to;
          aliasfile = from;
          event = move_to;
        }
            ∷ []))
    × (whole.dir_type_move_from ≡ [])
unfolding pattern_path_file trim_slashes
moved_pair_example =
    moved_pair list_queue list_fifo text_ops system config watcher directory name_x directory name_y
      dir_info dir_info refl refl refl refl

abbrev new_settings : WatcherFileMap
new_settings = (path_b, record file_info { path_file = path_b }) ∷ (directory, dir_info) ∷ []

rounds-update_file_info_example :
    let c = update_file_info list_queue (table config.file_map []) new_settings in
    rounds list_queue system text_ops list_queue 2 c watcher ≡ (
      record c { queue = [] },
      grown watcher (plan_all system text_ops c.file_map (keys new_settings)),
    )
rounds-update_file_info_example =
    rounds-update_file_info list_queue list_fifo system text_ops list_queue list_fifo
      config.file_map new_settings watcher (refl, (refl, tt))
