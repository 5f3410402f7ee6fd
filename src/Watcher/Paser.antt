-- ===== src/Watcher/Paser.antt =====
-- `Watcher::paserEvent` of src/App/Watcher.cpp.
pub mod Moved
pub mod Added
use aidt.Prelude.{
  Bool, true, false, not, ◌&&◌, ◌||◌, List, [], ◌∷◌, ◌++◌, Option, none, some, Bytes, if◌then◌else◌,
}
use aidt.Adbase.{QueueOps, TextOps}
use aidt.Texts.{trim_slashes}
use aidt.Config.{Config, WatcherFileInfo}
use aidt.Message.{is_empty}
use aidt.Events.{InotifyEvent, EventType, delete, move_self, modify, move_to}
use aidt.Watcher.{Watcher, System, is_directory, pattern_path_file, create_watcher}

-- An `inotify_event`: the watched directory of its descriptor, its name, and the bits of its mask.
pub record RawEvent : Type 0 where
  pub directory_name : Bytes
  pub name : Bytes
  pub in_create : Bool
  pub in_delete : Bool
  pub in_delete_self : Bool
  pub in_modify : Bool
  pub in_move_self : Bool
  pub in_moved_from : Bool
  pub in_moved_to : Bool

-- The file that an event is about.
abbrev pub orig_file_of : RawEvent → Bytes
orig_file_of raw = trim_slashes raw.directory_name ++ (b'/' ∷ raw.name)

module _ (q : QueueOps InotifyEvent) where
  push_event : Watcher → EventType → WatcherFileInfo → Bytes → Bytes → Watcher
  push_event w event info orig_file alias_file = record w {
    event_queue = q.push w.event_queue (record {
      pathfile = info.path_file;
      origfile = orig_file;
      aliasfile = alias_file;
      event = event;
    });
  }

  -- What `paserEvent` does after the part on `IN_CREATE`.
  push_events : Watcher → RawEvent → WatcherFileInfo → Bytes → Watcher
  unfolding push_event
  push_events w raw info orig_file =
      if raw.in_delete || raw.in_delete_self
      then push_event w delete info orig_file []
      else if raw.in_modify
      then push_event w modify info orig_file []
      else if raw.in_move_self || raw.in_moved_from
      then (if info.is_dir
          then record w { dir_type_move_from = orig_file }
          else push_event w move_self info orig_file [])
      else if raw.in_moved_to && info.is_dir
      then (if not (is_empty w.dir_type_move_from)
          then record (push_event w move_to info orig_file w.dir_type_move_from) {
            dir_type_move_from = [];
          }
          else record w { dir_type_move_from = [] })
      else w

  -- `Watcher::paserEvent`
  pub paser_event : TextOps → System → Config → Watcher → RawEvent → Watcher
  unfolding push_events
  paser_event t sys c w raw =
      let orig_file = orig_file_of raw in
      let (cache, matched) = pattern_path_file t sys c w.cache orig_file in
      let w' = record w { cache = cache } in
      elim matched [
        | none ↦ w'
        | some info ↦
            if raw.in_create
            then (if not info.is_dir || not info.is_recursive
                then w'
                else if not (is_directory (sys.kind orig_file))
                then w'
                else push_events (create_watcher q sys t c w' orig_file [] true true) raw info
                    orig_file)
            else push_events w' raw info orig_file
      ]
