-- ===== src/Watcher/Paser/Moved.antt =====
-- What `paserEvent` of src/App/Watcher.cpp makes of the two events of a move in a watched directory.
use aidt.Prelude.{◌≡◌, refl, true, false, [], ◌∷◌, ◌++◌, some, Bytes}
use aidt.Adbase.{QueueOps, IsFifo, TextOps}
use aidt.Texts.{trim_slashes}
use aidt.Config.{Config, WatcherFileInfo}
use aidt.Message.{is_empty}
use aidt.Events.{InotifyEvent, move_to}
use aidt.Watcher.{Watcher, System, pattern_path_file}
use aidt.Watcher.Paser.{RawEvent, orig_file_of, push_event, push_events, paser_event}

-- The events `IN_MOVED_FROM` and `IN_MOVED_TO` of a file of a directory.
abbrev pub moved_from : Bytes → Bytes → RawEvent
moved_from directory_name name = record {
  directory_name = directory_name;
  name = name;
  in_create = false;
  in_delete = false;
  in_delete_self = false;
  in_modify = false;
  in_move_self = false;
  in_moved_from = true;
  in_moved_to = false;
}

abbrev pub moved_to : Bytes → Bytes → RawEvent
moved_to directory_name name = record {
  directory_name = directory_name;
  name = name;
  in_create = false;
  in_delete = false;
  in_delete_self = false;
  in_modify = false;
  in_move_self = false;
  in_moved_from = false;
  in_moved_to = true;
}

orig_file_nonempty : (raw : RawEvent) → is_empty (orig_file_of raw) ≡ false
orig_file_nonempty raw = slash (trim_slashes raw.directory_name)
  where
    slash : (front : Bytes) → is_empty (front ++ (b'/' ∷ raw.name)) ≡ false
    slash [] = refl
    slash (c ∷ front) = refl

module _ (q : QueueOps InotifyEvent) (fifo : IsFifo q) (t : TextOps) (sys : System)
    (c : Config) where
  from_lem :
      (w : Watcher) (directory_name name : Bytes) (info : WatcherFileInfo)
      → let orig_file = orig_file_of (moved_from directory_name name) in
        (pattern_path_file t sys c w.cache orig_file).1 ≡ some info
        → info.is_dir ≡ true
        → paser_event q t sys c w (moved_from directory_name name) ≡ record w {
          cache = (pattern_path_file t sys c w.cache orig_file).0;
          dir_type_move_from = orig_file;
        }
  unfolding paser_event push_events
  from_lem w directory_name name info matched dir =
      rw (matched, paser_event) (rw (dir, push_events) refl)

  to_lem :
      (w : Watcher) (directory_name name : Bytes) (info : WatcherFileInfo)
      → let orig_file = orig_file_of (moved_to directory_name name) in
        (pattern_path_file t sys c w.cache orig_file).1 ≡ some info
        → info.is_dir ≡ true
        → is_empty w.dir_type_move_from ≡ false
        → paser_event q t sys c w (moved_to directory_name name) ≡ record w {
          cache = (pattern_path_file t sys c w.cache orig_file).0;
          event_queue =
              w.event_queue
              ++ (record {
                pathfile = info.path_file;
                origfile = orig_file;
                aliasfile = w.dir_type_move_from;
                event = move_to;
              }
                  ∷ []);
          dir_type_move_from = [];
        }
  unfolding paser_event push_events push_event
  to_lem w directory_name name info matched dir full =
      rw (matched, paser_event) (rw (dir, full, fifo.push_lem w.event_queue, push_events) refl)

  -- When a file is moved out of one name and into another, both in watched directories: the two
  -- events together queue one event `MOVE_TO`, last, which has the new name and the old one as its
  -- alias, and leave no name waiting for its other half.
  pub moved_pair :
      (w : Watcher) (from_directory from_name to_directory to_name : Bytes)
      (from_info to_info : WatcherFileInfo)
      → let from = orig_file_of (moved_from from_directory from_name) in
        let to = orig_file_of (moved_to to_directory to_name) in
        let found = pattern_path_file t sys c w.cache from in
        found.1 ≡ some from_info
        → (pattern_path_file t sys c found.0 to).1 ≡ some to_info
        → from_info.is_dir ≡ true
        → to_info.is_dir ≡ true
        → let half = paser_event q t sys c w (moved_from from_directory from_name) in
          let whole = paser_event q t sys c half (moved_to to_directory to_name) in
          (whole.event_queue
            ≡ w.event_queue
              ++ (record {
                pathfile = to_info.path_file;
                origfile = to;
                aliasfile = from;
                event = move_to;
              }
                  ∷ []))
          × (whole.dir_type_move_from ≡ [])
  moved_pair w from_directory from_name to_directory to_name from_info to_info hf ht df dt =
      let from = orig_file_of (moved_from from_directory from_name) in
      let half : Watcher = record w {
        cache = (pattern_path_file t sys c w.cache from).0;
        dir_type_move_from = from;
      } in
      rw
        (
          from_lem w from_directory from_name from_info hf df,
          to_lem half to_directory to_name to_info ht dt
              (orig_file_nonempty (moved_from from_directory from_name)),
        )
        (refl, refl)
