-- ===== src/Watcher/Configured.antt =====
-- From the queued settings of src/App/Config.cpp to the watches and the first events of
-- src/App/Watcher.cpp.
pub mod Rounds
use aidt.Prelude.{
  ℕ, zero, suc, ◌≡◌, refl, sym, ap, ◌∙◌, inl, inr, Bool, true, false, not, ◌&&◌, List, [], ◌∷◌,
  ◌++◌, append-nil, append_assoc, Option, none, some, Bytes, init, length, if◌then◌else◌, bytes_eq,
  List-cases, Bool-cases, Option-cases,
}
use aidt.Prelude.Table.{find}
use aidt.Adbase.{QueueOps, IsFifo, TextOps}
use aidt.Texts.{join_parts}
use aidt.Config.{Config, WatcherFileInfo, find_file, consumer_config}
use aidt.Events.{InotifyEvent, modify}
use aidt.Watcher.{
  Watcher, Watch, watch_file, watch_recursively, watch_excluding, System, is_regular, is_directory,
  request, add_modify_event, add_modify_events, paser_watcher_file, watched, create_watcher,
  consumer_config_queue,
}

abbrev pub grown : Watcher → List Watch × List InotifyEvent → Watcher
grown w (watches, events) = record w {
  watches = w.watches ++ watches;
  event_queue = w.event_queue ++ events;
}

-- The event that has a file of the setting `path_file` read.
abbrev pub first_read : Bytes → Bytes → InotifyEvent
first_read path_file origin_file = record {
  pathfile = path_file;
  origfile = origin_file;
  aliasfile = [];
  event = modify;
}

-- The watch for a directory.
pub dir_watch : Bytes → List Bytes → Bool → Watch
dir_watch path_file excludes false = watch_file path_file
dir_watch path_file [] true = watch_recursively path_file
dir_watch path_file (e ∷ es) true = watch_excluding path_file (e ∷ es)

module _ (sys : System) where
  -- The events for those of the files that are regular.
  pub reads_of : Bytes → List Bytes → List InotifyEvent
  reads_of path_file [] = []
  reads_of path_file (origin_file ∷ origin_files) =
      let rest = reads_of path_file origin_files in
      if is_regular (sys.kind origin_file) then first_read path_file origin_file ∷ rest else rest

  -- The files of a setting: the file itself, or those that the directory has.
  pub files_of : Config → Bytes → List Bytes
  files_of c path_file = elim (find_file c path_file) [
    | none ↦ []
    | some info ↦
        if info.is_dir
        then sys.list_dir path_file info.is_recursive info.excludes
        else path_file ∷ []
  ]

  -- The watch for a setting; there is none for a file that is not regular or has no name, and for a
  -- directory that is not there and cannot be made.
  pub watch_of : TextOps → Bytes → List Bytes → Bool → Bool → Option Watch
  watch_of t path_file excludes is_dir is_recursive =
      if is_dir
      then (if is_directory (sys.kind path_file)
          then some (dir_watch path_file excludes is_recursive)
          else if sys.make_dir path_file
          then some (dir_watch path_file excludes is_recursive)
          else none)
      else if is_regular (sys.kind path_file)
      then elim (t.explode path_file b'/' true) [
        | [] ↦ none
        | part ∷ parts ↦ some (watch_file (join_parts (init (part ∷ parts))))
      ]
      else none

  -- What becomes of a watcher for the setting of one path: the watch, if there is one, and then the
  -- events for the files that are there.
  pub planned : TextOps → Config → Bytes → List Bytes → Bool → Bool → List Watch × List InotifyEvent
  planned t c path_file excludes is_dir is_recursive =
      elim (watch_of t path_file excludes is_dir is_recursive) [
        | none ↦ ([], [])
        | some watch ↦ (watch ∷ [], reads_of path_file (files_of c path_file))
      ]

module _ (q : QueueOps InotifyEvent) (fifo : IsFifo q) (sys : System) where
  add_modify_event_lem :
      (queue : List InotifyEvent) (path_file origin_file : Bytes)
      → add_modify_event q sys queue path_file origin_file
        ≡ queue ++ reads_of sys path_file (origin_file ∷ [])
  unfolding add_modify_event reads_of
  add_modify_event_lem queue path_file origin_file =
      elim (Bool-cases (is_regular (sys.kind origin_file))) [
        | inl e ↦ rw (e, add_modify_event) (fifo.push_lem queue (first_read path_file origin_file))
        | inr e ↦ rw (e, add_modify_event) (sym (append-nil queue))
      ]

  reads_of_cons :
      (path_file f : Bytes) (files : List Bytes)
      → reads_of sys path_file (f ∷ []) ++ reads_of sys path_file files
        ≡ reads_of sys path_file (f ∷ files)
  unfolding reads_of
  reads_of_cons path_file f files = elim (Bool-cases (is_regular (sys.kind f))) [
    | inl e ↦ rw (e, reads_of) refl
    | inr e ↦ rw (e, reads_of) refl
  ]

  add_modify_events_lem :
      (queue : List InotifyEvent) (path_file : Bytes) (files : List Bytes)
      → add_modify_events q sys queue path_file files ≡ queue ++ reads_of sys path_file files
  unfolding add_modify_events reads_of
  add_modify_events_lem queue path_file [] = sym (append-nil queue)
  add_modify_events_lem queue path_file (f ∷ files) =
      add_modify_events_lem (add_modify_event q sys queue path_file f) path_file files
      ∙ ap (λ read. read ++ reads_of sys path_file files) (add_modify_event_lem queue path_file f)
      ∙ append_assoc queue (reads_of sys path_file (f ∷ [])) (reads_of sys path_file files)
      ∙ ap (◌++◌ queue) (reads_of_cons path_file f files)

  paser_watcher_file_lem :
      (c : Config) (queue : List InotifyEvent) (path_file : Bytes)
      → paser_watcher_file q sys c queue path_file
        ≡ queue ++ reads_of sys path_file (files_of sys c path_file)
  unfolding paser_watcher_file files_of reads_of
  paser_watcher_file_lem c queue path_file = elim (Option-cases (find_file c path_file)) [
    | inl e ↦ rw (e, paser_watcher_file, files_of, reads_of) (sym (append-nil queue))
    | inr (info, e) ↦ elim (Bool-cases info.is_dir) [
      | inl d ↦
          rw (e, paser_watcher_file, files_of, d)
            (add_modify_events_lem queue path_file
              (sys.list_dir path_file info.is_recursive info.excludes))
      | inr d ↦
          rw (e, paser_watcher_file, files_of, d) (add_modify_event_lem queue path_file path_file)
    ]
  ]

  module _ (t : TextOps) (c : Config) where
    watched_lem :
        (w : Watcher) (watch : Watch) (path_file : Bytes)
        → watched q sys c w watch path_file
          ≡ grown w (watch ∷ [], reads_of sys path_file (files_of sys c path_file))
    unfolding watched request
    watched_lem w watch path_file =
        ap (λ events. record w { watches = w.watches ++ watch ∷ []; event_queue = events })
          (paser_watcher_file_lem c w.event_queue path_file)

    pub grown_nil : (w : Watcher) → w ≡ grown w ([], [])
    grown_nil w = rw (append-nil w.watches, append-nil w.event_queue) refl

    create_dir :
        (w : Watcher) (path_file : Bytes) (excludes : List Bytes) (is_recursive : Bool)
        → (not (is_directory (sys.kind path_file)) && not (sys.make_dir path_file)) ≡ false
        → create_watcher q sys t c w path_file excludes true is_recursive
          ≡ grown w (
            dir_watch path_file excludes is_recursive ∷ [],
            reads_of sys path_file (files_of sys c path_file),
          )
    unfolding create_watcher dir_watch
    create_dir w path_file excludes false there =
        rw (create_watcher, there) (watched_lem w (watch_file path_file) path_file)
    create_dir w path_file [] true there =
        rw (create_watcher, there) (watched_lem w (watch_recursively path_file) path_file)
    create_dir w path_file (e ∷ es) true there =
        rw (create_watcher, there) (watched_lem w (watch_excluding path_file (e ∷ es)) path_file)

    pub create_watcher_lem :
        (w : Watcher) (path_file : Bytes) (excludes : List Bytes) (is_dir is_recursive : Bool)
        → create_watcher q sys t c w path_file excludes is_dir is_recursive
          ≡ grown w (planned sys t c path_file excludes is_dir is_recursive)
    unfolding create_watcher planned watch_of
    create_watcher_lem w path_file excludes true is_recursive =
        elim (Bool-cases (is_directory (sys.kind path_file))) [
          | inl d ↦
              create_dir w path_file excludes is_recursive (rw d refl)
              ∙ rw (planned, watch_of, d) refl
          | inr d ↦ elim (Bool-cases (sys.make_dir path_file)) [
            | inl m ↦
                create_dir w path_file excludes is_recursive (rw (d, m) refl)
                ∙ rw (planned, watch_of, d, m) refl
            | inr m ↦ rw (create_watcher, planned, watch_of, d, m) (grown_nil w)
          ]
        ]
    create_watcher_lem w path_file excludes false is_recursive =
        elim (Bool-cases (is_regular (sys.kind path_file))) [
          | inr r ↦ rw (create_watcher, planned, watch_of, r) (grown_nil w)
          | inl r ↦ elim (List-cases (t.explode path_file b'/' true)) [
            | inl e ↦ rw (create_watcher, planned, watch_of, r, e) (grown_nil w)
            | inr (part, parts, e) ↦
                rw (create_watcher, planned, watch_of, r, e)
                  (watched_lem w (watch_file (join_parts (init (part ∷ parts)))) path_file)
          ]
        ]
