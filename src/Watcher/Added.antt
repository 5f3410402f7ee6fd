-- ===== src/Watcher/Added.antt =====
-- What the operations of src/App/Watcher.cpp that make watches put behind the events that are queued.
use aidt.Prelude.{
  ◌≡◌, ◌≢◌, sym, ap, ◌∙◌, inl, inr, Bool, true, false, not, ◌&&◌, List, [], ◌∷◌, ◌++◌, append-nil,
  append_assoc, Bytes, init, All, All-append, List-cases, Bool-cases, Option-cases,
}
use aidt.Adbase.{QueueOps, IsFifo, TextOps}
use aidt.Texts.{join_parts}
use aidt.Config.{Config, find_file, consumer_config}
use aidt.Events.{InotifyEvent, stop}
use aidt.Watcher.{
  Watcher, Watch, watch_file, watch_recursively, watch_excluding, System, is_regular, is_directory,
  add_modify_event, add_modify_events, paser_watcher_file, watched, create_watcher,
  consumer_config_queue,
}

-- An event that is not the one of `stop`.
abbrev pub IsGoing : InotifyEvent → Type 0
IsGoing item = item.event ≢ stop

-- New events, none of them that of `stop`, stand behind the old ones.
abbrev pub Added : List InotifyEvent → List InotifyEvent → Type 0
Added queue queue' = (new : List InotifyEvent) × (queue' ≡ queue ++ new) × All IsGoing new

pub Added-refl : (queue : List InotifyEvent) → Added queue queue
Added-refl queue = ([], sym (append-nil queue), tt)

pub Added-trans :
    (queue queue' queue'' : List InotifyEvent)
    → Added queue queue'
    → Added queue' queue''
    → Added queue queue''
Added-trans queue queue' queue'' (new, e, going) (more, e', going') = (
  new ++ more,
  e' ∙ ap (λ x. x ++ more) e ∙ append_assoc queue new more,
  All-append IsGoing new more going going',
)

module _ (q : QueueOps InotifyEvent) (fifo : IsFifo q) where
  pub Added-push :
      (queue : List InotifyEvent) (item : InotifyEvent)
      → IsGoing item
      → Added queue (q.push queue item)
  Added-push queue item going = (item ∷ [], fifo.push_lem queue item, (going, tt))

  module _ (sys : System) where
    Added-add_modify_event :
        (queue : List InotifyEvent) (path_file origin_file : Bytes)
        → Added queue (add_modify_event q sys queue path_file origin_file)
    unfolding add_modify_event
    Added-add_modify_event queue path_file origin_file =
        elim (Bool-cases (is_regular (sys.kind origin_file))) [
          | inl e ↦ rw (e, add_modify_event) (Added-push queue _ (λ h. cc))
          | inr e ↦ rw (e, add_modify_event) (Added-refl queue)
        ]

    Added-add_modify_events :
        (queue : List InotifyEvent) (path_file : Bytes) (origin_files : List Bytes)
        → Added queue (add_modify_events q sys queue path_file origin_files)
    unfolding add_modify_events
    Added-add_modify_events queue path_file [] = Added-refl queue
    Added-add_modify_events queue path_file (origin_file ∷ origin_files) =
        let queue' = add_modify_event q sys queue path_file origin_file in
        Added-trans queue queue' (add_modify_events q sys queue' path_file origin_files)
          (Added-add_modify_event queue path_file origin_file)
          (Added-add_modify_events queue' path_file origin_files)

    Added-paser_watcher_file :
        (c : Config) (queue : List InotifyEvent) (path_file : Bytes)
        → Added queue (paser_watcher_file q sys c queue path_file)
    unfolding paser_watcher_file
    Added-paser_watcher_file c queue path_file = elim (Option-cases (find_file c path_file)) [
      | inl e ↦ rw (e, paser_watcher_file) (Added-refl queue)
      | inr (info, e) ↦ elim (Bool-cases info.is_dir) [
        | inl dir ↦
            rw (e, dir, paser_watcher_file)
              (Added-add_modify_events queue path_file
                (sys.list_dir path_file info.is_recursive info.excludes))
        | inr dir ↦
            rw (e, dir, paser_watcher_file) (Added-add_modify_event queue path_file path_file)
      ]
    ]

    Added-watched :
        (c : Config) (w : Watcher) (watch : Watch) (path_file : Bytes)
        → Added w.event_queue (watched q sys c w watch path_file).event_queue
    unfolding watched
    Added-watched c w watch path_file = Added-paser_watcher_file c w.event_queue path_file

    module _ (t : TextOps) where
      pub Added-create_watcher :
          (c : Config) (w : Watcher) (path_file : Bytes) (excludes : List Bytes)
          (is_dir is_recursive : Bool)
          → Added w.event_queue
              (create_watcher q sys t c w path_file excludes is_dir is_recursive).event_queue
      unfolding create_watcher
      Added-create_watcher c w path_file excludes false is_recursive =
          elim (Bool-cases (is_regular (sys.kind path_file))) [
            | inr e ↦ rw (e, create_watcher) (Added-refl w.event_queue)
            | inl e ↦ elim (List-cases (t.explode path_file b'/' true)) [
              | inl none_left ↦ rw (e, none_left, create_watcher) (Added-refl w.event_queue)
              | inr (part, parts, some_left) ↦
                  rw (e, some_left, create_watcher)
                    (Added-watched c w (watch_file (join_parts (init (part ∷ parts)))) path_file)
            ]
          ]
      Added-create_watcher c w path_file excludes true is_recursive =
          elim (Bool-cases
            (not (is_directory (sys.kind path_file)) && not (sys.make_dir path_file))) [
              | inl e ↦ rw (e, create_watcher) (Added-refl w.event_queue)
              | inr e ↦ elim (Bool-cases is_recursive) [
                | inr e' ↦
                    rw (e, e', create_watcher) (Added-watched c w (watch_file path_file) path_file)
                | inl e' ↦ elim (List-cases excludes) [
                  | inl none_left ↦
                      rw (e, e', none_left, create_watcher)
                        (Added-watched c w (watch_recursively path_file) path_file)
                  | inr (exclude, others, some_left) ↦
                      rw (e, e', some_left, create_watcher)
                        (Added-watched c w (watch_excluding path_file (exclude ∷ others)) path_file)
                ]
              ]
            ]

      pub Added-consumer_config_queue :
          (names : QueueOps Bytes) (c : Config) (w : Watcher)
          → Added w.event_queue (consumer_config_queue q sys t names c w).1.event_queue
      unfolding consumer_config_queue
      Added-consumer_config_queue names c w = elim (Option-cases (consumer_config names c).1) [
        | inl e ↦ rw (e, consumer_config_queue) (Added-refl w.event_queue)
        | inr (info, e) ↦
            rw (e, consumer_config_queue)
              (Added-create_watcher (consumer_config names c).0 w info.path_file info.excludes
                info.is_dir info.is_recursive)
      ]
