-- ===== src/Watcher/Paser/Added.antt =====
-- What `Watcher::paserEvent` of src/App/Watcher.cpp puts behind the events that are queued.
use aidt.Prelude.{◌≢◌, inl, inr, true, not, ◌&&◌, ◌||◌, [], Bytes, Bool-cases, Option-cases}
use aidt.Adbase.{QueueOps, IsFifo, TextOps}
use aidt.Config.{Config, WatcherFileInfo}
use aidt.Message.{is_empty}
use aidt.Events.{InotifyEvent, EventType, stop}
use aidt.Watcher.{Watcher, System, is_directory, pattern_path_file, create_watcher}
use aidt.Watcher.Added.{Added, Added-refl, Added-trans, Added-push, Added-create_watcher}
use aidt.Watcher.Paser.{RawEvent, orig_file_of, push_event, push_events, paser_event}

module _ (q : QueueOps InotifyEvent) (fifo : IsFifo q) where
  Added-push_event :
      (w : Watcher) (event : EventType) (info : WatcherFileInfo) (orig_file alias_file : Bytes)
      → event ≢ stop
      → Added w.event_queue (push_event q w event info orig_file alias_file).event_queue
  unfolding push_event
  Added-push_event w event info orig_file alias_file going = Added-push q fifo w.event_queue _ going

  Added-push_events :
      (w : Watcher) (raw : RawEvent) (info : WatcherFileInfo) (orig_file : Bytes)
      → Added w.event_queue (push_events q w raw info orig_file).event_queue
  unfolding push_events
  Added-push_events w raw info orig_file = elim (Bool-cases (raw.in_delete || raw.in_delete_self)) [
    | inl e ↦ rw (e, push_events) (Added-push_event w _ info orig_file [] (λ h. cc))
    | inr e ↦ elim (Bool-cases raw.in_modify) [
      | inl e1 ↦ rw (e, e1, push_events) (Added-push_event w _ info orig_file [] (λ h. cc))
      | inr e1 ↦ elim (Bool-cases (raw.in_move_self || raw.in_moved_from)) [
        | inl e2 ↦ elim (Bool-cases info.is_dir) [
          | inl dir ↦ rw (e, e1, e2, dir, push_events) (Added-refl w.event_queue)
          | inr dir ↦
              rw (e, e1, e2, dir, push_events) (Added-push_event w _ info orig_file [] (λ h. cc))
        ]
        | inr e2 ↦ elim (Bool-cases (raw.in_moved_to && info.is_dir)) [
          | inr e3 ↦ rw (e, e1, e2, e3, push_events) (Added-refl w.event_queue)
          | inl e3 ↦ elim (Bool-cases (is_empty w.dir_type_move_from)) [
            | inl e4 ↦ rw (e, e1, e2, e3, e4, push_events) (Added-refl w.event_queue)
            | inr e4 ↦
                rw (e, e1, e2, e3, e4, push_events)
                  (Added-push_event w _ info orig_file w.dir_type_move_from (λ h. cc))
          ]
        ]
      ]
    ]
  ]

  pub Added-paser_event :
      (t : TextOps) (sys : System) (c : Config) (w : Watcher) (raw : RawEvent)
      → Added w.event_queue (paser_event q t sys c w raw).event_queue
  unfolding paser_event
  Added-paser_event t sys c w raw =
      let orig_file = orig_file_of raw in
      let found = pattern_path_file t sys c w.cache orig_file in
      let w' = record w { cache = found.0 } in
      elim (Option-cases found.1) [
        | inl e ↦ rw (e, paser_event) (Added-refl w.event_queue)
        | inr (info, e) ↦ elim (Bool-cases raw.in_create) [
          | inr old ↦ rw (e, old, paser_event) (Added-push_events w' raw info orig_file)
          | inl new ↦ elim (Bool-cases (not info.is_dir || not info.is_recursive)) [
            | inl e1 ↦ rw (e, new, e1, paser_event) (Added-refl w.event_queue)
            | inr e1 ↦ elim (Bool-cases (is_directory (sys.kind orig_file))) [
              | inr e2 ↦ rw (e, new, e1, e2, paser_event) (Added-refl w.event_queue)
              | inl e2 ↦
                  let w'' = create_watcher q sys t c w' orig_file [] true true in
                  rw (e, new, e1, e2, paser_event)
                    (Added-trans w.event_queue w''.event_queue
                      (push_events q w'' raw info orig_file).event_queue
                      (Added-create_watcher q fifo sys t c w' orig_file [] true true)
                      (Added-push_events w'' raw info orig_file))
            ]
          ]
        ]
      ]
