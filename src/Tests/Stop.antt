-- ===== src/Tests/Stop.antt =====
-- The theorem on the threads of the watcher and their end at a concrete input.
use aidt.Prelude.{ℕ, suc, ◌+◌, ◌≡◌, refl, ◌⊎◌, List, [], ◌∷◌, some, length}
use aidt.Events.{InotifyEvent, modify, delete}
use aidt.Watcher.Dispatch.{event_thread}
use aidt.Watcher.Dispatch.Drain.{round_by}
use aidt.Watcher.Threads.{
  Threads, started, with_queue, stop_event, stop, test, go_on, Reach, tests, goes_on, start, later,
}
use aidt.Watcher.Threads.Ends.{stop_ends}
use aidt.Tests.Instances.{text_ops, list_queue, list_fifo, path_a, path_b, config}
use aidt.Tests.Watch.{event_at, handlers}

abbrev threads : Threads ℕ
threads = with_queue (started config 0) (event_at path_a modify ∷ event_at path_b delete ∷ [])

-- The first file was read, and is queued again.
abbrev read_once : Threads ℕ
read_once = go_on (test threads) (event_at path_b delete ∷ event_at path_a modify ∷ []) 1

Reach-read_once : Reach list_queue text_ops list_queue handlers threads read_once
unfolding test go_on
Reach-read_once = later (later start (tests refl)) (
    goes_on (event_at path_b delete ∷ event_at path_a modify ∷ []) 1 refl (
      round_by list_queue list_fifo handlers modify path_a path_a [] (event_at path_b delete ∷ []) 0
        (λ h. cc)))

-- After the call of `stop` the other event is handled.
abbrev one_more_round : Threads ℕ
one_more_round = go_on (stop list_queue read_once) (event_at path_a modify ∷ stop_event ∷ []) 2

Reach-one_more_round :
    Reach list_queue text_ops list_queue handlers (stop list_queue read_once) one_more_round
unfolding test go_on stop stop_event
Reach-one_more_round = later start (
    goes_on (event_at path_a modify ∷ stop_event ∷ []) 2 refl (
      round_by list_queue list_fifo handlers delete path_b path_b []
        (event_at path_a modify ∷ stop_event ∷ []) 1 (λ h. cc)))

stop_ends_example :
    let rounds = read_once.rounds + length read_once.watcher.event_queue in
    (read_once.event_thread_number ≡ 1)
    × (((one_more_round.event_thread_number ≡ 0) × (one_more_round.rounds ≡ suc rounds))
        ⊎ ((left : ℕ) × (queue : List InotifyEvent) × (state : ℕ) × (event_thread list_queue
                handlers
                (suc left)
                one_more_round.watcher.event_queue
                one_more_round.state
              ≡ some (queue, state))
            × (one_more_round.rounds + left ≡ rounds)))
unfolding test go_on
stop_ends_example =
    stop_ends list_queue list_fifo text_ops list_queue handlers threads read_once one_more_round
      ((λ h. cc), ((λ h. cc), tt)) refl Reach-read_once refl Reach-one_more_round
