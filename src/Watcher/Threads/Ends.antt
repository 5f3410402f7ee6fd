-- ===== src/Watcher/Threads/Ends.antt =====
-- What `Watcher::stop` of src/App/Watcher.cpp waits for comes about.
use aidt.Prelude.{
  ℕ, suc, ◌+◌, ◌≡◌, refl, ap, ◌∙◌, inl, inr, ◌⊎◌, true, List, [], some, Bytes, length, All,
}
use aidt.Adbase.{QueueOps, IsFifo, TextOps}
use aidt.Events.{InotifyEvent}
use aidt.Watcher.Added.{IsGoing}
use aidt.Watcher.Dispatch.{Handlers, event_thread}
use aidt.Watcher.Dispatch.Drain.{handle_all, event_thread_lem}
use aidt.Watcher.Threads.{Threads, stop_event, stop, Reach}
use aidt.Watcher.Threads.Stopping.{Open-Reach, Awaits, Stopping-Reach}

module _ (q : QueueOps InotifyEvent) (fifo : IsFifo q) (t : TextOps) (names : QueueOps Bytes)
    {S : Type 0} (h : Handlers S) where
  -- At the call of `stop` every event that is queued stands before that of `stop`.
  Awaits-stop :
      (s : Threads S)
      → All IsGoing s.watcher.event_queue
      → Awaits q fifo t names h (s.rounds + length s.watcher.event_queue) (stop q s)
  unfolding stop stop_event
  Awaits-stop s going = (
    s.watcher.event_queue,
    stop_event,
    [],
    fifo.push_lem s.watcher.event_queue stop_event,
    going,
    refl,
    refl,
  )

  -- For a queue as documented and any handlers: start with both threads in their loops and no event of
  -- `stop` queued, and let the threads, reloads of the settings and calls of `stop` happen in any order,
  -- where a round of the event thread is one step, as is an operation of the watcher thread.
  -- As long as `stop` was not called the event thread runs. At any time after the first call of `stop`
  -- the event thread has either ended, after exactly one round for each event that was queued at the
  -- call and one more, or it ends by itself after the rest of these rounds, whatever the watcher thread
  -- has queued meanwhile.
  pub stop_ends :
      (s before after : Threads S)
      → All IsGoing s.watcher.event_queue
      → s.event_thread_number ≡ 1
      → Reach q t names h s before
      → before.running ≡ true
      → Reach q t names h (stop q before) after
      → let rounds = before.rounds + length before.watcher.event_queue in
        (before.event_thread_number ≡ 1)
        × (((after.event_thread_number ≡ 0) × (after.rounds ≡ suc rounds))
            ⊎ ((left : ℕ) × (queue : List InotifyEvent) × (state : S) × (event_thread q h
                    (suc left)
                    after.watcher.event_queue
                    after.state
                  ≡ some (queue, state))
                × (after.rounds + left ≡ rounds)))
  stop_ends s before after going one reach running reach' =
      let (going', one') = Open-Reach q fifo t names h s before (going, one) reach running in
      (
        one',
        elim (Stopping-Reach q fifo t names h (before.rounds + length before.watcher.event_queue)
            (stop q before) after (inr (Awaits-stop before going')) reach') [
              | inl ended ↦ inl ended
              | inr (items, last, behind, split, going'', is_stop, count) ↦ inr (
                length items,
                _,
                (handle_all h items after.state).1,
                ap (λ queue. event_thread q h (suc (length items)) queue after.state) split
                    ∙ event_thread_lem q fifo h items last behind after.state going'' is_stop,
                count,
              )
            ],
      )
