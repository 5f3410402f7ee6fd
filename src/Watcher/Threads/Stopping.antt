-- ===== src/Watcher/Threads/Stopping.antt =====
-- `Watcher::stop` of src/App/Watcher.cpp and the end of the event thread that it waits for.
use aidt.Prelude.{
  ℕ, suc, ◌+◌, ◌≡◌, ◌≢◌, sym, ap, ◌∙◌, inl, inr, ◌⊎◌, true, List, [], ◌∷◌, ◌++◌, append_assoc, none,
  some, Bytes, length, All, All-append, subst, arith,
}
use aidt.Adbase.{QueueOps, IsFifo, TextOps}
use aidt.Events.{InotifyEvent}
use aidt.Events
use aidt.Watcher.Added.{Added, IsGoing}
use aidt.Watcher.Dispatch.{Handlers, runs, stops, event_round}
use aidt.Watcher.Dispatch.Drain.{handle, round_nil}
use aidt.Watcher.Threads.{
  Threads, stop_event, stop, test, consume, parse, go_on, finish, Step, tests, consumes, parses,
  reloads, goes_on, finishes, stops_all, Reach, start, later,
}
use aidt.Watcher.Threads.Steps.{
  Added-consume, Added-parse, All-handle, runs_lem, never_stops, never_runs,
}

module _ (q : QueueOps InotifyEvent) (fifo : IsFifo q) (t : TextOps) (names : QueueOps Bytes)
    {S : Type 0} (h : Handlers S) where
  -- The event thread runs, and nothing will end it.
  abbrev pub Open : Threads S → Type 0
  Open s = All IsGoing s.watcher.event_queue × (s.event_thread_number ≡ 1)

  All-Added :
      (queue queue' : List InotifyEvent)
      → Added queue queue'
      → All IsGoing queue
      → All IsGoing queue'
  All-Added queue queue' (new, e, going) old =
      subst (All IsGoing) (sym e) (All-append IsGoing queue new old going)

  All-runs :
      (queue queue' : List InotifyEvent) (s s' : S)
      → All IsGoing queue
      → event_round q h queue s ≡ runs queue' s'
      → All IsGoing queue'
  All-runs [] queue' s s' going e = let e' = round_nil q fifo h s in absurd cc
  All-runs (item ∷ rest) queue' s s' (first, others) e =
      subst (All IsGoing) (sym (runs_lem q fifo h item rest queue' s s' first e))
        (All-append IsGoing rest (handle h item s).0 others (All-handle q fifo h item s first))

  no_end :
      (queue queue' : List InotifyEvent) (s s' : S)
      → All IsGoing queue
      → event_round q h queue s ≢ stops queue' s'
  no_end [] queue' s s' going e = let e' = round_nil q fifo h s in cc
  no_end (item ∷ rest) queue' s s' going e = never_stops q fifo h item rest queue' s s' going.0 e

  Open-Step :
      (s u : Threads S)
      → (s.running ≡ true → Open s)
      → Step q t names h s u
      → u.running ≡ true
      → Open u
  unfolding test consume parse go_on finish stop
  Open-Step s u held (tests at) going = held going
  Open-Step s u held (consumes sys at) going =
      let (old, number) = held going in
      (All-Added s.watcher.event_queue _ (Added-consume q fifo sys t names s) old, number)
  Open-Step s u held (parses sys none at) going = held going
  Open-Step s u held (parses sys (some event) at) going =
      let (old, number) = held going in
      (All-Added s.watcher.event_queue _ (Added-parse q fifo sys t (some event) s) old, number)
  Open-Step s u held (reloads c) going = held going
  Open-Step s u held (goes_on queue state one e) going =
      (All-runs s.watcher.event_queue queue s.state state (held going).0 e, (held going).1)
  Open-Step s u held (finishes queue state one e) going =
      absurd (no_end s.watcher.event_queue queue s.state state (held going).0 e)
  Open-Step s u held stops_all going = absurd cc

  pub Open-Reach : (s u : Threads S) → Open s → Reach q t names h s u → u.running ≡ true → Open u
  Open-Reach s u held start going = held
  Open-Reach s u held (later before step) going =
      Open-Step _ u (Open-Reach s _ held before) step going

  -- The event of `stop` stands in the queue: `n` counts the rounds up to it.
  abbrev pub Awaits : ℕ → Threads S → Type 0
  Awaits n s =
      (items : List InotifyEvent) × (last : InotifyEvent) × (behind : List InotifyEvent)
      × (s.watcher.event_queue ≡ items ++ last ∷ behind)
      × All IsGoing items
      × (last.event ≡ Events.stop)
      × (s.rounds + length items ≡ n)

  abbrev pub Ended : ℕ → Threads S → Type 0
  Ended n s = (s.event_thread_number ≡ 0) × (s.rounds ≡ suc n)

  Awaits-grown :
      (n : ℕ) (s : Threads S) (queue new : List InotifyEvent)
      → queue ≡ s.watcher.event_queue ++ new
      → Awaits n s
      → (items : List InotifyEvent) × (last : InotifyEvent) × (behind : List InotifyEvent) × (queue
          ≡ items ++ last ∷ behind)
        × All IsGoing items
        × (last.event ≡ Events.stop)
        × (s.rounds + length items ≡ n)
  Awaits-grown n s queue new e (items, last, behind, split, going, is_stop, count) = (
    items,
    last,
    behind ++ new,
    e ∙ ap (λ x. x ++ new) split ∙ append_assoc items (last ∷ behind) new,
    going,
    is_stop,
    count,
  )

  Awaits-goes_on :
      (n : ℕ) (s : Threads S) (queue : List InotifyEvent) (state : S)
      → event_round q h s.watcher.event_queue s.state ≡ runs queue state
      → Awaits n s
      → Awaits n (go_on s queue state)
  unfolding go_on
  Awaits-goes_on n s queue state e ([], last, behind, split, going, is_stop, count) = absurd (
      never_runs q fifo h last behind queue s.state state is_stop
        (ap (λ x. event_round q h x s.state) (sym split) ∙ e))
  Awaits-goes_on n s queue state e (item ∷ items, last, behind, split, going, is_stop, count) =
      let again = (handle h item s.state).0 in
      (
        items,
        last,
        behind ++ again,
        runs_lem q fifo h item (items ++ last ∷ behind) queue s.state state going.0
              (ap (λ x. event_round q h x s.state) (sym split) ∙ e)
            ∙ append_assoc items (last ∷ behind) again,
        going.1,
        is_stop,
        omega (arith, count),
      )

  Ended-finishes :
      (n : ℕ) (s : Threads S) (queue : List InotifyEvent) (state : S)
      → s.event_thread_number ≡ 1
      → event_round q h s.watcher.event_queue s.state ≡ stops queue state
      → Awaits n s
      → Ended n (finish s queue state)
  unfolding finish
  Ended-finishes n s queue state one e ([], last, behind, split, going, is_stop, count) =
      (omega (arith, one), omega (arith, count))
  Ended-finishes n s queue state one e (item ∷ items, last, behind, split, going, is_stop, count) =
      absurd (
        never_stops q fifo h item (items ++ last ∷ behind) queue s.state state going.0
          (ap (λ x. event_round q h x s.state) (sym split) ∙ e))

  Stopping-Step :
      (n : ℕ) (s u : Threads S)
      → Ended n s ⊎ Awaits n s
      → Step q t names h s u
      → Ended n u ⊎ Awaits n u
  unfolding test consume parse go_on finish stop
  Stopping-Step n s u (inl ended) (tests at) = inl ended
  Stopping-Step n s u (inl ended) (consumes sys at) = inl ended
  Stopping-Step n s u (inl ended) (parses sys none at) = inl ended
  Stopping-Step n s u (inl ended) (parses sys (some event) at) = inl ended
  Stopping-Step n s u (inl ended) (reloads c) = inl ended
  Stopping-Step n s u (inl ended) (goes_on queue state one e) = absurd (omega (arith, ended.0, one))
  Stopping-Step n s u (inl ended) (finishes queue state one e) =
      absurd (omega (arith, ended.0, one))
  Stopping-Step n s u (inl ended) stops_all = inl ended
  Stopping-Step n s u (inr awaits) (tests at) = inr awaits
  Stopping-Step n s u (inr awaits) (consumes sys at) =
      let (new, e, _) = Added-consume q fifo sys t names s in inr (Awaits-grown n s _ new e awaits)
  Stopping-Step n s u (inr awaits) (parses sys none at) = inr awaits
  Stopping-Step n s u (inr awaits) (parses sys (some event) at) =
      let (new, e, _) = Added-parse q fifo sys t (some event) s in
      inr (Awaits-grown n s _ new e awaits)
  Stopping-Step n s u (inr awaits) (reloads c) = inr awaits
  Stopping-Step n s u (inr awaits) (goes_on queue state one e) =
      inr (Awaits-goes_on n s queue state e awaits)
  Stopping-Step n s u (inr awaits) (finishes queue state one e) =
      inl (Ended-finishes n s queue state one e awaits)
  Stopping-Step n s u (inr awaits) stops_all =
      inr (
        Awaits-grown n s _ (stop_event ∷ []) (fifo.push_lem s.watcher.event_queue stop_event)
          awaits)

  pub Stopping-Reach :
      (n : ℕ) (s u : Threads S)
      → Ended n s ⊎ Awaits n s
      → Reach q t names h s u
      → Ended n u ⊎ Awaits n u
  Stopping-Reach n s u held start = held
  Stopping-Reach n s u held (later before step) =
      Stopping-Step n _ u (Stopping-Reach n s _ held before) step
