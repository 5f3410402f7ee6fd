-- ===== src/Watcher/Dispatch/Drain.antt =====
-- What the event thread of src/App/Watcher.cpp has done when it reaches the event of `stop`.
use aidt.Prelude.{
  suc, ◌≡◌, ◌≢◌, refl, ap, ◌∙◌, List, [], ◌∷◌, ◌++◌, append-nil, append_assoc, some, Bytes, length,
  All, if◌then◌else◌, Bool-cases, inl, inr,
}
use aidt.Adbase.{QueueOps, IsFifo}
use aidt.Events.{InotifyEvent, EventType, delete, move_self, modify, move_to, stop}
use aidt.Watcher.Dispatch.{Handlers, waits, runs, stops, event_round, event_thread}

abbrev pub event_of : EventType → Bytes → Bytes → Bytes → InotifyEvent
event_of event pathfile origfile aliasfile = record {
  pathfile = pathfile;
  origfile = origfile;
  aliasfile = aliasfile;
  event = event;
}

module _ {S : Type 0} (h : Handlers S) where
  -- What the handlers make of an event, and the events that are queued again for it.
  abbrev pub handle : InotifyEvent → S → List InotifyEvent × S
  handle item s =
      let item' = record item { event = modify } in
      let after = h.read_handler item s in
      elim item.event [
        | delete ↦ ([], h.clear_handler item s)
        | move_self ↦ (item' ∷ [], h.move_self_handler item' s)
        | modify ↦ (if after.1 then item ∷ [] else [], after.0)
        | move_to ↦ (item' ∷ [], h.move_to_handler item' s)
        | stop ↦ ([], s)
      ]

  abbrev pub handle_all : List InotifyEvent → S → List InotifyEvent × S
  handle_all [] s = ([], s)
  handle_all (item ∷ items) s =
      let (again, s') = handle item s in
      let (more, s'') = handle_all items s' in (again ++ more, s'')

module _ (q : QueueOps InotifyEvent) (fifo : IsFifo q) {S : Type 0} (h : Handlers S) where
  pub round_by :
      (e : EventType) (pathfile origfile aliasfile : Bytes) (rest : List InotifyEvent) (s : S)
      → e ≢ stop
      → let item = event_of e pathfile origfile aliasfile in
        event_round q h (item ∷ rest) s ≡ runs (rest ++ (handle h item s).0) (handle h item s).1
  unfolding event_round
  round_by delete p o a rest s going =
      rw (fifo.try_pop-cons (event_of delete p o a) rest, append-nil rest, event_round) refl
  round_by move_self p o a rest s going =
      rw
        (
          fifo.try_pop-cons (event_of move_self p o a) rest,
          fifo.push_lem rest (event_of modify p o a),
          event_round,
        )
        refl
  round_by modify p o a rest s going =
      let item = event_of modify p o a in
      elim (Bool-cases (h.read_handler item s).1) [
        | inl again ↦
            rw (fifo.try_pop-cons item rest, again, fifo.push_lem rest item, event_round) refl
        | inr again ↦ rw (fifo.try_pop-cons item rest, again, append-nil rest, event_round) refl
      ]
  round_by move_to p o a rest s going =
      rw
        (
          fifo.try_pop-cons (event_of move_to p o a) rest,
          fifo.push_lem rest (event_of modify p o a),
          event_round,
        )
        refl
  round_by stop p o a rest s going = absurd (going refl)

  pub round_stop :
      (last : InotifyEvent) (behind : List InotifyEvent) (s : S)
      → last.event ≡ stop
      → event_round q h (last ∷ behind) s ≡ stops behind s
  unfolding event_round
  round_stop last behind s e = rw (fifo.try_pop-cons last behind, e, event_round) refl

  pub round_nil : (s : S) → event_round q h [] s ≡ waits
  unfolding event_round
  round_nil s = rw (fifo.try_pop-nil, event_round) refl

  -- When the events before the one of `stop` are not `stop` themselves, and other events may stand
  -- behind it: the thread ends, it has given every event before it to its handler, in their order and
  -- each once, and it leaves the events behind it, followed by those that were queued again.
  pub event_thread_lem :
      (items : List InotifyEvent) (last : InotifyEvent) (behind : List InotifyEvent) (s : S)
      → All (λ item. item.event ≢ stop) items
      → last.event ≡ stop
      → event_thread q h (suc (length items)) (items ++ last ∷ behind) s
        ≡ some (behind ++ (handle_all h items s).0, (handle_all h items s).1)
  unfolding event_thread
  event_thread_lem [] last behind s going e =
      rw (round_stop last behind s e, append-nil behind, event_thread) refl
  event_thread_lem (item ∷ items) last behind s going e =
      let (again, s') = handle h item s in
      rw
        (
          round_by item.event item.pathfile item.origfile item.aliasfile (items ++ last ∷ behind) s
              going.0,
          append_assoc items (last ∷ behind) again,
          event_thread,
        )
        (event_thread_lem items last (behind ++ again) s' going.1 e
          ∙ ap (λ queue. some (queue, (handle_all h items s').1))
              (append_assoc behind again (handle_all h items s').0))
