-- ===== src/Watcher/Threads/Steps.antt =====
-- What the steps of the threads of src/App/Watcher.cpp make of the event queue.
use aidt.Prelude.{
  ◌≡◌, ◌≢◌, sym, ap, ◌∙◌, inl, inr, List, [], ◌∷◌, ◌++◌, Option, none, some, Bytes, All, Bool-cases,
}
use aidt.Adbase.{QueueOps, IsFifo, TextOps}
use aidt.Events.{InotifyEvent, EventType, delete, move_self, modify, move_to, stop}
use aidt.Watcher.{System}
use aidt.Watcher.Added.{Added, Added-refl, Added-consumer_config_queue, IsGoing}
use aidt.Watcher.Paser.{RawEvent}
use aidt.Watcher.Paser.Added.{Added-paser_event}
use aidt.Watcher.Dispatch.{Handlers, Next, waits, runs, stops, event_round}
use aidt.Watcher.Dispatch.Drain.{handle, event_of, round_by, round_stop}
use aidt.Watcher.Threads.{Threads, consume, parse}

abbrev queue_of : {S : Type 0} → Next S → List InotifyEvent
queue_of waits = []
queue_of (runs queue s) = queue
queue_of (stops queue s) = queue

module _ (q : QueueOps InotifyEvent) (fifo : IsFifo q) {S : Type 0} where
  pub Added-consume :
      (sys : System) (t : TextOps) (names : QueueOps Bytes) (s : Threads S)
      → Added s.watcher.event_queue (consume q sys t names s).watcher.event_queue
  unfolding consume
  Added-consume sys t names s = Added-consumer_config_queue q fifo sys t names s.config s.watcher

  pub Added-parse :
      (sys : System) (t : TextOps) (event : Option RawEvent) (s : Threads S)
      → Added s.watcher.event_queue (parse q sys t event s).watcher.event_queue
  unfolding parse
  Added-parse sys t none s = Added-refl s.watcher.event_queue
  Added-parse sys t (some event) s = Added-paser_event q fifo t sys s.config s.watcher event

  module _ (h : Handlers S) where
    pub All-handle : (item : InotifyEvent) (s : S) → IsGoing item → All IsGoing (handle h item s).0
    All-handle item s going = of item.event item.pathfile item.origfile item.aliasfile
      where
        of :
            (e : EventType) (pathfile origfile aliasfile : Bytes)
            → All IsGoing (handle h (event_of e pathfile origfile aliasfile) s).0
        of delete p o a = tt
        of move_self p o a = ((λ h. cc), tt)
        of modify p o a = elim (Bool-cases (h.read_handler (event_of modify p o a) s).1) [
          | inl again ↦ rw again ((λ h. cc), tt)
          | inr again ↦ rw again tt
        ]
        of move_to p o a = ((λ h. cc), tt)
        of stop p o a = tt

    -- A round of the event thread takes the first event and queues again what its handler asks for.
    pub runs_lem :
        (item : InotifyEvent) (rest queue : List InotifyEvent) (s s' : S)
        → IsGoing item
        → event_round q h (item ∷ rest) s ≡ runs queue s'
        → queue ≡ rest ++ (handle h item s).0
    runs_lem item rest queue s s' going e = ap queue_of (
        sym e
        ∙ round_by q fifo h item.event item.pathfile item.origfile item.aliasfile rest s going)

    pub never_stops :
        (item : InotifyEvent) (rest queue : List InotifyEvent) (s s' : S)
        → IsGoing item
        → event_round q h (item ∷ rest) s ≢ stops queue s'
    never_stops item rest queue s s' going e =
        let e' =
          round_by q fifo h item.event item.pathfile item.origfile item.aliasfile rest s going in
        cc

    pub never_runs :
        (last : InotifyEvent) (behind queue : List InotifyEvent) (s s' : S)
        → last.event ≡ stop
        → event_round q h (last ∷ behind) s ≢ runs queue s'
    never_runs last behind queue s s' is_stop e =
        let e' = round_stop q fifo h last behind s is_stop in cc

    pub stops_lem :
        (last : InotifyEvent) (behind queue : List InotifyEvent) (s s' : S)
        → last.event ≡ stop
        → event_round q h (last ∷ behind) s ≡ stops queue s'
        → queue ≡ behind
    stops_lem last behind queue s s' is_stop e =
        ap queue_of (sym e ∙ round_stop q fifo h last behind s is_stop)
