-- ===== src/Pipeline/Grown.antt =====
-- What reads, receives and loads messages puts them behind those that are queued.
use aidt.Prelude.{
  ℕ, suc, ◌≡◌, sym, ap, ◌∙◌, inl, inr, Bool, true, false, ◌&&◌, List, [], ◌∷◌, ◌++◌, append-nil,
  append_assoc, some, Bytes, length, Option-cases, Bool-cases, Yields, Yields-if, map-Yields, subst,
}
use aidt.Adbase.{BufferOps, IsBuffer, QueueOps, IsFifo}
use aidt.DataStore.{FdItem, MessageItem}
use aidt.Settings.{AdbaseConfig}
use aidt.Message.{set_message}
use aidt.Message.Bounds.{queued, set_message_accepted, set_message_refused}
use aidt.Config.{Config, WatcherFileInfo, find_file}
use aidt.Events.{InotifyEvent}
use aidt.Reader.{Reader, World, Opened, init_stream}
use aidt.Reader.Format.{Memory}
use aidt.Reader.Loops.{
  Reading, Outcome, finish, rest_of, send_message, read_string, read_binary, read,
}
use aidt.Reader.Loops.Lines.{send_message-true, send_message-false}
use aidt.Reader.Loops.Keeps.{read_string_loop-holds, read_binary_loop-holds}
use aidt.Reader.Followed.Others.{Left, finish_lem}

-- New items stand behind the old ones.
abbrev pub Grown : List MessageItem → List MessageItem → Type 0
Grown queue queue' = (new : List MessageItem) × (queue' ≡ queue ++ new)

pub Grown-refl : (queue : List MessageItem) → Grown queue queue
Grown-refl queue = ([], sym (append-nil queue))

pub Grown-trans :
    (queue queue' queue'' : List MessageItem)
    → Grown queue queue'
    → Grown queue' queue''
    → Grown queue queue''
Grown-trans queue queue' queue'' (new, e) (more, e') =
    (new ++ more, e' ∙ ap (λ x. x ++ more) e ∙ append_assoc queue new more)

module _ (q : QueueOps MessageItem) (fifo : IsFifo q) (conf : AdbaseConfig) where
  pub Grown-set_message :
      (queue : List MessageItem) (topic : Bytes) (part_id : ℕ) (text : Bytes)
      → Grown queue (set_message q conf queue topic part_id text).0
  Grown-set_message queue topic part_id text =
      let out = set_message q conf queue topic part_id text in
      elim (Bool-cases out.1) [
        | inl e ↦ (
          queued topic part_id text ∷ [],
          set_message_accepted q fifo conf queue out.0 topic part_id text (ap (λ t. (out.0, t)) e),
        )
        | inr e ↦ (
          [],
          set_message_refused q conf queue out.0 topic part_id text (ap (λ t. (out.0, t)) e)
              ∙ sym (append-nil queue),
        )
      ]

  module _ (b : BufferOps) (buffers : IsBuffer b) (mem : Memory) where
    Grown-send_message :
        (info : WatcherFileInfo) (queue queue' : List MessageItem) (line : Bytes) (done : Bool)
        → send_message b q conf mem info queue line ≡ some (queue', done)
        → Grown queue queue'
    Grown-send_message info queue queue' line true h =
        let (i, _, e) = send_message-true b buffers q fifo conf mem info queue queue' line h in
        (i ∷ [], e)
    Grown-send_message info queue queue' line false h = (
      [],
      send_message-false b buffers q fifo conf mem info queue queue' line h
          ∙ sym (append-nil queue),
    )

    module _ (w : World) (junk : FdItem) (contents : ℕ → Bytes) (event : InotifyEvent) (r : Reader)
        (c : Config) (queue : List MessageItem) where
      abbrev Reads : Reading → Type 0
      Reads reading = Grown queue reading.queue

      Reads-finish :
          (o : Opened) (out : Outcome) → Grown queue out.queue → Yields Reads (finish o out)
      Reads-finish o out grown =
          map-Yields {P = Left o out} (finish o out)
            (λ reading left. subst (Grown queue) (sym left.0) grown) (finish_lem o out)

      Reads-read_string :
          (info : WatcherFileInfo)
          → Yields Reads (read_string b q conf mem w junk contents event info r c queue)
      unfolding read_string
      Reads-read_string info =
          let o = init_stream conf w junk event info r c in
          elim (Bool-cases (o.ret && r.running)) [
            | inl e ↦ rw e (
                Reads-finish o _ (
                  read_string_loop-holds b q conf mem info event.origfile
                    (λ m queue'. Grown queue queue') (λ k m queue' held. held)
                    (λ m queue' queue'' line done sent held.
                      Grown-trans queue queue' queue'' held
                        (Grown-send_message info queue' queue'' line done sent))
                    (rest_of b q conf mem w junk contents o.item) [] 0 0 o.reader.fd_map queue
                    (Grown-refl queue)))
            | inr e ↦ rw e (Reads-finish o _ (Grown-refl queue))
          ]

      Reads-read_binary :
          (info : WatcherFileInfo)
          → Yields Reads (read_binary b q conf mem w junk contents event info r c queue)
      unfolding read_binary
      Reads-read_binary info =
          let o = init_stream conf w junk event info r c in
          let rest = rest_of b q conf mem w junk contents o.item in
          elim (Bool-cases (o.ret && r.running)) [
            | inl e ↦ rw e (
                Reads-finish o _ (
                  read_binary_loop-holds b q conf mem info event.origfile
                    (λ m queue'. Grown queue queue') (λ k m queue' held. held)
                    (λ m queue' queue'' line done sent held.
                      Grown-trans queue queue' queue'' held
                        (Grown-send_message info queue' queue'' line done sent))
                    (suc (length rest)) rest 0 o.reader.fd_map queue (Grown-refl queue)))
            | inr e ↦ rw e (Reads-finish o _ (Grown-refl queue))
          ]

      pub Grown-read :
          (reading : Reading)
          → read b q conf mem w junk contents event r c queue ≡ some reading
          → Grown queue reading.queue
      unfolding read
      Grown-read reading h =
          subst (Yields Reads) h (elim (Option-cases (find_file c event.pathfile)) [
            | inl e ↦ rw (e, read) (Grown-refl queue)
            | inr (info, e) ↦
                rw (e, read)
                  (Yields-if Reads info.is_binary _ _ (Reads-read_binary info)
                    (Reads-read_string info))
          ])
