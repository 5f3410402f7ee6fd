-- ===== src/Delivery/Complete.antt =====
-- From the complete lines of a file to what the producer takes of them: the file's way into the queue
-- and the queue's way to the producer together.
use aidt.Prelude.{
  ℕ, ◌+◌, ◌^◌, ◌<◌, ◌≡◌, refl, sym, ap, ◌∙◌, Bool, false, true, List, [], ◌++◌, some, Bytes, length,
  drop, map, append-nil, subst, if◌then◌else◌, drop-append,
}
use aidt.Adbase.{BufferOps, IsBuffer, QueueOps, IsFifo}
use aidt.DataStore.{FdItem, MessageItem}
use aidt.Settings.{AdbaseConfig}
use aidt.Message.Fifo.{outgoing}
use aidt.Config.{WatcherFileInfo}
use aidt.Reader.Format.{Memory}
use aidt.Reader.Loops.Lines.{complete, items}
use aidt.Reader.Followed.{position, Unaliased}
use aidt.Reader.Followed.Scene.{
  Scene, grows, shares, follows, reads, clears, moves_self, moves_to, stops,
}
use aidt.Reader.Followed.Scene
use aidt.Reader.Followed.Once.{once_lem}
use aidt.Pipeline.{Flow, grown_by, commands, requests, resends, sends, fails}
use aidt.Pipeline
use aidt.Pipeline.Grown.{Grown, Grown-refl, Grown-read}
use aidt.Pipeline.Conserved.{messages_of, Conserved, Conserved-Grown, Conserved-Step}
use aidt.Delivery.{Delivery, is_own, of_file, Step, turns, passes, Reach, start, later}
use aidt.Delivery.Merge.{Merge, Merge-nil, Merge-first, Merge-second, Merge-front, Merge-map}

module _ (b : BufferOps) (buffers : IsBuffer b) (q : QueueOps MessageItem) (fifo : IsFifo q)
    (conf : AdbaseConfig) (mem : Memory) (junk : FdItem) (path : Bytes)
    (info : WatcherFileInfo) where
  -- What a step of the file itself queues stands behind what was queued.
  Grown-is_own :
      (s u : Scene) (step : Scene.Step b q conf mem junk path info s u)
      → is_own b q conf mem junk path info step ≡ true
      → Grown s.queue u.queue
  unfolding is_own
  Grown-is_own s u (grows more small) own = Grown-refl s.queue
  Grown-is_own s u (shares queue) own = absurd cc
  Grown-is_own s u (follows w contents event c reading named setting seen h) own =
      Grown-read q fifo conf b buffers mem w junk contents event s.reader c s.queue reading h
  Grown-is_own s u (reads w contents event c reading other h) own =
      Grown-read q fifo conf b buffers mem w junk contents event s.reader c s.queue reading h
  Grown-is_own s u (clears event other) own = Grown-refl s.queue
  Grown-is_own s u (moves_self w event c) own = Grown-refl s.queue
  Grown-is_own s u (moves_to event other old) own = Grown-refl s.queue
  Grown-is_own s u stops own = Grown-refl s.queue

  -- What it counts as sent of the file, and what it counts as coming from elsewhere, make up what it
  -- queues.
  Merge-is_own :
      (s u : Scene) (step : Scene.Step b q conf mem junk path info s u)
      (others accepted : List MessageItem)
      → is_own b q conf mem junk path info step ≡ true
      → Merge s.sent others accepted
      → let new = drop (length s.queue) u.queue in
        Merge u.sent
          (if of_file b q conf mem junk path info step then others else others ++ new)
          (accepted ++ new)
  unfolding is_own of_file
  Merge-is_own s u (grows more small) others accepted own held = Merge-second _ held
  Merge-is_own s u (shares queue) others accepted own held = absurd cc
  Merge-is_own s u (follows w contents event c reading named setting seen h) others accepted own
        held =
      Merge-first (drop (length s.queue) reading.queue) held
  Merge-is_own s u (reads w contents event c reading other h) others accepted own held =
      Merge-second _ held
  Merge-is_own s u (clears event other) others accepted own held = Merge-second _ held
  Merge-is_own s u (moves_self w event c) others accepted own held = Merge-second _ held
  Merge-is_own s u (moves_to event other old) others accepted own held = Merge-second _ held
  Merge-is_own s u stops others accepted own held = Merge-second _ held

  module _ (explode : Bytes → ℕ → Bool → List Bytes) (version_text : Bytes) where
    Merge-grown :
        (sent others accepted new : List MessageItem)
        → Merge sent others accepted
        → Merge sent (others ++ drop (length accepted) (accepted ++ new)) (accepted ++ new)
    Merge-grown sent others accepted new held =
        subst (λ x. Merge sent (others ++ x) (accepted ++ new)) (sym (drop-append accepted new))
          (Merge-second new held)

    Merge-same :
        (sent others accepted : List MessageItem)
        → Merge sent others accepted
        → Merge sent (others ++ drop (length accepted) accepted) accepted
    Merge-same sent others accepted held =
        subst (λ x. Merge sent (others ++ drop (length accepted) x) x) (append-nil accepted)
          (Merge-grown sent others accepted [] held)

    Merge-passes :
        (s t : Flow) (sent others : List MessageItem)
        → Pipeline.Step b q conf mem junk explode version_text s t
        → Merge sent others s.accepted
        → Merge sent (others ++ drop (length s.accepted) t.accepted) t.accepted
    Merge-passes s t sent others (Pipeline.reads w contents event r c reading h) held =
        Merge-grown sent others s.accepted _ held
    Merge-passes s t sent others (commands context live c) held =
        Merge-grown sent others s.accepted _ held
    Merge-passes s t sent others (requests context live request) held =
        Merge-grown sent others s.accepted _ held
    Merge-passes s t sent others resends held = Merge-grown sent others s.accepted _ held
    Merge-passes s t sent others (sends live any out) held = Merge-same sent others s.accepted held
    Merge-passes s t sent others (fails any out) held = Merge-same sent others s.accepted held

    -- The way of the file from `s`, and what is known of the messages.
    record Joined (first : List MessageItem) (s : Scene) (t : Delivery) : Type 0 where
      way : Scene.Reach b q conf mem junk path info s t.scene
      shared : t.scene.queue ≡ t.flow.queue
      conserved :
          Conserved b buffers q fifo conf mem junk explode version_text first t.flow.taken
            t.flow.queue t.flow.accepted
      merged : Merge t.scene.sent t.others t.flow.accepted

    Joined-Step :
        (first : List MessageItem) (s : Scene) (t u : Delivery)
        → Joined first s t
        → Step b q conf mem junk path info explode version_text t u
        → Joined first s u
    Joined-Step first s t _ j (turns {u} step own) = record {
      way = Scene.later j.way step;
      shared = refl;
      conserved =
          Conserved-Grown b buffers q fifo conf mem junk explode version_text first t.flow u.queue
            (subst (λ x. Grown x u.queue) j.shared (Grown-is_own t.scene u step own)) j.conserved;
      merged =
          subst
            (λ x.
              Merge u.sent
                (if of_file b q conf mem junk path info step
                  then t.others
                  else t.others ++ drop (length x) u.queue)
                (t.flow.accepted ++ drop (length x) u.queue))
            j.shared (Merge-is_own t.scene u step t.others t.flow.accepted own j.merged);
    }
    Joined-Step first s t _ j (passes {t = u} step) = record {
      way = Scene.later j.way (shares u.queue);
      shared = refl;
      conserved =
          Conserved-Step b buffers q fifo conf mem junk explode version_text first t.flow u
            j.conserved step;
      merged = Merge-passes t.flow u t.scene.sent t.others step j.merged;
    }

    Joined-Reach :
        (first : List MessageItem) (s t : Delivery)
        → Joined first s.scene s
        → Reach b q conf mem junk path info explode version_text s t
        → Joined first s.scene t
    Joined-Reach first s t j start = j
    Joined-Reach first s t j (later before_it step) =
        Joined-Step first s.scene _ t (Joined-Reach first s _ j before_it) step

    -- For buffers and queues as documented and a text setting that was not moved: start from a reader
    -- that keeps the place behind `before`, with no alias for the file or of it, where nothing was taken
    -- or accepted yet. Whatever happens then, in any order: text is added to the file, events are read,
    -- other files are deleted and moved, the receivers and resends queue messages, the producer takes
    -- them. At any time the kept place divides the file's text into `before`, what was done, and the
    -- rest, and the messages that the producer took, followed by those that wait for it, are made up of
    -- two lists in their order: the items of the complete lines of what was done that are not empty,
    -- once for each line, and what was queued at first followed by what came in from elsewhere.
    pub delivery_lem :
        (is_text : info.is_binary ≡ false) (at_rest : info.move_time ≡ 0) (before rest : Bytes)
        (s t : Delivery)
        → s.scene.text ≡ before ++ rest
        → position path s.scene.reader.fd_map ≡ length before
        → Unaliased path s.scene.reader.alias_map
        → length s.scene.text < 2 ^ 64
        → s.scene.sent ≡ []
        → s.others ≡ []
        → s.scene.queue ≡ s.flow.queue
        → s.flow.accepted ≡ []
        → s.flow.taken ≡ []
        → Reach b q conf mem junk path info explode version_text s t
        → (done left : Bytes) × (lines : List MessageItem) × (t.scene.text
            ≡ before ++ (done ++ left))
          × (position path t.scene.reader.fd_map ≡ length before + length done)
          × (items mem info (complete [] done) ≡ some lines)
          × Merge
              (map outgoing lines)
              (map outgoing (s.flow.queue ++ t.others))
              (messages_of t.flow.taken ++ map outgoing t.flow.queue)
    delivery_lem is_text at_rest before rest s t split at unaliased small none_sent none_else shared
          none_in none_out reach =
        let first = s.flow.queue in
        let j =
          Joined-Reach first s t
            (record {
              way = Scene.start;
              shared = shared;
              conserved =
                  ap (λ x. messages_of x ++ map outgoing first) none_out
                  ∙ ap (map outgoing) (sym (append-nil first) ∙ ap (◌++◌ first) (sym none_in));
              merged =
                  subst (λ x. Merge x s.others s.flow.accepted) (sym none_sent)
                    (subst (Merge [] s.others) (none_else ∙ sym none_in) (Merge-nil s.others));
            })
            reach in
        let (done, left, text, at', lines) =
          once_lem b buffers q fifo conf mem junk path info is_text at_rest before s.scene t.scene
            rest split at unaliased small none_sent j.way in
        (
          done,
          left,
          t.scene.sent,
          text,
          at',
          lines,
          subst (Merge (map outgoing t.scene.sent) (map outgoing (first ++ t.others)))
              (sym j.conserved) (Merge-map outgoing (Merge-front first j.merged)),
        )
