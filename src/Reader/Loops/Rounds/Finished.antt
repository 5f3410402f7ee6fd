-- ===== src/Reader/Loops/Rounds/Finished.antt =====
-- Calling `Reader::read` of src/App/Reader.cpp again while it sets `isContinue` comes to the end of a text
-- file.
use aidt.Prelude.{
  ℕ, zero, suc, ◌+◌, ◌^◌, ◌≤◌, ◌<◌, ◌≡◌, refl, sym, ap, ◌∙◌, true, false, List, [], ◌∷◌, ◌++◌,
  append_assoc, Option, some, pos, Bytes, length, drop, bytes_eq, arith, length-append, length-drop,
  subst,
}
use aidt.Adbase.{BufferOps, IsBuffer, QueueOps, IsFifo}
use aidt.DataStore.{FdItem, MessageItem}
use aidt.Settings.{AdbaseConfig}
use aidt.Config.{Config, WatcherFileInfo, find_file}
use aidt.Events.{InotifyEvent}
use aidt.Reader.{Reader, World, Opened}
use aidt.Reader.Format.{Memory}
use aidt.Reader.Loops.{Reading, drained, continues, Outcome, finish, read_string_loop}
use aidt.Reader.Loops.Lines.{complete, NoEof, items}
use aidt.Reader.Loops.Rounds.{short_lines, settle, read_rounds}
use aidt.Reader.Loops.Rounds.Advance.{whole, part, advance}
use aidt.Reader.Loops.Rounds.Follows.{
  Follows, touch, opened, read_open, offset_at-touch, Follows-loop,
}

drop-drop : (n o : ℕ) (s : Bytes) → drop n (drop o s) ≡ drop (o + n) s
drop-drop n zero s = let e : n ≡ 0 + n = omega arith in ap (λ k. drop k s) e
drop-drop zero (suc o) [] = let e : suc o ≡ suc o + 0 = omega arith in ap (λ k. drop k []) e
drop-drop (suc n) (suc o) [] =
    let e : suc (o + suc n) ≡ suc o + suc n = omega arith in ap (λ k. drop k []) e
drop-drop n (suc o) (c ∷ s) =
    let e : suc (o + n) ≡ suc o + n = omega arith in drop-drop n o s ∙ ap (λ k. drop k (c ∷ s)) e

-- What a call leaves.
abbrev left_by : Opened → Outcome → Reading
left_by o out = record {
  reader = record o.reader { fd_map = out.fd_map };
  config = o.config;
  queue = out.queue;
  is_continue = some false;
}

module _ (b : BufferOps) (buffers : IsBuffer b) (q : QueueOps MessageItem) (fifo : IsFifo q)
    (conf : AdbaseConfig) (mem : Memory) (info : WatcherFileInfo) (limit : ℕ)
    (limited : conf.message_queue_limit ≡ pos limit) (small_limit : limit < 2 ^ 31)
    (worlds : ℕ → World) (junk : FdItem) (contents : ℕ → Bytes) (event : InotifyEvent) (c : Config)
    (h : ℕ) (is_text : info.is_binary ≡ false) (at_rest : info.move_time ≡ 0)
    (found : find_file c event.pathfile ≡ some info) where
  abbrev content : Bytes
  content = contents h

  settle-drained :
      (again : Reading → Option Reading) (o : Opened) (out : Outcome)
      → out.end ≡ drained
      → settle again (finish o out) ≡ some (left_by o out)
  unfolding settle finish
  settle-drained again o out d = rw (d, finish) refl

  settle-continues :
      (again : Reading → Option Reading) (o : Opened) (out : Outcome)
      → out.end ≡ continues
      → settle again (finish o out) ≡ again (record (left_by o out) { is_continue = some true })
  unfolding settle finish
  settle-continues again o out d = rw (d, finish) refl

  rounds_from :
      (fuel o : ℕ) (r : Reader) (queue sent : List MessageItem)
      → Follows conf event.origfile h r o
      → o ≤ length content
      → length content < 2 ^ 64
      → NoEof (drop o content)
      → short_lines conf [] (drop o content) ≡ true
      → items mem info (complete [] (drop o content)) ≡ some sent
      → length queue + length sent ≤ limit + 1
      → length (drop o content) < fuel
      → (reading : Reading) × (read_rounds b q conf mem worlds junk contents event fuel r c queue
          ≡ some reading)
        × (reading.queue ≡ queue ++ sent)
        × (reading.is_continue ≡ some false)
  unfolding read_rounds
  rounds_from zero o r queue sent f low small ne sh hi room enough = absurd (omega (arith, enough))
  rounds_from (suc fuel) o r queue sent f low small ne sh hi room enough =
      let again : Reading → Option Reading = λ reading.
        read_rounds b q conf mem worlds junk contents event fuel reading.reader reading.config
          reading.queue in
      let w = worlds fuel in
      let from = opened conf h event info at_rest w r c f.item in
      let out =
        read_string_loop b q conf mem info event.origfile (drop o content) [] 0 0
          (touch conf h event info at_rest w r f.item).fd_map queue in
      let called =
        ap (settle again) (
          read_open conf h event info at_rest b q mem w junk contents r c queue o f found
            is_text) in
      elim (advance b buffers q fifo conf mem info limit limited small_limit event.origfile
        (drop o content) [] 0 0 o (touch conf h event info at_rest w r f.item).fd_map queue sent
        (offset_at-touch conf h event info at_rest w r o f)
        (omega (arith, small, low, length-drop o content)) ne sh hi room) [
          | whole d hq ↦ (left_by from out, called ∙ settle-drained again from out d, hq, refl)
          | part n first rest pos_n hn hs hi' ne' sh' d hq ho' ↦
              let at = drop-drop n o content in
              let (reading, done, queued, stopped) =
                rounds_from fuel (o + n) (left_by from out).reader out.queue rest
                  (Follows-loop conf h event info at_rest b q mem w r o (o + n) f (drop o content)
                    queue (ho' ∙ ap some (omega arith)))
                  (omega (arith, hn, low, length-drop o content)) small (subst NoEof at ne')
                  (subst (λ s. short_lines conf [] s ≡ true) at sh')
                  (subst (λ s. items mem info (complete [] s) ≡ some rest) at hi')
                  (omega (
                    arith,
                    room,
                    ap length hq,
                    ap length hs,
                    length-append queue first,
                    length-append first rest,
                  ))
                  (omega
                    (arith, enough, pos_n, hn, ap length at, length-drop n (drop o content))) in
              (
                reading,
                called ∙ settle-continues again from out d ∙ done,
                queued
                    ∙ ap (λ qs. qs ++ rest) hq
                    ∙ append_assoc queue first rest
                    ∙ ap (◌++◌ queue) (sym hs),
                stopped,
              )
        ]

  -- For buffers and queues as documented, a limit of messages below 2 ^ 31, and a text setting of the
  -- event's file that was not moved: when the reader runs, keeps the place `o` for the file under its
  -- name, has an open and good stream for it, and does not have more streams than the limit, when the
  -- place lies in the file, no byte of the rest is 255, no line of the rest is longer than the limit,
  -- each has an item, and there is room for all of them, then calling `read` again while it sets
  -- `isContinue`, each time at any time of day, comes to an end, after as many calls at most as there are
  -- bytes left and one more, and has queued exactly the items of the complete lines that are not empty,
  -- in their order.
  pub read_rounds_lem :
      (o : ℕ) (r : Reader) (queue sent : List MessageItem)
      → Follows conf event.origfile h r o
      → o ≤ length content
      → length content < 2 ^ 64
      → NoEof (drop o content)
      → short_lines conf [] (drop o content) ≡ true
      → items mem info (complete [] (drop o content)) ≡ some sent
      → length queue + length sent ≤ limit + 1
      → (reading : Reading) × (read_rounds b q conf mem worlds junk contents event
            (suc (length (drop o content)))
            r
            c
            queue
          ≡ some reading)
        × (reading.queue ≡ queue ++ sent)
        × (reading.is_continue ≡ some false)
  read_rounds_lem o r queue sent f low small ne sh hi room =
      rounds_from (suc (length (drop o content))) o r queue sent f low small ne sh hi room
        (omega arith)
