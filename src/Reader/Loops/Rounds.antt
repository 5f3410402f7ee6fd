-- ===== src/Reader/Loops/Rounds.antt =====
-- The calls of `Reader::read` of src/App/Reader.cpp for an event that the event thread queues again as
-- long as `isContinue` is set.
pub mod Advance
pub mod Follows
pub mod Finished
use aidt.Prelude.{
  ℕ, zero, suc, Bool, true, not, ◌&&◌, List, [], ◌∷◌, ◌++◌, Option, none, some, ltb_ℤ, to_int,
  Bytes, length, nat_beq, if◌then◌else◌,
}
use aidt.Adbase.{BufferOps, QueueOps}
use aidt.DataStore.{FdItem, MessageItem}
use aidt.Settings.{AdbaseConfig}
use aidt.Config.{Config}
use aidt.Events.{InotifyEvent}
use aidt.Reader.{Reader, World}
use aidt.Reader.Format.{Memory}
use aidt.Reader.Loops.{Reading, read}

module _ (conf : AdbaseConfig) where
  -- No line is longer than the limit, when `buffer` stands before the text.
  abbrev pub short_lines : Bytes → Bytes → Bool
  short_lines buffer [] = true
  short_lines buffer (c ∷ s) =
      let next = short_lines [] s in
      let more = short_lines (buffer ++ c ∷ []) s in
      if nat_beq c b'\n'
      then next
      else not (ltb_ℤ conf.max_line_bytes (to_int (length (buffer ++ c ∷ [])))) && more

-- What follows a call: the event is queued again, or not. `isContinue` is false before the call.
pub settle : (Reading → Option Reading) → Option Reading → Option Reading
settle again none = none
settle again (some reading) = elim reading.is_continue [
  | some true ↦ again reading
  | _ ↦ some reading
]

module _ (b : BufferOps) (q : QueueOps MessageItem) (conf : AdbaseConfig) (mem : Memory)
    (worlds : ℕ → World) (junk : FdItem) (contents : ℕ → Bytes) (event : InotifyEvent) where
  -- The calls of `read`, each with what the last one left and at a time of its own; `none` where
  -- `isContinue` still is set after so many calls, or where a call is undefined.
  pub read_rounds : ℕ → Reader → Config → List MessageItem → Option Reading
  unfolding settle
  read_rounds zero r c queue = none
  read_rounds (suc fuel) r c queue =
      settle (λ reading. read_rounds fuel reading.reader reading.config reading.queue)
        (read b q conf mem (worlds fuel) junk contents event r c queue)
