-- ===== src/Reader/Loops/Rounds/Advance.antt =====
-- How one call of `readString` of src/App/Reader.cpp ends that finds room for what it has to send.
use aidt.Prelude.{
  ℕ, suc, ◌+◌, ◌^◌, ◌≤◌, ◌<◌, ◌≡◌, refl, sym, ap, ◌∙◌, inl, inr, true, false, List, [], ◌∷◌, ◌++◌,
  append-nil, append_assoc, some, pos, ltb_ℤ, to_int, Bytes, length, drop, nat_beq, Bool-cases,
  bytes_eq, arith, length-append, ◌>>=◌, >>=-eq-some, subst,
}
use aidt.Adbase.{BufferOps, IsBuffer, QueueOps, IsFifo}
use aidt.DataStore.{FdMap, MessageItem}
use aidt.Settings.{AdbaseConfig}
use aidt.Message.{set_message}
use aidt.Message.Bounds.{set_message_lem}
use aidt.App.{any_part}
use aidt.Config.{WatcherFileInfo}
use aidt.Reader.{set_file_offset}
use aidt.Reader.Format.{Memory}
use aidt.Reader.Loops.{drained, continues, Outcome, send_message, read_string_loop}
use aidt.Reader.Loops.Lines.{
  complete, NoEof, offset_at, set_file_offset_lem, line_item, items, complete-line, text_of,
  send_message_lem, some_injective,
}
use aidt.Reader.Loops.Rounds.{short_lines}

module _ (b : BufferOps) (buffers : IsBuffer b) (q : QueueOps MessageItem) (fifo : IsFifo q)
    (conf : AdbaseConfig) (mem : Memory) (info : WatcherFileInfo) (limit : ℕ)
    (limited : conf.message_queue_limit ≡ pos limit) (small_limit : limit < 2 ^ 31) where
  -- A line that has an item is sent where there is room.
  send_message-room :
      (queue : List MessageItem) (line : Bytes) (i : MessageItem)
      → line_item mem info line ≡ some i
      → length queue ≤ limit
      → send_message b q conf mem info queue line ≡ some (queue ++ i ∷ [], true)
  send_message-room queue line i h room =
      let (text, et, ht) = >>=-eq-some (text_of mem info line) _ h in
      send_message_lem b buffers q fifo conf mem info queue line
      ∙ ap (λ t. t >>= λ text. some (set_message q conf queue info.topic_name any_part text)) et
      ∙ elim (set_message_lem q fifo conf limit limited queue info.topic_name any_part text
          (omega (arith, room, small_limit))) [
            | inl (_, stored) ↦
                ap some stored ∙ ap (λ i. some (queue ++ i ∷ [], true)) (some_injective ht)
            | inr (full, _) ↦ absurd (omega (arith, room, full))
          ]

  short_letter :
      (c : ℕ) (s buffer : Bytes)
      → nat_beq c b'\n' ≡ false
      → short_lines conf buffer (c ∷ s) ≡ true
      → (ltb_ℤ conf.max_line_bytes (to_int (length (buffer ++ c ∷ []))) ≡ false)
        × (short_lines conf (buffer ++ c ∷ []) s ≡ true)
  short_letter c s buffer e h =
      elim (Bool-cases (ltb_ℤ conf.max_line_bytes (to_int (length (buffer ++ c ∷ []))))) [
        | inl long ↦ let no : false ≡ true = rw (e, long) at h in absurd cc
        | inr fits ↦ (fits, rw (e, fits) at h)
      ]

  empty_of : (buffer : Bytes) → nat_beq (length buffer) 0 ≡ true → buffer ≡ []
  empty_of [] h = refl
  empty_of (x ∷ xs) h = absurd (ground (arith, h))

  -- The items of a text whose first line ends here.
  items_line :
      (c : ℕ) (s buffer : Bytes) (sent : List MessageItem)
      → nat_beq c b'\n' ≡ true
      → nat_beq (length buffer) 0 ≡ false
      → items mem info (complete buffer (c ∷ s)) ≡ some sent
      → (i : MessageItem) × (is : List MessageItem) × (line_item mem info buffer ≡ some i)
        × (items mem info (complete [] s) ≡ some is)
        × (sent ≡ i ∷ is)
  items_line c s buffer sent e line h =
      let h' = ap (items mem info) (sym (complete-line c s buffer e line)) ∙ h in
      let (i, hi, h1) = >>=-eq-some (line_item mem info buffer) _ h' in
      let (is, his, h2) = >>=-eq-some (items mem info (complete [] s)) _ h1 in
      (i, is, hi, his, sym (some_injective h2))

  module _ (origfile : Bytes) where
    -- How one call ends that has to send the items `sent`: with all of them sent, or with the first
    -- of them sent and the offset behind their lines.
    pub data Advance (read_size : ℕ) (queue : List MessageItem) (o : ℕ) (s : Bytes)
        (sent : List MessageItem) (out : Outcome) : Type 0 where
      whole : out.end ≡ drained → out.queue ≡ queue ++ sent → Advance read_size queue o s sent out
      part :
          (n : ℕ) (first rest : List MessageItem)
          → 0 < n
          → n ≤ length s
          → sent ≡ first ++ rest
          → items mem info (complete [] (drop n s)) ≡ some rest
          → NoEof (drop n s)
          → short_lines conf [] (drop n s) ≡ true
          → out.end ≡ continues
          → out.queue ≡ queue ++ first
          → offset_at origfile out.fd_map ≡ some (o + (read_size + n))
          → Advance read_size queue o s sent out

    Advance-byte :
        (c read_size o : ℕ) (queue : List MessageItem) (s : Bytes) (sent : List MessageItem)
        (out : Outcome)
        → Advance (suc read_size) queue o s sent out
        → Advance read_size queue o (c ∷ s) sent out
    Advance-byte c read_size o queue s sent out (whole d hq) = whole d hq
    Advance-byte c read_size o queue s sent out (part n first rest pos_n hn hs hi ne sh d hq ho) =
        part (suc n) first rest (omega arith) (omega arith) hs hi ne sh d hq
          (ho ∙ ap some (omega arith))

    Advance-line :
        (c read_size o : ℕ) (queue queue' : List MessageItem) (s : Bytes) (i : MessageItem)
        (sent : List MessageItem) (out : Outcome)
        → queue' ≡ queue ++ i ∷ []
        → Advance 0 queue' (o + suc read_size) s sent out
        → Advance read_size queue o (c ∷ s) (i ∷ sent) out
    Advance-line c read_size o queue queue' s i sent out hq' (whole d hq) =
        whole d (hq ∙ ap (λ qs. qs ++ sent) hq' ∙ append_assoc queue (i ∷ []) sent)
    Advance-line c read_size o queue queue' s i sent out hq'
          (part n first rest pos_n hn hs hi ne sh d hq ho) =
        part (suc n) (i ∷ first) rest (omega arith) (omega arith) (ap (◌∷◌ i) hs) hi ne sh d
          (hq ∙ ap (λ qs. qs ++ first) hq' ∙ append_assoc queue (i ∷ []) first)
          (ho ∙ ap some (omega arith))

    pub advance :
        (s buffer : Bytes) (read_size lines o : ℕ) (m : FdMap) (queue sent : List MessageItem)
        → offset_at origfile m ≡ some o
        → o + (read_size + length s) < 2 ^ 64
        → NoEof s
        → short_lines conf buffer s ≡ true
        → items mem info (complete buffer s) ≡ some sent
        → length queue + length sent ≤ limit + 1
        → Advance read_size queue o s sent
            (read_string_loop b q conf mem info origfile s buffer read_size lines m queue)
    unfolding read_string_loop
    advance [] buffer read_size lines o m queue sent ho small ne sh hi room =
        whole refl (sym (append-nil queue) ∙ ap (◌++◌ queue) (some_injective hi))
    advance (c ∷ rest) buffer read_size lines o m queue sent ho small (eof, ne) sh hi room =
        elim (Bool-cases (nat_beq c b'\n')) [
          | inr letter ↦
              let (fits, sh') = short_letter c rest buffer letter sh in
              rw (eof, letter, fits, read_string_loop)
                (Advance-byte c read_size o queue rest sent _ (
                  advance rest (buffer ++ c ∷ []) (suc read_size) lines o m queue sent ho
                    (omega arith) ne sh' (rw letter at hi) room))
          | inl newline ↦ elim (Bool-cases (nat_beq (length buffer) 0)) [
            | inl blank ↦
                let nothing = empty_of buffer blank in
                rw (eof, newline, blank, read_string_loop)
                  (Advance-byte c read_size o queue rest sent _ (
                    advance rest buffer (suc read_size) lines o m queue sent ho (omega arith) ne
                      (subst (λ t. short_lines conf t rest ≡ true) (sym nothing) (rw newline at sh))
                      (subst (λ t. items mem info (complete t rest) ≡ some sent) (sym nothing)
                        (rw (newline, blank) at hi))
                      room))
            | inr line ↦
                let (i, is, line_ok, hi', split) = items_line c rest buffer sent newline line hi in
                let many = ap length split in
                let sent_ok =
                  send_message-room queue buffer i line_ok (omega (arith, room, many)) in
                let m' = set_file_offset origfile (suc read_size) m in
                let ho' = set_file_offset_lem origfile (suc read_size) o m ho (omega arith) in
                let sh' = rw newline at sh in
                let loop =
                  read_string_loop b q conf mem info origfile (c ∷ rest) buffer read_size lines m
                    queue in
                subst (λ xs. Advance read_size queue o (c ∷ rest) xs loop) (sym split)
                  (elim (Bool-cases (ltb_ℤ conf.max_lines (pos (suc lines)))) [
                    | inl full ↦
                        rw (eof, newline, line, sent_ok, full, read_string_loop)
                          (part 1 (i ∷ []) is (omega arith) (omega arith) refl hi' ne sh' refl refl
                            (ho' ∙ ap some (omega arith)))
                    | inr full ↦
                        rw (eof, newline, line, sent_ok, full, read_string_loop)
                          (Advance-line c read_size o queue (queue ++ i ∷ []) rest i is _ refl (
                            advance rest [] 0 (suc lines) (o + suc read_size) m' (queue ++ i ∷ [])
                              is ho' (omega arith) ne sh' hi'
                              (omega (arith, room, many, length-append queue (i ∷ [])))))
                  ])
          ]
        ]
