-- ===== src/Reader/Loops/Text.antt =====
-- What one call of `readString` of src/App/Reader.cpp sends, and where it leaves the offset.
use aidt.Prelude.{
  ℕ, suc, ◌+◌, ◌^◌, ◌≤◌, ◌<◌, ◌≡◌, refl, sym, ap, ◌∙◌, inl, inr, true, false, List, [], ◌∷◌, ◌++◌,
  append-nil, append_assoc, some, pos, ltb_ℤ, to_int, Bytes, length, take, nat_beq, Option-cases,
  Bool-cases, bytes_eq, arith,
}
use aidt.Adbase.{BufferOps, IsBuffer, QueueOps, IsFifo}
use aidt.DataStore.{FdMap, MessageItem}
use aidt.Settings.{AdbaseConfig}
use aidt.Config.{WatcherFileInfo}
use aidt.Reader.{set_file_offset}
use aidt.Reader.Format.{Memory}
use aidt.Reader.Loops.{drained, Outcome, send_message, read_string_loop}
use aidt.Reader.Loops.Lines.{
  complete, Closed, Closed-line, NoEof, offset_at, set_file_offset_lem, line_item, items,
  items-cons, complete-line, send_message-true, send_message-false,
}

module _ (b : BufferOps) (buffers : IsBuffer b) (q : QueueOps MessageItem) (fifo : IsFifo q)
    (conf : AdbaseConfig) (mem : Memory) (info : WatcherFileInfo) where
  module _ (origfile : Bytes) where
    -- What the loop does from a state on: nothing is sent, or the lines of the first `n` bytes are.
    data Progress (buffer : Bytes) (read_size : ℕ) (queue : List MessageItem) (o : ℕ) (s : Bytes)
        (out : Outcome) : Type 0 where
      stayed :
          out.queue ≡ queue
          → offset_at origfile out.fd_map ≡ some o
          → (NoEof s → out.end ≡ drained → complete buffer s ≡ [])
          → Progress buffer read_size queue o s out
      moved :
          (n : ℕ) (sent : List MessageItem)
          → n ≤ length s
          → items mem info (complete buffer (take n s)) ≡ some sent
          → Closed buffer (take n s)
          → out.queue ≡ queue ++ sent
          → offset_at origfile out.fd_map ≡ some (o + (read_size + n))
          → (NoEof s → out.end ≡ drained → complete buffer s ≡ complete buffer (take n s))
          → Progress buffer read_size queue o s out

    progress_longer :
        (c : ℕ) (rest buffer : Bytes) (read_size o : ℕ) (queue : List MessageItem) (out : Outcome)
        → nat_beq c b'\n' ≡ false
        → Progress (buffer ++ c ∷ []) (suc read_size) queue o rest out
        → Progress buffer read_size queue o (c ∷ rest) out
    progress_longer c rest buffer read_size o queue out e (stayed hq ho hd) =
        stayed hq ho (λ ne d. rw e (hd ne.1 d))
    progress_longer c rest buffer read_size o queue out e (moved n sent hn hi hc hq ho hd) =
        moved (suc n) sent (omega arith) (rw e hi) (λ t. rw e (hc t)) hq
          (ho ∙ ap some (omega arith)) (λ ne d. rw e (hd ne.1 d))

    progress_blank :
        (c : ℕ) (rest buffer : Bytes) (read_size o : ℕ) (queue : List MessageItem) (out : Outcome)
        → nat_beq c b'\n' ≡ true
        → nat_beq (length buffer) 0 ≡ true
        → Progress buffer (suc read_size) queue o rest out
        → Progress buffer read_size queue o (c ∷ rest) out
    progress_blank c rest (x ∷ xs) read_size o queue out e blank p = absurd (ground (arith, blank))
    progress_blank c rest [] read_size o queue out e blank (stayed hq ho hd) =
        stayed hq ho (λ ne d. rw e (hd ne.1 d))
    progress_blank c rest [] read_size o queue out e blank (moved n sent hn hi hc hq ho hd) =
        moved (suc n) sent (omega arith) (rw e hi) (λ t. rw e (hc t)) hq
          (ho ∙ ap some (omega arith)) (λ ne d. rw e (hd ne.1 d))

    progress_line :
        (c : ℕ) (rest buffer : Bytes) (read_size o : ℕ) (queue queue' : List MessageItem)
        (i : MessageItem) (out : Outcome)
        → nat_beq c b'\n' ≡ true
        → nat_beq (length buffer) 0 ≡ false
        → line_item mem info buffer ≡ some i
        → queue' ≡ queue ++ i ∷ []
        → Progress [] 0 queue' (o + suc read_size) rest out
        → Progress buffer read_size queue o (c ∷ rest) out
    progress_line c rest buffer read_size o queue queue' i out e l hi hq' (stayed hq ho hd) =
        moved 1 (i ∷ []) (omega arith)
          (ap (items mem info) (complete-line c [] buffer e l)
            ∙ items-cons mem info buffer [] i [] hi refl)
          (Closed-line c [] buffer e l (λ t. refl)) (hq ∙ hq') (ho ∙ ap some (omega arith))
          (λ ne d.
            complete-line c rest buffer e l
            ∙ ap (◌∷◌ buffer) (hd ne.1 d)
            ∙ sym (complete-line c [] buffer e l))
    progress_line c rest buffer read_size o queue queue' i out e l hi hq'
          (moved n sent hn his hc hq ho hd) =
        moved (suc n) (i ∷ sent) (omega arith)
          (ap (items mem info) (complete-line c (take n rest) buffer e l)
            ∙ items-cons mem info buffer (complete [] (take n rest)) i sent hi his)
          (Closed-line c (take n rest) buffer e l hc)
          (hq ∙ ap (λ qs. qs ++ sent) hq' ∙ append_assoc queue (i ∷ []) sent)
          (ho ∙ ap some (omega arith))
          (λ ne d.
            complete-line c rest buffer e l
            ∙ ap (◌∷◌ buffer) (hd ne.1 d)
            ∙ sym (complete-line c (take n rest) buffer e l))

    progress :
        (s buffer : Bytes) (read_size lines o : ℕ) (fd_map : FdMap) (queue : List MessageItem)
        → offset_at origfile fd_map ≡ some o
        → o + (read_size + length s) < 2 ^ 64
        → Progress buffer read_size queue o s
            (read_string_loop b q conf mem info origfile s buffer read_size lines fd_map queue)
    unfolding read_string_loop
    progress [] buffer read_size lines o fd_map queue ho small = stayed refl ho (λ ne d. refl)
    progress (c ∷ rest) buffer read_size lines o fd_map queue ho small =
        elim (Bool-cases (nat_beq c 255)) [
          | inl eof ↦ rw (eof, read_string_loop) (stayed refl ho (λ ne d. cc))
          | inr eof ↦ elim (Bool-cases (nat_beq c b'\n')) [
            | inr letter ↦
                elim (Bool-cases (ltb_ℤ conf.max_line_bytes (to_int (length (buffer ++ c ∷ []))))) [
                  | inl long ↦
                      rw (eof, letter, long, read_string_loop) (stayed refl ho (λ ne d. cc))
                  | inr long ↦
                      rw (eof, letter, long, read_string_loop)
                        (progress_longer c rest buffer read_size o queue _ letter (
                          progress rest (buffer ++ c ∷ []) (suc read_size) lines o fd_map queue ho
                            (omega arith)))
                ]
            | inl newline ↦ elim (Bool-cases (nat_beq (length buffer) 0)) [
              | inl blank ↦
                  rw (eof, newline, blank, read_string_loop)
                    (progress_blank c rest buffer read_size o queue _ newline blank
                      (progress rest buffer (suc read_size) lines o fd_map queue ho (omega arith)))
              | inr line ↦ elim (Option-cases (send_message b q conf mem info queue buffer)) [
                | inl failed ↦
                    rw (eof, newline, line, failed, read_string_loop) (stayed refl ho (λ ne d. cc))
                | inr ((queue', false), refused) ↦
                    rw (eof, newline, line, refused, read_string_loop)
                      (stayed
                        (send_message-false b buffers q fifo conf mem info queue queue' buffer
                          refused)
                        ho (λ ne d. cc))
                | inr ((queue', true), sent) ↦
                    let (i, hi, hq) =
                      send_message-true b buffers q fifo conf mem info queue queue' buffer sent in
                    let ho' =
                      set_file_offset_lem origfile (suc read_size) o fd_map ho (omega arith) in
                    elim (Bool-cases (ltb_ℤ conf.max_lines (pos (suc lines)))) [
                      | inl full ↦
                          rw (eof, newline, line, sent, full, read_string_loop)
                            (progress_line c rest buffer read_size o queue queue' i _ newline line
                              hi hq (stayed refl ho' (λ ne d. cc)))
                      | inr full ↦
                          rw (eof, newline, line, sent, full, read_string_loop)
                            (progress_line c rest buffer read_size o queue queue' i _ newline line
                              hi hq
                              (progress rest [] 0 (suc lines) (o + suc read_size)
                                (set_file_offset origfile (suc read_size) fd_map) queue' ho'
                                (omega arith)))
                    ]
              ]
            ]
          ]
        ]

    sent_of_progress :
        (o : ℕ) (queue : List MessageItem) (s : Bytes) (out : Outcome)
        → Progress [] 0 queue o s out
        → (n : ℕ) × (sent : List MessageItem) × (n ≤ length s)
          × (items mem info (complete [] (take n s)) ≡ some sent)
          × Closed [] (take n s)
          × (out.queue ≡ queue ++ sent)
          × (offset_at origfile out.fd_map ≡ some (o + n))
    sent_of_progress o queue s out (stayed hq ho hd) = (
      0,
      [],
      omega arith,
      refl,
      (λ t. refl),
      hq ∙ sym (append-nil queue),
      ho ∙ ap some (omega arith),
    )
    sent_of_progress o queue s out (moved n sent hn hi hc hq ho hd) =
        (n, sent, hn, hi, hc, hq, ho ∙ ap some (omega arith))

    -- A call of the loop, whose bytes end where a line ends.
    pub read_string_loop-Closed :
        (s : Bytes) (o : ℕ) (fd_map : FdMap) (queue : List MessageItem)
        → offset_at origfile fd_map ≡ some o
        → o + length s < 2 ^ 64
        → let out = read_string_loop b q conf mem info origfile s [] 0 0 fd_map queue in
          (n : ℕ) × (sent : List MessageItem) × (n ≤ length s)
          × (items mem info (complete [] (take n s)) ≡ some sent)
          × Closed [] (take n s)
          × (out.queue ≡ queue ++ sent)
          × (offset_at origfile out.fd_map ≡ some (o + n))
    read_string_loop-Closed s o fd_map queue ho small =
        sent_of_progress o queue s _ (progress s [] 0 0 o fd_map queue ho (omega arith))

    -- For a file whose offset is kept and a buffer and a queue of adbase as documented: a call of the
    -- loop of `readString` advances the offset by some number `n` of bytes, and queues the items of
    -- exactly the complete lines, without the empty ones, that those `n` bytes have, in their order.
    -- So, however the loop ends, no line is queued that the offset does not pass, and the offset
    -- passes no complete line that is not queued.
    pub read_string_loop_sent :
        (s : Bytes) (o : ℕ) (fd_map : FdMap) (queue : List MessageItem)
        → offset_at origfile fd_map ≡ some o
        → o + length s < 2 ^ 64
        → let out = read_string_loop b q conf mem info origfile s [] 0 0 fd_map queue in
          (n : ℕ) × (sent : List MessageItem) × (n ≤ length s)
          × (items mem info (complete [] (take n s)) ≡ some sent)
          × (out.queue ≡ queue ++ sent)
          × (offset_at origfile out.fd_map ≡ some (o + n))
    read_string_loop_sent s o fd_map queue ho small =
        let (n, sent, hn, hi, _, hq, ho') = read_string_loop-Closed s o fd_map queue ho small in
        (n, sent, hn, hi, hq, ho')

    drained_of_progress :
        (o : ℕ) (queue : List MessageItem) (s : Bytes) (out : Outcome)
        → NoEof s
        → out.end ≡ drained
        → Progress [] 0 queue o s out
        → (sent : List MessageItem) × (items mem info (complete [] s) ≡ some sent)
          × (out.queue ≡ queue ++ sent)
    drained_of_progress o queue s out ne d (stayed hq ho hd) =
        ([], ap (items mem info) (hd ne d), hq ∙ sym (append-nil queue))
    drained_of_progress o queue s out ne d (moved n sent hn hi hc hq ho hd) =
        (sent, ap (items mem info) (hd ne d) ∙ hi, hq)

    -- For a file whose offset is kept and a buffer and a queue of adbase as documented: when the loop of `readString` ends because nothing is left to read, and no
    -- byte is 255: every complete line that is not empty has been queued.
    pub read_string_loop_drained :
        (s : Bytes) (o : ℕ) (fd_map : FdMap) (queue : List MessageItem)
        → offset_at origfile fd_map ≡ some o
        → o + length s < 2 ^ 64
        → NoEof s
        → let out = read_string_loop b q conf mem info origfile s [] 0 0 fd_map queue in
          out.end ≡ drained
          → (sent : List MessageItem) × (items mem info (complete [] s) ≡ some sent)
            × (out.queue ≡ queue ++ sent)
    read_string_loop_drained s o fd_map queue ho small ne d =
        drained_of_progress o queue s _ ne d (progress s [] 0 0 o fd_map queue ho (omega arith))
