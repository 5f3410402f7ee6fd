-- ===== src/Reader/Loops/Binary.antt =====
-- What one call of `readBinary` of src/App/Reader.cpp sends from a file of frames.
use aidt.Prelude.{
  ℕ, zero, suc, ◌+◌, ◌^◌, ◌≤◌, ◌<◌, ◌≡◌, ◌≢◌, refl, sym, ap, ◌∙◌, true, false, map, List, [], ◌∷◌,
  ◌++◌, append-nil, append_assoc, some, pos, ltb_ℤ, Bytes, length, take, if◌then◌else◌, All,
  Bool-cases, inl, inr, ◌⊎◌, bytes_eq, arith, take-append, drop-append,
}
use aidt.Adbase.{BufferOps, IsBuffer, QueueOps, IsFifo}
use aidt.DataStore.{FdMap, MessageItem}
use aidt.Settings.{AdbaseConfig}
use aidt.Message.{set_message}
use aidt.Message.Bounds.{queued, set_message_accepted, set_message_refused}
use aidt.App.{any_part}
use aidt.Config.{WatcherFileInfo}
use aidt.Reader.{set_file_offset}
use aidt.Reader.Format.{Memory}
use aidt.Reader.Loops.{
  End, drained, undefined, short, unfinished, continues, Outcome, outcome, send_message,
  read_binary_loop,
}
use aidt.Reader.Loops.Frames.{frames, length-frame, take-frame, drop-frame, long_frame, long_behind}
use aidt.Reader.Loops.Lines.{offset_at, set_file_offset_lem, send_message_lem}

End-cases : (e : End) → (e ≡ short) ⊎ (e ≢ short)
End-cases drained = inr (λ h. cc)
End-cases short = inl refl
End-cases continues = inr (λ h. cc)
End-cases undefined = inr (λ h. cc)
End-cases unfinished = inr (λ h. cc)

module _ (b : BufferOps) (buffers : IsBuffer b) (q : QueueOps MessageItem) (fifo : IsFifo q)
    (conf : AdbaseConfig) (mem : Memory) (info : WatcherFileInfo) (binary : info.is_binary ≡ true)
    (origfile : Bytes) where
  abbrev pub item_of : Bytes → MessageItem
  item_of m = queued info.topic_name any_part m

  -- Some first messages are queued, and the offset stands behind their frames.
  record Progress (o : ℕ) (queue : List MessageItem) (ms : List Bytes) (out : Outcome)
      : Type 0 where
    count : ℕ
    count_le : count ≤ length ms
    queue_lem : out.queue ≡ queue ++ map item_of (take count ms)
    offset_lem :
        offset_at origfile out.fd_map ≡ some (o + length (frames b buffers (take count ms)))
    short_lem : out.end ≡ short → count ≡ length ms
    fuel_lem : out.end ≢ unfinished

  send_message-binary :
      (queue : List MessageItem) (m : Bytes)
      → send_message b q conf mem info queue (b.append [] m)
        ≡ some (set_message q conf queue info.topic_name any_part m)
  send_message-binary queue m =
      send_message_lem b buffers q fifo conf mem info queue (b.append [] m)
      ∙ rw (binary, buffers.append_lem [] m) refl

  -- One round over a frame.
  round_lem :
      (fuel : ℕ) (m s : Bytes) (lines : ℕ) (fd_map : FdMap) (queue : List MessageItem)
      → length m < 2 ^ 32
      → read_binary_loop b q conf mem info origfile
          (suc fuel)
          (buffers.int32 (length m) ++ (m ++ s))
          lines
          fd_map
          queue
        ≡ (let sent = set_message q conf queue info.topic_name any_part m in
            if sent.1
            then (let fd_map' = set_file_offset origfile (length m + 4) fd_map in
                if ltb_ℤ conf.max_lines (pos (suc lines))
                then outcome fd_map' sent.0 continues
                else read_binary_loop b q conf mem info origfile fuel s (suc lines) fd_map' sent.0)
            else outcome fd_map sent.0 continues)
  unfolding read_binary_loop
  round_lem fuel m s lines fd_map queue small =
      rw
        (
          long_frame b buffers m s,
          take-frame b buffers (length m) (m ++ s),
          buffers.network_lem (length m) small,
          drop-frame b buffers (length m) (m ++ s),
          long_behind b buffers m s,
          take-append m s,
          send_message-binary queue m,
        )
        (elim (Bool-cases (set_message q conf queue info.topic_name any_part m).1) [
          | inl e ↦
              rw
                (
                  e,
                  take-frame b buffers (length m) (m ++ s),
                  buffers.network_lem (length m) small,
                  drop-frame b buffers (length m) (m ++ s),
                  drop-append m s,
                )
                refl
          | inr e ↦ rw e refl
        ])

  at_end :
      (fuel lines : ℕ) (fd_map : FdMap) (queue : List MessageItem)
      → read_binary_loop b q conf mem info origfile (suc fuel) [] lines fd_map queue
        ≡ outcome fd_map queue short
  unfolding read_binary_loop
  at_end fuel lines fd_map queue = refl

  -- The queue after a message that is accepted, and after one that is refused.
  accepted :
      (queue : List MessageItem) (m : Bytes)
      → (set_message q conf queue info.topic_name any_part m).1 ≡ true
      → (set_message q conf queue info.topic_name any_part m).0 ≡ queue ++ item_of m ∷ []
  accepted queue m e =
      let after = set_message q conf queue info.topic_name any_part m in
      set_message_accepted q fifo conf queue after.0 info.topic_name any_part m
        (ap (λ ok. (after.0, ok)) e)

  refused :
      (queue : List MessageItem) (m : Bytes)
      → (set_message q conf queue info.topic_name any_part m).1 ≡ false
      → (set_message q conf queue info.topic_name any_part m).0 ≡ queue
  refused queue m e =
      let after = set_message q conf queue info.topic_name any_part m in
      set_message_refused q conf queue after.0 info.topic_name any_part m
        (ap (λ ok. (after.0, ok)) e)

  -- Nothing more is read.
  stopped :
      (ms : List Bytes) (o : ℕ) (fd_map : FdMap) (queue queue' : List MessageItem) (end : End)
      → queue' ≡ queue
      → offset_at origfile fd_map ≡ some o
      → end ≢ unfinished
      → (end ≡ short → 0 ≡ length ms)
      → Progress o queue ms (outcome fd_map queue' end)
  stopped ms o fd_map queue queue' end hq ho he hs = record {
    count = 0;
    count_le = omega arith;
    queue_lem = hq ∙ sym (append-nil queue);
    offset_lem = ho ∙ ap some (omega arith);
    short_lem = hs;
    fuel_lem = he;
  }

  -- One more frame in front.
  next_frame :
      (m : Bytes) (ms : List Bytes) (o : ℕ) (queue queue' : List MessageItem) (out : Outcome)
      → queue' ≡ queue ++ item_of m ∷ []
      → Progress (o + (length m + 4)) queue' ms out
      → Progress o queue (m ∷ ms) out
  next_frame m ms o queue queue' out hq p = record {
    count = suc p.count;
    count_le = omega (arith, p.count_le);
    queue_lem =
        p.queue_lem
        ∙ ap (λ qs. qs ++ map item_of (take p.count ms)) hq
        ∙ append_assoc queue (item_of m ∷ []) (map item_of (take p.count ms));
    offset_lem =
        p.offset_lem
        ∙ ap some (omega (arith, length-frame b buffers m (frames b buffers (take p.count ms))));
    short_lem = λ e. ap suc (p.short_lem e);
    fuel_lem = p.fuel_lem;
  }

  set_offset :
      (m : Bytes) (ms : List Bytes) (o : ℕ) (fd_map : FdMap)
      → offset_at origfile fd_map ≡ some o
      → o + length (frames b buffers (m ∷ ms)) < 2 ^ 64
      → offset_at origfile (set_file_offset origfile (length m + 4) fd_map)
        ≡ some (o + (length m + 4))
  set_offset m ms o fd_map ho small =
      set_file_offset_lem origfile (length m + 4) o fd_map ho
        (omega (arith, length-frame b buffers m (frames b buffers ms)))

  progress :
      (ms : List Bytes) (fuel lines o : ℕ) (fd_map : FdMap) (queue : List MessageItem)
      → All (λ m. length m < 2 ^ 32) ms
      → length (frames b buffers ms) < fuel
      → offset_at origfile fd_map ≡ some o
      → o + length (frames b buffers ms) < 2 ^ 64
      → Progress o queue ms (
          read_binary_loop b q conf mem info origfile fuel (frames b buffers ms) lines fd_map queue)
  progress ms zero lines o fd_map queue hs hf ho small = absurd (omega (arith, hf))
  progress [] (suc fuel) lines o fd_map queue hs hf ho small =
      rw (at_end fuel lines fd_map queue)
        (stopped [] o fd_map queue queue short refl ho (λ e. cc) (λ e. refl))
  progress (m ∷ ms) (suc fuel) lines o fd_map queue hs hf ho small =
      rw (round_lem fuel m (frames b buffers ms) lines fd_map queue hs.0)
        (elim (Bool-cases (set_message q conf queue info.topic_name any_part m).1) [
          | inl e ↦ elim (Bool-cases (ltb_ℤ conf.max_lines (pos (suc lines)))) [
            | inl full ↦
                rw (e, full)
                  (next_frame m ms o queue _ _ (accepted queue m e) (
                    stopped ms _ _ _ _ continues refl (set_offset m ms o fd_map ho small) (λ d. cc)
                      (λ d. cc)))
            | inr full ↦
                rw (e, full)
                  (next_frame m ms o queue _ _ (accepted queue m e) (
                    progress ms fuel (suc lines) _ _ _ hs.1
                      (omega (arith, length-frame b buffers m (frames b buffers ms)))
                      (set_offset m ms o fd_map ho small)
                      (omega (arith, length-frame b buffers m (frames b buffers ms)))))
          ]
          | inr e ↦ rw e (
              stopped (m ∷ ms) o fd_map queue _ continues (refused queue m e) ho (λ d. cc)
                (λ d. cc))
        ])

  -- For a binary setting, messages of less than 2 ^ 32 bytes each, the file that holds their frames,
  -- whose offset is kept, and fuel for every byte: a call of the loop of `readBinary` ends before the
  -- fuel does, queues some first messages in their order, and advances the offset by exactly their
  -- frames; when it ends because a read came short, it has queued all of them.
  pub read_binary_loop-frames :
      (ms : List Bytes) (fuel o : ℕ) (fd_map : FdMap) (queue : List MessageItem)
      → All (λ m. length m < 2 ^ 32) ms
      → length (frames b buffers ms) < fuel
      → offset_at origfile fd_map ≡ some o
      → o + length (frames b buffers ms) < 2 ^ 64
      → let out =
          read_binary_loop b q conf mem info origfile fuel (frames b buffers ms) 0 fd_map queue in
        (count : ℕ) × (count ≤ length ms)
        × (out.queue ≡ queue ++ map item_of (take count ms))
        × (offset_at origfile out.fd_map ≡ some (o + length (frames b buffers (take count ms))))
        × ((out.end ≢ short) ⊎ (count ≡ length ms))
        × (out.end ≢ unfinished)
  read_binary_loop-frames ms fuel o fd_map queue hs hf ho small =
      let p = progress ms fuel 0 o fd_map queue hs hf ho small in
      (
        p.count,
        p.count_le,
        p.queue_lem,
        p.offset_lem,
        elim (End-cases _) [ inl e ↦ inr (p.short_lem e) | inr e ↦ inl e ],
        p.fuel_lem,
      )
