-- ===== src/Reader/Loops/Keeps.antt =====
-- The loops of `readString` and `readBinary` of src/App/Reader.cpp change the map by `setFileOffset` and
-- the queue by `sendMessage` only: what every such call keeps, the loop keeps.
use aidt.Prelude.{
  ◌≡◌, some, Bool, ℕ, zero, suc, ◌+◌, true, false, inl, inr, List, [], ◌∷◌, ◌++◌, pos, ltb_ℤ,
  to_int, Bytes, length, take, drop, ltb, nat_beq, Option-cases, Bool-cases,
}
use aidt.Adbase.{BufferOps, QueueOps}
use aidt.DataStore.{FdMap, MessageItem}
use aidt.Settings.{AdbaseConfig}
use aidt.Config.{WatcherFileInfo}
use aidt.Reader.{set_file_offset}
use aidt.Reader.Format.{Memory}
use aidt.Reader.Loops.{send_message, read_string_loop, read_binary_loop}

module _ (b : BufferOps) (q : QueueOps MessageItem) (conf : AdbaseConfig) (mem : Memory)
    (info : WatcherFileInfo) (origfile : Bytes) (P : FdMap → List MessageItem → Type 0)
    (advanced : (k : ℕ) (m : FdMap) (queue : List MessageItem)
      → P m queue
      → P (set_file_offset origfile k m) queue)
    (added : (m : FdMap) (queue queue' : List MessageItem) (line : Bytes) (done : Bool)
      → send_message b q conf mem info queue line ≡ some (queue', done)
      → P m queue
      → P m queue') where
  pub read_string_loop-holds :
      (s buffer : Bytes) (read_size lines : ℕ) (m : FdMap) (queue : List MessageItem)
      → P m queue
      → let out = read_string_loop b q conf mem info origfile s buffer read_size lines m queue in
        P out.fd_map out.queue
  unfolding read_string_loop
  read_string_loop-holds [] buffer read_size lines m queue held = held
  read_string_loop-holds (c ∷ rest) buffer read_size lines m queue held =
      elim (Bool-cases (nat_beq c 255)) [
        | inl eof ↦ rw (eof, read_string_loop) held
        | inr eof ↦ elim (Bool-cases (nat_beq c b'\n')) [
          | inr letter ↦
              elim (Bool-cases (ltb_ℤ conf.max_line_bytes (to_int (length (buffer ++ c ∷ []))))) [
                | inl long ↦ rw (eof, letter, long, read_string_loop) held
                | inr long ↦
                    rw (eof, letter, long, read_string_loop)
                      (read_string_loop-holds rest (buffer ++ c ∷ []) (suc read_size) lines m queue
                        held)
              ]
          | inl newline ↦ elim (Bool-cases (nat_beq (length buffer) 0)) [
            | inl blank ↦
                rw (eof, newline, blank, read_string_loop)
                  (read_string_loop-holds rest buffer (suc read_size) lines m queue held)
            | inr line ↦ elim (Option-cases (send_message b q conf mem info queue buffer)) [
              | inl failed ↦ rw (eof, newline, line, failed, read_string_loop) held
              | inr ((queue', false), sent) ↦
                  rw (eof, newline, line, sent, read_string_loop)
                    (added m queue queue' buffer false sent held)
              | inr ((queue', true), sent) ↦
                  let m' = set_file_offset origfile (suc read_size) m in
                  let held' =
                    advanced (suc read_size) m queue'
                      (added m queue queue' buffer true sent held) in
                  elim (Bool-cases (ltb_ℤ conf.max_lines (pos (suc lines)))) [
                    | inl full ↦ rw (eof, newline, line, sent, full, read_string_loop) held'
                    | inr full ↦
                        rw (eof, newline, line, sent, full, read_string_loop)
                          (read_string_loop-holds rest [] 0 (suc lines) m' queue' held')
                  ]
            ]
          ]
        ]
      ]

  pub read_binary_loop-holds :
      (fuel : ℕ) (rest : Bytes) (lines : ℕ) (m : FdMap) (queue : List MessageItem)
      → P m queue
      → let out = read_binary_loop b q conf mem info origfile fuel rest lines m queue in
        P out.fd_map out.queue
  unfolding read_binary_loop
  read_binary_loop-holds zero rest lines m queue held = held
  read_binary_loop-holds (suc fuel) rest lines m queue held =
      let len = b.network_to_host32 (b.memcpy32 (take 4 rest)) in
      let behind = drop 4 rest in
      let msg = b.append [] (take len behind) in
      elim (Bool-cases (ltb (length rest) 4)) [
        | inl head ↦ rw (head, read_binary_loop) held
        | inr head ↦ elim (Bool-cases (ltb (length behind) len)) [
          | inl body ↦ rw (head, body, read_binary_loop) held
          | inr body ↦ elim (Option-cases (send_message b q conf mem info queue msg)) [
            | inl failed ↦ rw (head, body, failed, read_binary_loop) held
            | inr ((queue', false), sent) ↦
                rw (head, body, sent, read_binary_loop) (added m queue queue' msg false sent held)
            | inr ((queue', true), sent) ↦
                let m' = set_file_offset origfile (len + 4) m in
                let held' = advanced (len + 4) m queue' (added m queue queue' msg true sent held) in
                elim (Bool-cases (ltb_ℤ conf.max_lines (pos (suc lines)))) [
                  | inl full ↦ rw (head, body, sent, full, read_binary_loop) held'
                  | inr full ↦
                      rw (head, body, sent, full, read_binary_loop)
                        (read_binary_loop-holds fuel (drop len behind) (suc lines) m' queue' held')
                ]
          ]
        ]
      ]

module _ (b : BufferOps) (q : QueueOps MessageItem) (conf : AdbaseConfig) (mem : Memory)
    (info : WatcherFileInfo) (origfile : Bytes) (P : FdMap → Type 0)
    (advanced : (k : ℕ) (m : FdMap) → P m → P (set_file_offset origfile k m)) where
  pub read_string_loop-keeps :
      (s buffer : Bytes) (read_size lines : ℕ) (m : FdMap) (queue : List MessageItem)
      → P m
      → P (read_string_loop b q conf mem info origfile s buffer read_size lines m queue).fd_map
  read_string_loop-keeps s buffer read_size lines m queue =
      read_string_loop-holds b q conf mem info origfile (λ m queue. P m) (λ k m queue. advanced k m)
        (λ m queue queue' line done sent held. held) s buffer read_size lines m queue

  pub read_binary_loop-keeps :
      (fuel : ℕ) (rest : Bytes) (lines : ℕ) (m : FdMap) (queue : List MessageItem)
      → P m
      → P (read_binary_loop b q conf mem info origfile fuel rest lines m queue).fd_map
  read_binary_loop-keeps fuel rest lines m queue =
      read_binary_loop-holds b q conf mem info origfile (λ m queue. P m) (λ k m queue. advanced k m)
        (λ m queue queue' line done sent held. held) fuel rest lines m queue
