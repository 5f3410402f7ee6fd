-- ===== src/Reader/Loops/Total.antt =====
-- The end of the loop of `readBinary` of src/App/Reader.cpp.
use aidt.Prelude.{
  ℕ, zero, suc, ◌+◌, ◌<◌, ◌≡◌, ◌≢◌, inl, inr, true, false, List, [], pos, ltb_ℤ, Bytes, ltb, length,
  take, drop, length-drop, Option-cases, Bool-cases, arith,
}
use aidt.Adbase.{BufferOps, QueueOps}
use aidt.DataStore.{FdMap, MessageItem}
use aidt.Settings.{AdbaseConfig}
use aidt.Config.{WatcherFileInfo}
use aidt.Reader.{set_file_offset}
use aidt.Reader.Format.{Memory}
use aidt.Reader.Loops.{unfinished, send_message, read_binary_loop}

module _ (b : BufferOps) (q : QueueOps MessageItem) (conf : AdbaseConfig) (mem : Memory)
    (info : WatcherFileInfo) (origfile : Bytes) where
  -- Whatever the file holds, fuel for every byte and one more is enough for the loop of
  -- `readBinary`, since a round goes past four bytes at least.
  pub read_binary_loop_total :
      (fuel : ℕ) (rest : Bytes) (lines : ℕ) (fd_map : FdMap) (queue : List MessageItem)
      → length rest < fuel
      → (read_binary_loop b q conf mem info origfile fuel rest lines fd_map queue).end ≢ unfinished
  unfolding read_binary_loop
  read_binary_loop_total zero rest lines fd_map queue enough = absurd (omega (arith, enough))
  read_binary_loop_total (suc fuel) rest lines fd_map queue enough =
      let len = b.network_to_host32 (b.memcpy32 (take 4 rest)) in
      elim (Bool-cases (ltb (length rest) 4)) [
        | inl cut ↦ rw (cut, read_binary_loop) (λ h. cc)
        | inr cut ↦ elim (Bool-cases (ltb (length (drop 4 rest)) len)) [
          | inl torn ↦ rw (cut, torn, read_binary_loop) (λ h. cc)
          | inr torn ↦
              elim (Option-cases
                (send_message b q conf mem info queue (b.append [] (take len (drop 4 rest))))) [
                  | inl sent ↦ rw (cut, torn, sent, read_binary_loop) (λ h. cc)
                  | inr ((queue', false), sent) ↦ rw (cut, torn, sent, read_binary_loop) (λ h. cc)
                  | inr ((queue', true), sent) ↦
                      elim (Bool-cases (ltb_ℤ conf.max_lines (pos (suc lines)))) [
                        | inl full ↦ rw (cut, torn, sent, full, read_binary_loop) (λ h. cc)
                        | inr full ↦
                            rw (cut, torn, sent, full, read_binary_loop)
                              (read_binary_loop_total fuel (drop len (drop 4 rest)) (suc lines)
                                (set_file_offset origfile (len + 4) fd_map) queue'
                                (shorter len cut))
                      ]
                ]
        ]
      ]
    where
      shorter : (len : ℕ) → ltb (length rest) 4 ≡ false → length (drop len (drop 4 rest)) < fuel
      shorter len cut = ground (arith, length-drop len (drop 4 rest), length-drop 4 rest)
