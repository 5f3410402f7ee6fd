-- ===== src/Tests/Read.antt =====
-- The theorems on the loops of the reader at concrete inputs.
use aidt.Prelude.{
  ℕ, ◌+◌, ◌≤◌, ◌≡◌, ◌≢◌, ◌⊎◌, refl, true, List, [], ◌∷◌, ◌++◌, some, Bytes, length, take, map,
  bytes_eq, arith,
}
use aidt.DataStore.{MessageItem}
use aidt.Message.{set_message}
use aidt.Config.{WatcherFileInfo}
use aidt.Events.{InotifyEvent, move_to}
use aidt.Reader.Format.{payload, c_string}
use aidt.Reader.Format.Payload.{directive, payload_lem}
use aidt.Reader.Loops.{short, unfinished, send_message, read_string_loop, read_binary_loop}
use aidt.Reader.Loops.Lines.{complete, items, offset_at}
use aidt.Reader.Loops.Text.{read_string_loop_sent, read_string_loop_drained}
use aidt.Reader.Loops.Frames.{frames}
use aidt.Reader.Loops.Binary.{item_of, read_binary_loop-frames}
use aidt.Reader.Loops.Total.{read_binary_loop_total}
use aidt.Reader.Loops.Alias.{read_string_loop_moved}
use aidt.Reader.Handlers.{moveto}
use aidt.Tests.Instances.{
  buffer_ops, buffer_laws, list_queue, list_fifo, settings, memory, path_a, path_b, fd_item,
  fd_maps, file_info, reader,
}

-- "a\n\nbc\nd": two complete lines, and a part of a third.
abbrev text : Bytes
text = b'a' ∷ b'\n' ∷ b'\n' ∷ b'b' ∷ b'c' ∷ b'\n' ∷ b'd' ∷ []

read_string_loop_sent_example :
    let out =
      read_string_loop buffer_ops list_queue settings memory file_info path_a text [] 0 0 fd_maps
        [] in
    (n : ℕ) × (sent : List MessageItem) × (n ≤ length text)
    × (items memory file_info (complete [] (take n text)) ≡ some sent)
    × (out.queue ≡ [] ++ sent)
    × (offset_at path_a out.fd_map ≡ some (0 + n))
read_string_loop_sent_example =
    read_string_loop_sent buffer_ops buffer_laws list_queue list_fifo settings memory file_info
      path_a text 0 fd_maps [] refl (omega arith)

-- Binary settings send the lines as they are.
abbrev binary_info : WatcherFileInfo
binary_info = record file_info { is_binary = true }

read_string_loop_drained_example :
    let out =
      read_string_loop buffer_ops list_queue settings memory binary_info path_a text [] 0 0 fd_maps
        [] in
    (sent : List MessageItem) × (items memory binary_info (complete [] text) ≡ some sent)
    × (out.queue ≡ [] ++ sent)
unfolding read_string_loop send_message set_message
read_string_loop_drained_example =
    read_string_loop_drained buffer_ops buffer_laws list_queue list_fifo settings memory binary_info
      path_a text 0 fd_maps [] refl (omega arith)
      (refl, (refl, (refl, (refl, (refl, (refl, (refl, tt))))))) refl

abbrev messages : List Bytes
messages = (b'a' ∷ []) ∷ [] ∷ (b'b' ∷ b'c' ∷ []) ∷ []

read_binary_loop-frames_example :
    let out =
      read_binary_loop buffer_ops list_queue settings memory binary_info path_a 20
        (frames buffer_ops buffer_laws messages)
        0
        fd_maps
        [] in
    (count : ℕ) × (count ≤ length messages)
    × (out.queue
        ≡ []
          ++ map
              (item_of buffer_ops buffer_laws list_queue list_fifo settings memory binary_info refl
                path_a)
              (take count messages))
    × (offset_at path_a out.fd_map
        ≡ some (0 + length (frames buffer_ops buffer_laws (take count messages))))
    × ((out.end ≢ short) ⊎ (count ≡ length messages))
    × (out.end ≢ unfinished)
unfolding buffer_laws
read_binary_loop-frames_example =
    read_binary_loop-frames buffer_ops buffer_laws list_queue list_fifo settings memory binary_info
      refl path_a messages 20 0 fd_maps [] (omega arith, (omega arith, (omega arith, tt)))
      (omega arith) refl (omega arith)

-- `/a` was moved to `/b`.
abbrev moved : InotifyEvent
moved = record { pathfile = path_a; origfile = path_b; aliasfile = path_a; event = move_to }

read_string_loop_moved_example :
    (read_string_loop buffer_ops list_queue settings memory file_info path_a text [] 0 0
      (moveto moved reader).fd_map
      []).fd_map
    ≡ (moveto moved reader).fd_map
read_string_loop_moved_example =
    read_string_loop_moved buffer_ops list_queue settings memory file_info moved reader fd_item text
      [] refl

-- The format "<%s>", and a line behind which the memory holds an "x".
payload_lem_example :
    payload memory ((b'<' ∷ []) ++ (directive ++ (b'>' ∷ []))) (b'a' ∷ b'b' ∷ [])
    ≡ some ((b'<' ∷ []) ++ ((b'a' ∷ b'b' ∷ []) ++ take 1 (c_string (b'x' ∷ 0 ∷ []) ++ (b'>' ∷ []))))
payload_lem_example =
    payload_lem memory (b'<' ∷ []) (b'>' ∷ []) (b'a' ∷ b'b' ∷ []) ((refl, refl), tt)
      ((refl, refl), tt) (refl, (refl, tt)) (omega arith)

read_binary_loop_total_example :
    (read_binary_loop buffer_ops list_queue settings memory binary_info path_a 4
      (1 ∷ 2 ∷ 3 ∷ [])
      0
      fd_maps
      []).end
    ≢ unfinished
read_binary_loop_total_example =
    read_binary_loop_total buffer_ops list_queue settings memory binary_info path_a 4
      (1 ∷ 2 ∷ 3 ∷ []) 0 fd_maps [] (omega arith)
