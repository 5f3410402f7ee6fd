-- ===== src/Tests/Follow.antt =====
-- The theorem on one followed file at a concrete input.
use aidt.Prelude.{
  ℕ, ◌+◌, ◌≡◌, refl, sym, true, false, List, [], ◌∷◌, ◌++◌, some, pos, Bytes, length, bytes_eq,
  arith,
}
use aidt.DataStore.{MessageItem}
use aidt.Message.{set_message}
use aidt.Message.Bounds.{queued}
use aidt.App.{any_part}
use aidt.Events.{InotifyEvent, modify, move_to}
use aidt.Reader.{World, init_stream, init_opened, init_item, open_stream, reopen, set_file_offset}
use aidt.Reader.Format.{payload, expand, c_string, fresh_bytes}
use aidt.Reader.Handlers.{moveto}
use aidt.Reader.Loops.{Reading, read, read_string, finish, rest_of, read_string_loop, send_message}
use aidt.Reader.Loops.Lines.{complete, items, some_injective}
use aidt.Reader.Followed.{position}
use aidt.Reader.Followed.Scene.{Scene, Reach, start, later, grows, shares, follows, moves_to}
use aidt.Reader.Followed.Once.{once_lem}
use aidt.Tests.Instances.{
  buffer_ops, buffer_laws, list_queue, list_fifo, settings, memory, path_a, path_b, fd_item,
  file_info, config, reader,
}

-- The file `/a` has "a\n\nbc\nd", and nothing of it was read.
abbrev pub written : Bytes
written = b'a' ∷ b'\n' ∷ b'\n' ∷ b'b' ∷ b'c' ∷ b'\n' ∷ b'd' ∷ []

abbrev pub fresh_scene : Scene
fresh_scene = record { reader = reader; queue = []; text = written; sent = [] }

abbrev pub world : World
world = record { now = 5; can_open = λ path. true }

abbrev pub modified : InotifyEvent
modified = record { pathfile = path_a; origfile = path_a; aliasfile = []; event = modify }

-- The lines "a" and "bc" as messages.
abbrev pub lines_of_a : List MessageItem
lines_of_a =
    queued (b't' ∷ []) any_part (b'a' ∷ []) ∷ queued (b't' ∷ []) any_part (b'b' ∷ b'c' ∷ []) ∷ []

-- What the first reading leaves.
abbrev pub first_reading : Reading
first_reading = record {
  reader = record reader {
    fd_map = (path_a, record fd_item { offset = 6; fs = some 0; last_time = pos 5 }) ∷ [];
    current_fd_num = 1;
    streams = (0, record { is_open = true; good = true }) ∷ [];
    next_stream = 1;
  };
  config = config;
  queue = lines_of_a;
  is_continue = some false;
}

pub first_reading_lem :
    read buffer_ops list_queue settings memory world fd_item
      (λ h. written)
      modified
      reader
      config
      []
    ≡ some first_reading
unfolding read read_string finish rest_of init_stream init_opened init_item open_stream reopen
    read_string_loop send_message set_message payload expand c_string fresh_bytes set_file_offset
first_reading_lem = refl

-- Another file is moved from `/b` to `/c`.
abbrev moved_b : InotifyEvent
moved_b = record {
  pathfile = b'/' ∷ b'c' ∷ [];
  origfile = b'/' ∷ b'c' ∷ [];
  aliasfile = path_b;
  event = move_to;
}

-- The file was read, has an "e" and an end of a line more, `/b` was moved, and the producer took the
-- messages.
abbrev last_scene : Scene
last_scene = record {
  reader = moveto moved_b first_reading.reader;
  queue = [];
  text = written ++ b'e' ∷ b'\n' ∷ [];
  sent = lines_of_a;
}

Reach-last_scene :
    Reach buffer_ops list_queue settings memory fd_item path_a file_info fresh_scene last_scene
Reach-last_scene =
    later
      (later
        (later
          (later start (
            follows world (λ h. written) modified config first_reading refl
              (λ found h. sym (some_injective h)) (λ h opened. refl) first_reading_lem))
          (grows (b'e' ∷ b'\n' ∷ []) (omega arith)))
        (moves_to moved_b refl refl))
      (shares [])

once_lem_example :
    (done left : Bytes) × (last_scene.text ≡ [] ++ (done ++ left))
    × (position path_a last_scene.reader.fd_map ≡ length {A = ℕ} [] + length done)
    × (items memory file_info (complete [] done) ≡ some last_scene.sent)
once_lem_example =
    once_lem buffer_ops buffer_laws list_queue list_fifo settings memory fd_item path_a file_info
      refl refl [] fresh_scene last_scene written refl refl tt (omega arith) refl Reach-last_scene
