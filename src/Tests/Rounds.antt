-- ===== src/Tests/Rounds.antt =====
-- The theorem on the calls for an event that is queued again at a concrete input.
use aidt.Prelude.{◌≡◌, refl, true, false, [], ◌∷◌, ◌++◌, some, pos, bytes_eq, arith}
use aidt.Reader.{Reader}
use aidt.Settings.{AdbaseConfig}
use aidt.Reader.Format.{payload}
use aidt.Reader.Loops.{Reading}
use aidt.Reader.Loops.Rounds.{read_rounds}
use aidt.Reader.Loops.Rounds.Follows.{Follows}
use aidt.Reader.Loops.Rounds.Finished.{read_rounds_lem}
use aidt.Tests.Instances.{
  buffer_ops, buffer_laws, list_queue, list_fifo, settings, memory, path_a, fd_item, file_info,
  config, reader,
}
use aidt.Tests.Follow.{written, world, modified, lines_of_a}

-- A call that has sent more than one line sets `isContinue`.
abbrev hasty : AdbaseConfig
hasty = record settings { max_lines = pos 1 }

-- The file `/a` is open, and nothing of it was read.
abbrev opened_a : Reader
opened_a = record reader {
  fd_map = (path_a, record fd_item { offset = 0; fs = some 0 }) ∷ [];
  current_fd_num = 1;
  streams = (0, record { is_open = true; good = true }) ∷ [];
  next_stream = 1;
}

opened_a-Follows : Follows hasty path_a 0 opened_a 0
opened_a-Follows = record {
  running = refl;
  spare = refl;
  unaliased = refl;
  item = record fd_item { offset = 0; fs = some 0 };
  kept = refl;
  stream = refl;
  place = refl;
  ready = refl;
}

read_rounds_lem_example :
    (reading : Reading) × (read_rounds buffer_ops list_queue hasty memory
        (λ n. world)
        fd_item
        (λ h. written)
        modified
        8
        opened_a
        config
        []
      ≡ some reading)
    × (reading.queue ≡ [] ++ lines_of_a)
    × (reading.is_continue ≡ some false)
unfolding payload
read_rounds_lem_example =
    read_rounds_lem buffer_ops buffer_laws list_queue list_fifo hasty memory file_info 2 refl
      (omega arith) (λ n. world) fd_item (λ h. written) modified config 0 refl refl refl 0 opened_a
      [] lines_of_a opened_a-Follows (omega arith) (omega arith)
      (refl, (refl, (refl, (refl, (refl, (refl, (refl, tt))))))) refl refl (omega arith)
