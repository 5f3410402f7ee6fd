-- ===== src/Tests/Deliver.antt =====
-- The theorem on the way from a file to the producer at a concrete input.
use aidt.Prelude.{ℕ, ◌+◌, ◌≡◌, refl, sym, List, [], ◌++◌, some, Bytes, length, arith, map}
use aidt.DataStore.{MessageItem}
use aidt.Texts.{codes}
use aidt.Message.Fifo.{outgoing}
use aidt.ProducerIn.{running, send}
use aidt.Reader.Loops.Lines.{complete, items, some_injective}
use aidt.Reader.Followed.{position}
use aidt.Reader.Followed.Scene.{follows}
use aidt.Pipeline.{Flow, state_of, produced, sends}
use aidt.Pipeline.Conserved.{messages_of}
use aidt.Delivery.{Delivery, is_own, of_file, Reach, turns, passes, start, later}
use aidt.Delivery.Merge.{Merge}
use aidt.Delivery.Complete.{delivery_lem}
use aidt.Tests.Instances.{
  buffer_ops, buffer_laws, list_queue, list_fifo, settings, memory, path_a, fd_item, file_info,
  text_ops, disk,
}
use aidt.Tests.Follow.{written, fresh_scene, world, modified, first_reading, first_reading_lem}
use aidt.Tests.Flow.{live, no_message}

abbrev silent : Flow
silent = record { queue = []; topics = []; disk = disk; accepted = []; taken = [] }

abbrev before_all : Delivery
before_all = record { scene = fresh_scene; flow = silent; others = [] }

-- The file's lines "a" and "bc" were read.
abbrev two_queued : Flow
two_queued = record silent { queue = first_reading.queue; accepted = first_reading.queue }

-- The producer took the first of them.
abbrev one_taken : Flow
one_taken =
    produced two_queued
      (send buffer_ops list_queue settings running live 0 (state_of two_queued) no_message)

abbrev after_all : Delivery
after_all = record {
  scene = record {
    reader = first_reading.reader;
    queue = one_taken.queue;
    text = written;
    sent = first_reading.queue;
  };
  flow = one_taken;
  others = [];
}

Reach-after_all :
    Reach buffer_ops list_queue settings memory fd_item path_a file_info text_ops.explode
      (codes "1")
      before_all
      after_all
unfolding is_own of_file
Reach-after_all =
    later
      (later start (
        turns
          (follows world (λ h. written) modified first_reading.config first_reading refl
            (λ found h. sym (some_injective h)) (λ h opened. refl) first_reading_lem)
          refl))
      (passes (sends live 0 no_message))

delivery_lem_example :
    (done left : Bytes) × (lines : List MessageItem) × (after_all.scene.text ≡ [] ++ (done ++ left))
    × (position path_a after_all.scene.reader.fd_map ≡ length {A = ℕ} [] + length done)
    × (items memory file_info (complete [] done) ≡ some lines)
    × Merge
        (map outgoing lines)
        (map outgoing ([] ++ after_all.others))
        (messages_of one_taken.taken ++ map outgoing one_taken.queue)
delivery_lem_example =
    delivery_lem buffer_ops buffer_laws list_queue list_fifo settings memory fd_item path_a
      file_info text_ops.explode (codes "1") refl refl [] written before_all after_all refl refl tt
      (omega arith) refl refl refl refl refl Reach-after_all
