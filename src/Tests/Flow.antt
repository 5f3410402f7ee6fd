-- ===== src/Tests/Flow.antt =====
-- The theorem on the way of the messages at a concrete input.
use aidt.Prelude.{◌≡◌, refl, [], ◌∷◌, ◌++◌, map}
use aidt.Texts.{codes}
use aidt.Message.{Outgoing}
use aidt.Message.Fifo.{outgoing}
use aidt.App.{TopicMap}
use aidt.ProducerIn.{running, send}
use aidt.McProcessor.Commands.{Command, set, command}
use aidt.Pipeline.{Flow, inbox_of, state_of, received, produced, commands, sends, start, later}
use aidt.Pipeline.Conserved.{messages_of, conserved_lem}
use aidt.Tests.Instances.{
  buffer_ops, buffer_laws, list_queue, list_fifo, settings, memory, fd_item, text_ops, both_items,
  disk,
}

-- The producer knows the topic "t", with partition 1; two messages of it are queued.
abbrev pub live : TopicMap
live = (codes "t", 1 ∷ []) ∷ []

abbrev quiet : Flow
quiet = record { queue = both_items; topics = []; disk = disk; accepted = []; taken = [] }

-- A memcache client sets "y" for the topic.
abbrev asked : Command
asked = set (codes "t#1") (codes "y") 0 0 0

abbrev one_more : Flow
one_more =
    received quiet
      (command buffer_ops list_queue settings text_ops.explode (codes "1") running live
        (inbox_of quiet) asked).0

abbrev pub no_message : Outgoing
no_message = record { topic_name = []; part_id = 0; message = [] }

-- The producer takes a message.
abbrev one_less : Flow
one_less =
    produced one_more
      (send buffer_ops list_queue settings running live 0 (state_of one_more) no_message)

conserved_lem_example :
    messages_of one_less.taken ++ map outgoing one_less.queue
    ≡ map outgoing (both_items ++ one_less.accepted)
conserved_lem_example =
    conserved_lem buffer_ops buffer_laws list_queue list_fifo settings memory fd_item
      text_ops.explode (codes "1") both_items quiet one_less refl refl refl
      (later (later start (commands running live asked)) (sends live 0 no_message))
