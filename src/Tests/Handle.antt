-- ===== src/Tests/Handle.antt =====
-- The theorems on the handlers of moved and deleted files at concrete inputs.
use aidt.Prelude.{[], bytes_eq}
use aidt.Events.{InotifyEvent, delete, move_to}
use aidt.Tests.Instances.{path_a, path_b}

abbrev moved : InotifyEvent
moved = record { pathfile = path_a; origfile = path_b; aliasfile = path_a; event = move_to }

abbrev deleted : InotifyEvent
deleted = record { pathfile = path_a; origfile = path_a; aliasfile = []; event = delete }
