-- ===== src/Tests/Launched.antt =====
-- The theorem on the check of the settings at a concrete input.
use aidt.Prelude.{ℕ, ◌≡◌, ◌⊎◌, refl, List, [], ◌∷◌, Bytes}
use aidt.Texts.{codes}
use aidt.BootStrap.{parse_option}
use aidt.BootStrap.Launch.{accepts, fails, launch}
use aidt.BootStrap.Launch.Accepted.{Starts, launch_accepts}
use aidt.Tests.Instances.{buffer_ops, list_queue, settings, memory, fd_item, disk}
use aidt.Tests.Life.{yaml}
use aidt.Tests.Boot.{ini_ops}

-- `-c whole` and `-c whole -t`.
abbrev to_run : List (ℕ × Bytes)
to_run = (b'c', codes "whole") ∷ []

abbrev to_check : List (ℕ × Bytes)
to_check = (b'c', codes "whole") ∷ (b't', []) ∷ []

launch_accepts_example :
    let checked =
      launch buffer_ops list_queue memory fd_item ini_ops yaml list_queue settings
        (codes "7")
        to_check
        disk in
    let ran =
      launch buffer_ops list_queue memory fd_item ini_ops yaml list_queue settings
        (codes "7")
        to_run
        disk in
    ((checked ≡ accepts)
      × Starts buffer_ops list_queue memory fd_item ini_ops yaml list_queue settings
          (codes "7")
          disk
          ran)
    ⊎ ((checked ≡ fails) × (ran ≡ fails))
unfolding parse_option
launch_accepts_example =
    launch_accepts buffer_ops list_queue memory fd_item ini_ops yaml list_queue settings (codes "7")
      disk to_check to_run (codes "whole") refl refl (λ path. refl)
