-- ===== src/Tests/Settings.antt =====
-- The theorems on the table of settings at concrete inputs.
use aidt.Prelude.{◌≡◌, refl, true, [], ◌∷◌, ◌++◌, some, inl, inr, Bytes, is_some, bytes_eq, All}
use aidt.Prelude.Table.{find}
use aidt.Texts.{contains, is_prefix}
use aidt.Config.{WatcherFileInfo, WatcherFileMap, update_file_info, round, pattern_path}
use aidt.Config.Update.{keys, update_file_info_lem}
use aidt.Config.Pattern.{Matches, pattern_path_sound, pattern_path_complete, pattern_path_substring}
use aidt.Tests.Instances.{text_ops, list_queue, list_fifo, path_b, file_info, dir_info, config}

-- The new settings have `/b` in place of `/a`.
abbrev infos : WatcherFileMap
infos = (path_b, file_info) ∷ []

update_file_info_lem_example :
    ((j : Bytes) → find j (update_file_info list_queue config infos).file_map ≡ find j infos)
    × ((update_file_info list_queue config infos).queue ≡ [] ++ keys infos)
update_file_info_lem_example = update_file_info_lem list_queue list_fifo config infos (refl, tt)

abbrev directory : Bytes
directory = b'/' ∷ b'd' ∷ []

-- The file `/d/x`.
abbrev file_x : Bytes
file_x = b'/' ∷ b'd' ∷ b'/' ∷ b'x' ∷ []

pattern_path_sound_example :
    (before after : WatcherFileMap) × (info : WatcherFileInfo) × (config.file_map
      ≡ before ++ (directory, info) ∷ after)
    × Matches text_ops file_x directory info
    × All (λ entry. ¬ Matches text_ops file_x entry.0 entry.1) before
unfolding pattern_path round contains is_prefix
pattern_path_sound_example =
    pattern_path_sound text_ops file_x (b'd' ∷ []) ((b'x' ∷ []) ∷ []) refl config.file_map directory
      refl

pattern_path_complete_example : is_some (pattern_path text_ops config.file_map file_x) ≡ true
pattern_path_complete_example =
    pattern_path_complete text_ops file_x (b'd' ∷ []) ((b'x' ∷ []) ∷ []) refl config.file_map
      directory dir_info refl (refl, inr (inl (refl, refl, ([], b'/' ∷ b'x' ∷ [], refl))))

-- The file `/z/d/x` is not below `/d`.
pattern_path_substring_example :
    pattern_path text_ops
      ((directory, dir_info) ∷ [])
      ((b'/' ∷ b'z' ∷ []) ++ (directory ++ (b'/' ∷ b'x' ∷ [])))
    ≡ some directory
pattern_path_substring_example =
    pattern_path_substring text_ops directory (b'/' ∷ b'z' ∷ []) (b'/' ∷ b'x' ∷ []) dir_info [] refl
      refl refl
