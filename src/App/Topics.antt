-- ===== src/App/Topics.antt =====
-- What the check of src/App.cpp answers.
use aidt.Prelude.{ℕ, ◌≡◌, ◌⊎◌, false, List, [], ◌∷◌, some, Bytes, bytes_eq}
use aidt.Prelude.Table.{find}
use aidt.App.{TopicMap, any_part, check_valid}

-- `part_id` stands in the list.
abbrev pub Listed : ℕ → List ℕ → Type 0
Listed part_id [] = ⊥
Listed part_id (t ∷ parts) = (t ≡ part_id) ⊎ Listed part_id parts

-- The topic is known to the map, and the partition is one of its own or -1.
abbrev pub Known : TopicMap → Bytes → ℕ → Type 0
Known topics topic_name part_id =
    (parts : List ℕ) × (find topic_name topics ≡ some parts)
    × ((part_id ≡ any_part) ⊎ Listed part_id parts)

pub check_valid-nil :
    (live topics : TopicMap) (topic_name : Bytes) (part_id : ℕ)
    → topic_name ≡ []
    → check_valid live topics topic_name part_id ≡ (topics, false)
unfolding check_valid
check_valid-nil live topics topic_name part_id e = rw (e, check_valid)
