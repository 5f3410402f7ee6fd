-- ===== src/App.antt =====
-- src/App.cpp: the check of a topic and a partition against what the Kafka producer knows.
pub mod Topics
pub mod Lifecycle
pub mod Options
use aidt.Prelude.{
  ℕ, ◌-◌, ◌^◌, Bool, true, false, List, [], ◌∷◌, Option, none, some, Bytes, nat_beq, is_some,
  if◌then◌else◌, bytes_eq,
}
use aidt.Prelude.Table.{find}

-- `_topics`, and the answer of the producer's `getTopics`: the partitions of each topic.
abbrev pub TopicMap : Type 0
TopicMap = List (Bytes × List ℕ)

-- -1, as an `int` or an `uint32_t`: any partition.
abbrev pub any_part : ℕ
any_part = 2 ^ 32 - 1

has_part : ℕ → List ℕ → Bool
has_part part_id [] = false
has_part part_id (t ∷ parts) = if nat_beq t part_id then true else has_part part_id parts

lookup_part : ℕ → Option (List ℕ) → Bool
unfolding has_part
lookup_part part_id none = false
lookup_part part_id (some parts) = if nat_beq part_id any_part then true else has_part part_id parts

-- `App::checkValidTopicAndPartition`: the cache after the call, and the answer. `live` is what the
-- producer's `getTopics` returns at the time of the call.
pub check_valid : TopicMap → TopicMap → Bytes → ℕ → TopicMap × Bool
unfolding lookup_part
check_valid live topics [] part_id = (topics, false)
check_valid live topics (c ∷ cs) part_id =
    let topics' = if is_some (find (c ∷ cs) topics) then topics else live in
    (topics', lookup_part part_id (find (c ∷ cs) topics'))
