-- ===== src/McProcessor.antt =====
-- src/McProcessor.cpp: the `set` command of the memcache protocol, whose key names a topic and,
-- behind a `#`, a partition. `explode` is adbase's splitting of the key. Commands has the others.
pub mod Store
pub mod Commands
use aidt.Prelude.{
  ℕ, ◌%◌, ◌^◌, Bool, true, false, List, [], ◌∷◌, Option, none, some, Bytes, if◌then◌else◌,
}
use aidt.Adbase.{QueueOps}
use aidt.DataStore.{MessageItem}
use aidt.Settings.{AdbaseConfig}
use aidt.Strtoul.{strtoul}
use aidt.Message.{set_message}
use aidt.App.{TopicMap, check_valid, any_part}
use aidt.ProducerIn.{Context}

pub data Status : Type 0 where
  success not_stored auth_error : Status

-- What a receiver changes.
pub record Inbox : Type 0 where
  pub queue : List MessageItem
  pub topics : TopicMap

-- The topic and the partition that the parts of a key name, or `none` where the code answers
-- `AUTH_ERROR`.
pub parse_key : List Bytes → Option (Bytes × ℕ)
unfolding strtoul
parse_key (topic ∷ []) = some (topic, any_part)
parse_key (topic ∷ part ∷ []) =
    let parsed = strtoul part in
    if parsed.range_error then none else some (topic, parsed.value % 2 ^ 32)
parse_key _ = none

module _ (q : QueueOps MessageItem) (conf : AdbaseConfig)
    (explode : Bytes → ℕ → Bool → List Bytes) where
  -- The end of `set`: the check of the topic, and the queue.
  unfoldable pub store : TopicMap → Inbox → Bytes → ℕ → Bytes → Inbox × Status
  store live s topic part_id text =
      let (topics, valid) = check_valid live s.topics topic part_id in
      if valid
      then (let (queue, ret) = set_message q conf s.queue topic part_id text in
          (record { queue = queue; topics = topics }, if ret then success else not_stored))
      else (record s { topics = topics }, auth_error)

  -- `McProcessor::set`
  unfoldable pub set : Context → TopicMap → Inbox → Bytes → Bytes → Inbox × Status
  unfolding store
  set context live s key text =
      if context.has_app
      then (if context.has_message
          then elim (parse_key (explode key b'#' true)) [
            | none ↦ (s, auth_error)
            | some (topic, part_id) ↦ store live s topic part_id text
          ]
          else (s, not_stored))
      else (s, not_stored)
