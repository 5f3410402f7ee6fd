-- ===== src/Http.antt =====
-- src/Http/Message.cpp and src/Http/HttpInterface.cpp: messages over HTTP. The parts of a request are
-- what `getQuery` and `getPost` return.
pub mod Store
pub mod Server
use Prim.Native.String.{String}
use aidt.Prelude.{
  ℕ, ◌%◌, ◌^◌, Bool, true, false, ◌||◌, not, List, [], ◌∷◌, ◌++◌, Option, none, some, ◌>>=◌, Bytes,
  nat_beq, if◌then◌else◌,
}
use aidt.Texts.{codes}
use aidt.Adbase.{QueueOps}
use aidt.Settings.{AdbaseConfig}
use aidt.DataStore.{MessageItem}
use aidt.Decimal.{to_string}
use aidt.Strtoul.{strtoul}
use aidt.Message.{set_message, is_empty}
use aidt.App.{TopicMap, check_valid, any_part}
use aidt.ProducerIn.{Context}
use aidt.McProcessor.{Inbox}

pub record Request : Type 0 where
  pub topic_name : Bytes
  pub part_id : Bytes
  pub text : Bytes

-- The arguments of `responseJson` that differ between the replies.
pub record Reply : Type 0 where
  pub ret : ℕ
  pub msg : Bytes

abbrev pub quoted : Bytes → Bytes
quoted s = b'"' ∷ s ++ (b'"' ∷ [])

-- `HttpInterface::responseJson`: the content of the reply. `base_id` is the number that the
-- application's `getSeqId` returns; `none` is the use of a null pointer where there is no application.
pub response_json : Option ℕ → Bytes → Reply → Bool → Option Bytes
unfolding to_string
response_json base_id text reply is_raw_string = base_id >>= λ id.
    let raw_data = if is_raw_string then quoted text else text in
    some (
      codes "{\"code\":"
      ++ (to_string reply.ret
          ++ (codes ","
              ++ (codes "\"baseid\":"
                  ++ (to_string id
                      ++ (codes ","
                          ++ (codes "\"data\":"
                              ++ (raw_data
                                  ++ (codes ","
                                      ++ (codes "\"msg\":"
                                          ++ (quoted reply.msg ++ codes "}")))))))))))

-- The partition that the parameter `part_id` names.
pub query_part : Bytes → ℕ
unfolding strtoul
query_part s =
    let parsed = strtoul s in
    let part_id = parsed.value % 2 ^ 32 in
    if parsed.range_error || nat_beq part_id 0 then any_part else part_id

abbrev fail : String → Reply
fail msg = record { ret = 1000; msg = codes msg }

module _ (q : QueueOps MessageItem) (conf : AdbaseConfig) where
  -- `Message::index`: the inbox and the arguments of `responseJson`.
  unfoldable pub index : Context → TopicMap → Inbox → Request → Inbox × Reply
  index context live s request =
      if not context.has_app || not context.has_message
      then (s, fail "System is starting.")
      else if is_empty request.topic_name
      then (s, fail "Must defined `topic_name`.")
      else if is_empty request.text
      then (s, fail "Must defined `data`.")
      else (let part_id = query_part request.part_id in
          let (topics, valid) = check_valid live s.topics request.topic_name part_id in
          if valid
          then (let (queue, ret) =
                set_message q conf s.queue request.topic_name part_id request.text in
              (
                record { queue = queue; topics = topics },
                if ret
                    then record { ret = 0; msg = codes "Message send success" }
                    else fail "Message queue fully.",
              ))
          else (record s { topics = topics }, fail "Topic or partId is invalid."))

  -- `Message::index` with the content of its reply, where the application's next number is `id`.
  pub index_content : Context → ℕ → TopicMap → Inbox → Request → Inbox × Option Bytes
  unfolding response_json
  index_content context id live s request =
      let (after, reply) = index context live s request in
      (after, response_json (if context.has_app then some id else none) [] reply true)
