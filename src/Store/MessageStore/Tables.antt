-- ===== src/Store/MessageStore/Tables.antt =====
-- What the store does to all its queues (stgstorelog/default_message_store.go): cleaning those
-- whose messages are gone, cutting them after the log was cut, and the offsets that are restored at
-- the start. Go visits the tables in any order; here they are visited in their own.
pub mod CleanedQueues
pub mod Cleaned
pub mod Restored
use ttstringgolangiot.Base.{
  ℕ, Bool, true, false, not, ◌&&◌, Option, none, some, List, [], ◌∷◌, ◌++◌, Dict, insert, ◌≟◌,
}
use ttstringgolangiot.Base.Text.{codes}
use ttstringgolangiot.Base.Int.{ℤ, negsuc, ltb_ℤ, same_ℤ}
use ttstringgolangiot.Store.Properties.{bytes_eq}
use ttstringgolangiot.Store.MapedFile.{MapedFile}
use ttstringgolangiot.Store.Address.{GoLibrary}
use ttstringgolangiot.Store.CommitLog.{CommitLog}
use ttstringgolangiot.Store.LogReads.{log_min_offset, remove_queue_from_topic_queue_table}
use ttstringgolangiot.Store.ConsumeQueue.{ConsumeQueue, get_max_offset_in_queue}
use ttstringgolangiot.Store.ConsumeQueue.Recovery.{
  get_last_offset, truncate_dirty_logic_files, correct_min_offset,
}
use ttstringgolangiot.Store.MessageStore.{ConsumeQueueTable, DefaultMessageStore}

abbrev pub schedule_topic : List ℕ
schedule_topic = codes "SCHEDULE_TOPIC_XXX"

-- A queue whose last message went out of the log; -1 is that it has no unit yet.
unfoldable pub is_expired : ℤ → ConsumeQueue → Option Bool
is_expired min_offset q = elim (get_last_offset q) [
  | none ↦ none
  | some last ↦ some (not (same_ℤ last (negsuc 0)) && ltb_ℤ last min_offset)
]

-- A topic without queues goes.
abbrev pub keep_topic :
    List ℕ → ConsumeQueueTable → Dict (List ℕ) ConsumeQueueTable → Dict (List ℕ) ConsumeQueueTable
keep_topic topic [] topics = topics
keep_topic topic (e ∷ queues) topics = (topic, e ∷ queues) ∷ topics

module _ (go : GoLibrary) (min_offset : ℤ) where
  -- The queues of one topic, with the log, which forgets the offset of a queue that goes. The files
  -- of such a queue, which `destroy` shuts down and removes from the disk, are left out.
  unfoldable pub clean_queues :
      ConsumeQueueTable → CommitLog → Option (ConsumeQueueTable × CommitLog)
  clean_queues [] log = some ([], log)
  clean_queues ((queue_id, q) ∷ queues) log = elim (is_expired min_offset q) [
    | none ↦ none
    | some true ↦
        clean_queues queues (remove_queue_from_topic_queue_table go q.topic q.queue_id log)
    | some false ↦ elim (clean_queues queues log) [
      | none ↦ none
      | some (kept, log') ↦ some ((queue_id, q) ∷ kept, log')
    ]
  ]

  unfoldable pub clean_topics :
      Dict (List ℕ) ConsumeQueueTable
      → CommitLog
      → Option (Dict (List ℕ) ConsumeQueueTable × CommitLog)
  clean_topics [] log = some ([], log)
  clean_topics ((topic, queues) ∷ topics) log = elim (topic ≟ schedule_topic) [
    | true ↦ elim (clean_topics topics log) [
      | none ↦ none
      | some (kept, log') ↦ some ((topic, queues) ∷ kept, log')
    ]
    | false ↦ elim (clean_queues queues log) [
      | none ↦ none
      | some (queues', log') ↦ elim (clean_topics topics log') [
        | none ↦ none
        | some (kept, log'') ↦ some (keep_topic topic queues' kept, log'')
      ]
    ]
  ]

unfoldable pub clean_expired_consumer_queue :
    GoLibrary → DefaultMessageStore → Option DefaultMessageStore
clean_expired_consumer_queue go s =
    elim (clean_topics go (log_min_offset s.commit_log) s.consume_topic_table s.commit_log) [
      | none ↦ none
      | some (topics, log) ↦ some (record s { consume_topic_table = topics; commit_log = log })
    ]

-- A change of every queue of a table, of every table.
unfoldable pub change_queues :
    (ConsumeQueue → Option ConsumeQueue) → ConsumeQueueTable → Option ConsumeQueueTable
change_queues f [] = some []
change_queues f ((queue_id, q) ∷ queues) = elim (f q) [
  | none ↦ none
  | some q' ↦ elim (change_queues f queues) [
    | none ↦ none
    | some queues' ↦ some ((queue_id, q') ∷ queues')
  ]
]

unfoldable pub change_topics :
    (ConsumeQueue → Option ConsumeQueue)
    → Dict (List ℕ) ConsumeQueueTable
    → Option (Dict (List ℕ) ConsumeQueueTable)
change_topics f [] = some []
change_topics f ((topic, queues) ∷ topics) = elim (change_queues f queues) [
  | none ↦ none
  | some queues' ↦ elim (change_topics f topics) [
    | none ↦ none
    | some topics' ↦ some ((topic, queues') ∷ topics')
  ]
]

abbrev pub change_store :
    (ConsumeQueue → Option ConsumeQueue) → DefaultMessageStore → Option DefaultMessageStore
change_store f s = elim (change_topics f s.consume_topic_table) [
  | none ↦ none
  | some topics ↦ some (record s { consume_topic_table = topics })
]

pub truncate_store_files :
    (MapedFile → Bool) → ℕ → ℤ → DefaultMessageStore → Option DefaultMessageStore
truncate_store_files removed now phy_offset s =
    change_store (truncate_dirty_logic_files removed now phy_offset) s

-- `recoverTopicQueueTable`: the table of the offsets by the key of the queue, and the least offset
-- of each queue.
abbrev pub logic_key : GoLibrary → ConsumeQueue → List ℕ
logic_key go q = q.topic ++ (b'-' ∷ go.itoa q.queue_id)

unfoldable pub offsets_of_queues : GoLibrary → ConsumeQueueTable → Dict (List ℕ) ℕ → Dict (List ℕ) ℕ
offsets_of_queues go [] table = table
offsets_of_queues go ((queue_id, q) ∷ queues) table =
    offsets_of_queues go queues (insert (logic_key go q) (get_max_offset_in_queue q) table)

unfoldable pub offsets_of_topics :
    GoLibrary → Dict (List ℕ) ConsumeQueueTable → Dict (List ℕ) ℕ → Dict (List ℕ) ℕ
offsets_of_topics go [] table = table
offsets_of_topics go ((topic, queues) ∷ topics) table =
    offsets_of_topics go topics (offsets_of_queues go queues table)

abbrev pub with_offsets : Dict (List ℕ) ℕ → DefaultMessageStore → DefaultMessageStore
with_offsets table s = record s {
  commit_log = record (s.commit_log) {
    append_state = record (s.commit_log.append_state) { topic_queue_table = table };
  };
}

unfoldable pub recover_topic_queue_table :
    GoLibrary → DefaultMessageStore → Option DefaultMessageStore
recover_topic_queue_table go s =
    elim (change_store (correct_min_offset (log_min_offset s.commit_log)) s) [
      | none ↦ none
      | some s' ↦ some (with_offsets (offsets_of_topics go s.consume_topic_table []) s')
    ]
