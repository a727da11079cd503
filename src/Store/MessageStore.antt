-- ===== src/Store/MessageStore.antt =====
-- DefaultMessageStore (stgstorelog/default_message_store.go) with DispatchMessageService
-- (stgstorelog/dispatch_message_service.go): the tables of the consume queues, putting a message
-- and handing it to its queue. Each call is one step. Not in the state: the services that only run
-- threads, and the times that calls take. `none` is a panic.
pub mod Batch
pub mod Pull
pub mod Queues
pub mod Tables
pub mod Ids
pub mod Dispatch
pub mod Guards
pub mod Recover
use ttstringgolangiot.Base.{
  ℕ, suc, ◌+◌, Bool, true, false, not, Option, none, some, List, [], ◌∷◌, ◌++◌, ltb, ◌==◌,
  if◌then◌else◌, length, Dict, lookup, insert,
}
use ttstringgolangiot.Base.Int.{ℤ, pos, ◌-ℤ◌, int_eq}
use ttstringgolangiot.Store.Properties.{bytes_eq}
use ttstringgolangiot.Base.Bytes.{to_word}
use ttstringgolangiot.Common.Flags.{get_transaction_value, is_writeable, make_logics_queue_error}
use ttstringgolangiot.Store.MapedFile.{MapedFile}
use ttstringgolangiot.Store.Append.{
  MessageExtBrokerInner, AppendMessageStatus, append_put_ok, or_zero,
}
use ttstringgolangiot.Store.Check.{DispatchRequest}
use ttstringgolangiot.Store.CommitLog.{
  CommitLog, Put, returned, blocked, panicked, PutContext, PutMessageResult, PutMessageStatus,
  service_not_available, message_illegal, put_message as log_put_message,
}
use ttstringgolangiot.Store.ConsumeQueue.Recovery.{as_length}
use ttstringgolangiot.Store.ConsumeQueue.{
  ConsumeQueue, new_consume_queue, put_message_postion_info_wrapper,
}

-- What the store reads of MessageStoreConfig. `disk_memory` is what `checkInDiskByCommitOffset`
-- computes with floating point numbers from the ratio, a parameter.
pub record MessageStoreConfig : Type 0 where
  pub is_slave : Bool
  pub maped_file_size_consume_queue : ℕ
  pub max_transfer_bytes_on_message_in_memory : ℤ
  pub max_transfer_count_on_message_in_memory : ℤ
  pub max_transfer_bytes_on_message_in_disk : ℤ
  pub max_transfer_count_on_message_in_disk : ℤ
  pub access_message_in_memory_max_ratio : ℕ
  pub disk_memory : ℤ
  pub message_index_enable : Bool

abbrev pub ConsumeQueueTable : Type 0
ConsumeQueueTable = Dict ℤ ConsumeQueue

-- `index_requests` is what the index service was given, in order; the counters are those of
-- StoreStatsService, `topic_times` its table of the calls for each topic.
pub record DefaultMessageStore : Type 0 where
  pub shutdown_flag : Bool
  pub running_flags : ℕ
  pub print_times : ℕ
  pub commit_log : CommitLog
  pub consume_topic_table : Dict (List ℕ) ConsumeQueueTable
  pub logics_msg_timestamp : ℤ
  pub request_size : ℤ
  pub index_requests : List DispatchRequest
  pub topic_times : Dict (List ℕ) ℕ
  pub put_message_failed_times : ℕ
  pub get_message_transfered_msg_count : ℕ
  pub get_message_times_total_found : ℕ
  pub get_message_times_total_miss : ℕ

-- `waits`: the call waits for the mutex of the commit log.
pub data StorePut : Type 0 where
  answered : PutMessageResult → DefaultMessageStore → StorePut
  waits : StorePut
  crashed : StorePut

abbrev pub refused : PutMessageStatus → DefaultMessageStore → StorePut
refused status s = answered (record { status = status; append_result = none }) s

abbrev pub is_put_ok : AppendMessageStatus → Bool
is_put_ok append_put_ok = true
is_put_ok _ = false

-- `isOk`.
abbrev pub is_ok : PutMessageResult → Bool
is_ok r = elim (r.append_result) [ none ↦ false | some a ↦ is_put_ok a.status ]

-- The end of `PutMessage`: the calls for the topic and the failed ones are counted.
unfoldable pub after_put : List ℕ → Put → DefaultMessageStore → StorePut
after_put topic (returned r log) s = answered r (record s {
  commit_log = log;
  topic_times = insert topic (or_zero (lookup topic s.topic_times) + 1) s.topic_times;
  put_message_failed_times =
      if is_ok r then s.put_message_failed_times else suc s.put_message_failed_times;
})
after_put topic blocked s = waits
after_put topic panicked s = crashed

unfoldable pub put_message :
    PutContext → MessageStoreConfig → ℕ → ℕ → MessageExtBrokerInner → DefaultMessageStore → StorePut
put_message ctx config now locked_at msg s =
    let counted : DefaultMessageStore = record s { print_times = suc s.print_times } in
    let writeable : DefaultMessageStore = record s { print_times = 0 } in
    if s.shutdown_flag
    then refused service_not_available s
    else if config.is_slave
    then refused service_not_available counted
    else if not (is_writeable s.running_flags)
    then refused service_not_available counted
    else if ltb 127 (length msg.topic)
    then refused message_illegal writeable
    else if ltb 32767 (length msg.properties_string)
    then refused message_illegal writeable
    else after_put msg.topic (log_put_message ctx now locked_at msg s.commit_log) writeable

-- The queues of a topic, none when it has no table.
unfoldable pub queues_of : List ℕ → Dict (List ℕ) ConsumeQueueTable → ConsumeQueueTable
queues_of topic topics = elim (lookup topic topics) [ none ↦ [] | some queues ↦ queues ]

unfoldable pub set_queue : List ℕ → ℤ → ConsumeQueue → DefaultMessageStore → DefaultMessageStore
set_queue topic queue_id q s = record s {
  consume_topic_table =
      insert topic (insert queue_id q (queues_of topic s.consume_topic_table))
        s.consume_topic_table;
}

-- `findConsumeQueue`: a queue that is not there is made, with the table of its topic.
unfoldable pub find_consume_queue :
    MessageStoreConfig → List ℕ → ℤ → DefaultMessageStore → ConsumeQueue × DefaultMessageStore
find_consume_queue config topic queue_id s =
    let new = new_consume_queue topic queue_id config.maped_file_size_consume_queue in
    elim (lookup queue_id (queues_of topic s.consume_topic_table)) [
      | none ↦ (new, set_queue topic queue_id new s)
      | some q ↦ (q, s)
    ]

-- The end of `putMessagePostionInfoWrapper`, in the store.
abbrev pub position_put :
    List ℕ → ℤ → ℤ → Option (Bool × ConsumeQueue) → DefaultMessageStore → Option DefaultMessageStore
position_put topic queue_id store_timestamp none s = none
position_put topic queue_id store_timestamp (some (true, q)) s =
    some (set_queue topic queue_id q (record s { logics_msg_timestamp = store_timestamp }))
position_put topic queue_id store_timestamp (some (false, q)) s = some (
    set_queue topic queue_id q
      (record s { running_flags = make_logics_queue_error s.running_flags }))

-- Messages of no transaction and committed ones.
unfoldable pub goes_to_queue : ℤ → Bool
goes_to_queue sys_flag =
    let type = get_transaction_value (to_word 32 sys_flag) in if type == 0 then true else type == 8

-- The index service gets its request whatever the type of the transaction.
abbrev pub put_index_request :
    MessageStoreConfig → DispatchRequest → DefaultMessageStore → DefaultMessageStore
put_index_request config r s =
    if config.message_index_enable
    then record s { index_requests = s.index_requests ++ (r ∷ []) }
    else s

-- Offsets of the log and of queues are not negative in a request.
module _ (create : ℕ → ℕ → Option MapedFile) (config : MessageStoreConfig) where
  unfoldable pub put_message_postion_info :
      DispatchRequest → DefaultMessageStore → Option DefaultMessageStore
  put_message_postion_info r s =
      let found = find_consume_queue config r.topic r.queue_id s in
      position_put r.topic r.queue_id r.store_timestamp
        (put_message_postion_info_wrapper create (as_length r.commit_log_offset) r.msg_size
          r.tags_code (as_length r.consume_queue_offset) found.0)
        found.1

  unfoldable pub do_dispatch : DispatchRequest → DefaultMessageStore → Option DefaultMessageStore
  do_dispatch r s =
      let taken : DefaultMessageStore = record s { request_size = s.request_size -ℤ pos 1 } in
      let put = put_message_postion_info r taken in
      elim (if goes_to_queue r.sys_flag then put else some taken) [
        | none ↦ none
        | some s' ↦ some (put_index_request config r s')
      ]
