-- ===== src/Store/CommitLog.antt =====
-- CommitLog (stgstorelog/commit_log.go): putting a message, and what the writer tells
-- the dispatch service and the statistics.
-- Parameters: the creation of files, the clock, the checksum and the flush of the group commit.
pub mod Illegal
use ttstringgolangiot.Base.{
  ℕ, ◌+◌, ◌-◌, Bool, true, false, not, ◌&&◌, Option, none, some, List, [], ◌∷◌, ◌++◌, if◌then◌else◌,
  length, set, Dict, lookup, insert,
}
use ttstringgolangiot.Base.Text.{codes}
use ttstringgolangiot.Base.Int.{ℤ, pos}
use ttstringgolangiot.Store.MapedFile.{MapedFile}
use ttstringgolangiot.Store.FileQueue.{MapedFileQueue, get_last_maped_file}
use ttstringgolangiot.Store.Properties.{bytes_eq}
use ttstringgolangiot.Store.Append.{
  MessageExtBrokerInner, AppendMessageResult, AppendMessageStatus, append_put_ok, end_of_file,
  message_size_exceeded, append_unknown_error, AppendState, append_message_with_callback, or_zero,
}
use ttstringgolangiot.Store.Address.{GoLibrary}
use ttstringgolangiot.Store.Check.{DispatchRequest, or_empty}

pub data PutMessageStatus : Type 0 where
  put_ok : PutMessageStatus
  flush_disk_timeout : PutMessageStatus
  flush_slave_timeout : PutMessageStatus
  slave_not_available : PutMessageStatus
  service_not_available : PutMessageStatus
  create_maped_file_failed : PutMessageStatus
  message_illegal : PutMessageStatus
  put_unknown_error : PutMessageStatus

pub record PutMessageResult : Type 0 where
  pub status : PutMessageStatus
  pub append_result : Option AppendMessageResult

-- The log with its mutex; `dispatched` is what the dispatch service was given, in order, and
-- `topic_sizes` the table of StoreStatsService.
pub record CommitLog : Type 0 where
  pub maped_file_queue : MapedFileQueue
  pub append_state : AppendState
  pub locked : Bool
  pub dispatched : List DispatchRequest
  pub topic_sizes : Dict (List ℕ) ℕ

-- `blocked`: the call waits for a mutex that nobody gives back.
pub data Put : Type 0 where
  returned : PutMessageResult → CommitLog → Put
  blocked : Put
  panicked : Put

pub record PutContext : Type 0 where
  pub go : GoLibrary
  pub create : ℕ → ℕ → Option MapedFile
  pub crc32 : List ℕ → ℤ
  pub parse_bool : List ℕ → Option Bool
  pub is_sync_flush : Bool
  pub flush_ok : ℕ → Bool

-- `isWaitStoreMsgOK`.
unfoldable pub is_wait_store_msg_ok : PutContext → MessageExtBrokerInner → Bool
is_wait_store_msg_ok ctx msg = elim (lookup (codes "WAIT") msg.properties) [
  | none ↦ true
  | some text ↦ elim (ctx.parse_bool text) [ none ↦ true | some b ↦ b ]
]

-- The time of the store is set before the lock is taken, that of the birth after it.
unfoldable pub stamped : PutContext → ℕ → ℕ → MessageExtBrokerInner → MessageExtBrokerInner
stamped ctx now locked_at msg = record msg {
  store_timestamp = now;
  body_crc = ctx.crc32 msg.body;
  born_timestamp = pos locked_at;
}

unfoldable pub put_dispatch_request : MessageExtBrokerInner → AppendMessageResult → DispatchRequest
put_dispatch_request msg result = record {
  topic = msg.topic;
  queue_id = msg.queue_id;
  commit_log_offset = pos result.wrote_offset;
  msg_size = pos result.wrote_bytes;
  tags_code = msg.tags_code;
  store_timestamp = pos msg.store_timestamp;
  consume_queue_offset = pos result.logics_offset;
  keys = or_empty (lookup (codes "KEYS") msg.properties);
  sys_flag = msg.sys_flag;
  prepared_transaction_offset = msg.prepared_transaction_offset;
  producer_group = codes "PGROUP";
  tran_state_table_offset = msg.queue_offset;
}

-- The last file of the queue, changed in place.
abbrev pub set_last_file : MapedFile → MapedFileQueue → MapedFileQueue
set_last_file f q = record q { maped_files = set q.maped_files (length q.maped_files - 1) f }

-- After the message was appended: the mutex is given back.
unfoldable pub put_done : PutContext → MessageExtBrokerInner → AppendMessageResult → CommitLog → Put
put_done ctx msg result log =
    let log' : CommitLog = record log {
      locked = false;
      dispatched = log.dispatched ++ (put_dispatch_request msg result ∷ []);
      topic_sizes =
          insert msg.topic (or_zero (lookup msg.topic log.topic_sizes) + result.wrote_bytes)
            log.topic_sizes;
    } in
    let late =
      ctx.is_sync_flush
      && is_wait_store_msg_ok ctx msg
      && not (ctx.flush_ok (result.wrote_offset + result.wrote_bytes)) in
    returned
      (record { status = if late then flush_disk_timeout else put_ok; append_result = some result })
      log'

-- A return that leaves the mutex taken.
abbrev pub put_failed : PutMessageStatus → Option AppendMessageResult → CommitLog → Put
put_failed status result log = returned (record { status = status; append_result = result }) log

abbrev pub appended : MapedFileQueue → CommitLog → AppendState → MapedFile → CommitLog
appended q log s f = record log { maped_file_queue = set_last_file f q; append_state = s }

-- The second try, in the file after the one that is full; its status is not looked at.
unfoldable pub put_again :
    PutContext → MessageExtBrokerInner → AppendMessageResult → CommitLog → Put
put_again ctx msg result log =
    let opened = get_last_maped_file ctx.create 0 log.maped_file_queue in
    elim (opened.0) [
      | none ↦
          put_failed create_maped_file_failed (some result)
            (record log { maped_file_queue = opened.1 })
      | some f ↦ elim (append_message_with_callback ctx.go msg log.append_state f) [
        | none ↦ panicked
        | some (result', s, f') ↦ put_done ctx msg result' (appended (opened.1) log s f')
      ]
    ]

unfoldable pub by_append_status :
    PutContext → MessageExtBrokerInner → AppendMessageStatus → AppendMessageResult → CommitLog → Put
by_append_status ctx msg append_put_ok result log = put_done ctx msg result log
by_append_status ctx msg end_of_file result log = put_again ctx msg result log
by_append_status ctx msg message_size_exceeded result log =
    put_failed message_illegal (some result) log
by_append_status ctx msg append_unknown_error result log =
    put_failed put_unknown_error (some result) log

-- `putMessage` after the mutex was taken.
unfoldable pub put_locked : PutContext → MessageExtBrokerInner → CommitLog → Put
put_locked ctx msg log =
    let opened = get_last_maped_file ctx.create 0 log.maped_file_queue in
    elim (opened.0) [
      | none ↦ put_failed create_maped_file_failed none (record log { maped_file_queue = opened.1 })
      | some f ↦ elim (append_message_with_callback ctx.go msg log.append_state f) [
        | none ↦ panicked
        | some (result, s, f') ↦
            by_append_status ctx msg result.status result (appended (opened.1) log s f')
      ]
    ]

unfoldable pub put_message : PutContext → ℕ → ℕ → MessageExtBrokerInner → CommitLog → Put
put_message ctx now locked_at msg log =
    if log.locked
    then blocked
    else put_locked ctx (stamped ctx now locked_at msg) (record log { locked = true })
