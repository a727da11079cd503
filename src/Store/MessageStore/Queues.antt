-- ===== src/Store/MessageStore/Queues.antt =====
-- Questions to the store about its queues and messages (stgstorelog/default_message_store.go).
-- Each finds the queue first, which makes one that is not there. Where the code panics the answer
-- is `none`; a negative size in a unit, which no put writes, counts as a panic.
use ttstringgolangiot.Base.{ℕ, ◌/◌, Bool, false, Option, none, some, List, ltb, if◌then◌else◌}
use ttstringgolangiot.Base.Int.{ℤ, pos, negsuc}
use ttstringgolangiot.Store.Buffer.{MappedByteBuffer, read_int}
use ttstringgolangiot.Store.MapedFile.{MapedFile, SelectMapedBufferResult}
use ttstringgolangiot.Store.FileQueue.{get_max_offset}
use ttstringgolangiot.Store.CommitLog.{CommitLog}
use ttstringgolangiot.Store.LogReads.{get_message as log_get_message, get_data, append_bytes}
use ttstringgolangiot.Store.Recovery.{pickup_store_timestamp, release_found}
use ttstringgolangiot.Store.ConsumeQueue.{
  get_index_buffer, get_min_offset_in_queue, get_max_offset_in_queue, cq_store_unit_size,
}
use ttstringgolangiot.Store.MessageStore.{
  MessageStoreConfig, DefaultMessageStore, set_queue, find_consume_queue,
}
use ttstringgolangiot.Store.MessageStore.Pull.{release_index_buffer}
use ttstringgolangiot.Store.MessageStore.Batch.{check_in_disk_by_commit_offset}

abbrev pub with_log : CommitLog → DefaultMessageStore → DefaultMessageStore
with_log log s = record s { commit_log = log }

-- `SelectOneMessageByOffset`: the size stands in the first four bytes.
pub select_one_message_by_offset :
    ℕ → DefaultMessageStore → Option (Option SelectMapedBufferResult × DefaultMessageStore)
select_one_message_by_offset offset s =
    let first = log_get_message offset 4 s.commit_log in
    elim (first.0) [
      | none ↦ some (none, with_log first.1 s)
      | some head ↦ elim (read_int 4 head.mapped_byte_buffer) [
        | none ↦ none
        | some (negsuc size, buffer) ↦ none
        | some (pos size, buffer) ↦
            let whole = log_get_message offset size first.1 in
            some (whole.0, with_log (release_found offset whole.1) s)
      ]
    ]

pub select_one_message_by_offset_and_size :
    ℕ → ℕ → DefaultMessageStore → Option SelectMapedBufferResult × DefaultMessageStore
select_one_message_by_offset_and_size offset size s =
    let found = log_get_message offset size s.commit_log in (found.0, with_log found.1 s)

pub get_commit_log_data :
    ℕ → DefaultMessageStore → Option SelectMapedBufferResult × DefaultMessageStore
get_commit_log_data offset s =
    let found = get_data offset s.commit_log in
    if s.shutdown_flag then (none, s) else (found.0, with_log found.1 s)

-- `AppendToCommitLog`; the service that is told of new bytes only wakes up.
pub append_to_commit_log :
    (ℕ → ℕ → Option MapedFile)
    → ℕ
    → List ℕ
    → DefaultMessageStore
    → Option (Bool × DefaultMessageStore)
append_to_commit_log create start bytes s = elim (append_bytes create start bytes s.commit_log) [
  | none ↦ none
  | some (ok, log) ↦ some (ok, with_log log s)
]

pub get_max_phy_offset : DefaultMessageStore → ℕ
get_max_phy_offset s = get_max_offset s.commit_log.maped_file_queue

module _ (config : MessageStoreConfig) (topic : List ℕ) (queue_id : ℤ) where
  pub get_max_offset_of : DefaultMessageStore → ℕ × DefaultMessageStore
  get_max_offset_of s =
      let (q, s') = find_consume_queue config topic queue_id s in (get_max_offset_in_queue q, s')

  pub get_min_offset_of : DefaultMessageStore → ℕ × DefaultMessageStore
  get_min_offset_of s =
      let (q, s') = find_consume_queue config topic queue_id s in (get_min_offset_in_queue q, s')

  -- `CheckInDiskByConsumeOffset` looks at one unit.
  pub check_in_disk_by_consume_offset :
      ℕ → DefaultMessageStore → Option (Bool × DefaultMessageStore)
  check_in_disk_by_consume_offset consume_offset s =
      let (q, s') = find_consume_queue config topic queue_id s in
      let selected = get_index_buffer consume_offset q in
      elim (selected.0) [
        | none ↦ some (false, set_queue topic queue_id selected.1 s')
        | some result ↦
            let buffer : MappedByteBuffer = result.mapped_byte_buffer in
            let after =
              set_queue topic queue_id (release_index_buffer consume_offset selected.1) s' in
            let answer : Option (Bool × DefaultMessageStore) = elim (read_int 8 buffer) [
              | none ↦ none
              | some (offset_py, buffer') ↦ some (
                check_in_disk_by_commit_offset config offset_py (pos (get_max_phy_offset s')),
                after,
              )
            ] in
            if ltb 0 buffer.write_pos then answer else some (false, after)
      ]

  -- The offset and the size of the unit that the buffer of a queue starts with, and the time at
  -- which its message was stored.
  abbrev pub time_of_unit :
      MappedByteBuffer → DefaultMessageStore → Option (ℤ × DefaultMessageStore)
  time_of_unit buffer s = elim (read_int 8 buffer) [
    | none ↦ none
    | some (phy_offset, buffer') ↦ elim (read_int 4 buffer') [
      | none ↦ none
      | some (pos size, buffer'') ↦ elim phy_offset [
        | negsuc n ↦ some (negsuc 0, s)
        | pos offset ↦
            let found = pickup_store_timestamp offset size s.commit_log in
            elim (found.0) [ none ↦ none | some t ↦ some (t, with_log found.1 s) ]
      ]
      | some (negsuc size, buffer'') ↦ none
    ]
  ]

  pub get_message_store_time_stamp : ℕ → DefaultMessageStore → Option (ℤ × DefaultMessageStore)
  get_message_store_time_stamp offset s =
      let (q, s') = find_consume_queue config topic queue_id s in
      let selected = get_index_buffer offset q in
      elim (selected.0) [
        | none ↦ some (negsuc 0, set_queue topic queue_id selected.1 s')
        | some result ↦
            time_of_unit result.mapped_byte_buffer
              (set_queue topic queue_id (release_index_buffer offset selected.1) s')
      ]

  -- `GetEarliestMessageTime`.
  pub get_earliest_message_time : DefaultMessageStore → Option (ℤ × DefaultMessageStore)
  get_earliest_message_time s =
      let (q, s') = find_consume_queue config topic queue_id s in
      get_message_store_time_stamp (q.min_logic_offset / cq_store_unit_size) s'
