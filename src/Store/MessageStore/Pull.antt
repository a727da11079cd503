-- ===== src/Store/MessageStore/Pull.antt =====
-- GetMessage of stgstorelog/default_message_store.go around the loop of Batch. `none` is a panic, or a
-- unit with a negative offset or size, which no put writes. `matches` is the filter of the
-- subscription. The code never sets `diskFallRecorded` and the time it measures never counts.
pub mod Limits
pub mod Progress
pub mod Finds
use ttstringgolangiot.Store.MessageStore.Batch.{
  GetMessageStatus, found, offset_found_null, offset_overflow_badly, offset_overflow_one,
  offset_too_small, no_message_in_queue, GetMessageResult, Batch, start_batch, pull_loop,
}
use ttstringgolangiot.Base.{
  ℕ, suc, ◌+◌, ◌*◌, ◌/◌, Bool, true, false, Option, none, some, List, [], ◌==◌, if◌then◌else◌,
  length, set, min,
}
use ttstringgolangiot.Base.Int.{ℤ, pos, ◌-ℤ◌, ltb_ℤ, same_ℤ}
use ttstringgolangiot.Store.MapedFile.{release}
use ttstringgolangiot.Store.FileQueue.{find_maped_file_by_offset, find_index, get_max_offset}
use ttstringgolangiot.Store.Append.{or_zero}
use ttstringgolangiot.Store.ConsumeQueue.{
  ConsumeQueue, get_index_buffer, consume_roll_next_file, get_min_offset_in_queue,
  get_max_offset_in_queue, cq_store_unit_size,
}
use ttstringgolangiot.Store.ConsumeQueue.Recovery.{as_length, units_of}
use ttstringgolangiot.Store.MessageStore.{
  MessageStoreConfig, DefaultMessageStore, set_queue, find_consume_queue,
}

-- Where the offset lies: a status and the next offset, or a read of the queue.
unfoldable pub offset_status : ℤ → ℕ → ℕ → Option (GetMessageStatus × ℤ)
offset_status offset min_offset max_offset =
    if max_offset == 0
    then some (no_message_in_queue, pos 0)
    else if ltb_ℤ offset (pos min_offset)
    then some (offset_too_small, pos min_offset)
    else if same_ℤ offset (pos max_offset)
    then some (offset_overflow_one, offset)
    else if ltb_ℤ (pos max_offset) offset
    then some (offset_overflow_badly, if min_offset == 0 then pos min_offset else pos max_offset)
    else none

-- The memory of a machine is taken to be 24 GB; the quotient of the ratio is one of integers.
unfoldable pub suggests_slave : MessageStoreConfig → Batch → Bool
suggests_slave config b =
    ltb_ℤ (pos (25769803776 * (config.access_message_in_memory_max_ratio / 100)))
      (pos (get_max_offset b.log.maped_file_queue) -ℤ pos b.max_phy_offset_pulling)

abbrev pub empty_result : GetMessageStatus → ℤ → ℕ → ℕ → GetMessageResult
empty_result status next min_offset max_offset = record {
  message_maped_list = [];
  status = status;
  next_begin_offset = next;
  min_offset = min_offset;
  max_offset = max_offset;
  buffer_total_size = pos 0;
  suggest_pulling_from_slave = false;
}

abbrev pub is_found : GetMessageStatus → Bool
is_found found = true
is_found _ = false

-- The counters of StoreStatsService at the end.
abbrev pub count_get : GetMessageResult → DefaultMessageStore → DefaultMessageStore
count_get r s =
    if is_found r.status
    then record s { get_message_times_total_found = suc s.get_message_times_total_found }
    else record s { get_message_times_total_miss = suc s.get_message_times_total_miss }

abbrev pub counted :
    GetMessageResult → DefaultMessageStore → Option (Option GetMessageResult × DefaultMessageStore)
counted r s = some (some r, count_get r s)

-- The deferred `Release` of the buffer of a queue.
abbrev pub release_index_buffer : ℕ → ConsumeQueue → ConsumeQueue
release_index_buffer start_index q =
    let offset = start_index * cq_store_unit_size in
    elim (find_maped_file_by_offset offset false q.maped_file_queue) [
      | none ↦ q
      | some f ↦ record q {
        maped_file_queue = record (q.maped_file_queue) {
          maped_files =
              set q.maped_file_queue.maped_files (or_zero (find_index offset q.maped_file_queue))
                (release f);
        };
      }
    ]

abbrev pub max_filter_units : ℕ
max_filter_units = 800

unfoldable pub batch_result : MessageStoreConfig → ℕ → ConsumeQueue → ℕ → Batch → GetMessageResult
batch_result config offset q n b = record {
  message_maped_list = b.messages;
  status = b.status;
  next_begin_offset = pos (offset + n);
  min_offset = get_min_offset_in_queue q;
  max_offset = get_max_offset_in_queue q;
  buffer_total_size = b.total;
  suggest_pulling_from_slave = suggests_slave config b;
}

module _ (config : MessageStoreConfig) (topic : List ℕ) (queue_id : ℤ) (max_msg_nums : ℤ)
    (matches : ℤ → Bool) where
  -- The branch that reads the queue.
  unfoldable pub pull_queue :
      ℕ
      → ConsumeQueue
      → DefaultMessageStore
      → Option (Option GetMessageResult × DefaultMessageStore)
  pull_queue offset q s =
      let selected = get_index_buffer offset q in
      elim (selected.0) [
        | none ↦
            counted
              (empty_result offset_found_null (pos (consume_roll_next_file offset q))
                (get_min_offset_in_queue q) (get_max_offset_in_queue q))
              (set_queue topic queue_id selected.1 s)
        | some buffer ↦
            elim (pull_loop config max_msg_nums matches
              (min (units_of (as_length buffer.size)) max_filter_units) buffer.mapped_byte_buffer
              (start_batch s.commit_log)) [
                | none ↦ none
                | some (n, b) ↦ counted (batch_result config offset q n b) (
                    set_queue topic queue_id (release_index_buffer offset selected.1) (record s {
                      commit_log = b.log;
                      get_message_transfered_msg_count =
                          s.get_message_transfered_msg_count + length b.messages;
                    }))
              ]
      ]

  -- The answer for the queue that was found.
  unfoldable pub get_from_queue :
      ℤ
      → ConsumeQueue
      → DefaultMessageStore
      → Option (Option GetMessageResult × DefaultMessageStore)
  get_from_queue offset q s =
      elim (offset_status offset (get_min_offset_in_queue q) (get_max_offset_in_queue q)) [
        | none ↦ pull_queue (as_length offset) q s
        | some (status, next) ↦
            counted
              (empty_result status next (get_min_offset_in_queue q) (get_max_offset_in_queue q)) s
      ]

  -- A store that is shut down gives nil.
  unfoldable pub get_message :
      ℤ → DefaultMessageStore → Option (Option GetMessageResult × DefaultMessageStore)
  get_message offset s =
      let (q, s') = find_consume_queue config topic queue_id s in
      if s.shutdown_flag then some (none, s) else get_from_queue offset q s'
