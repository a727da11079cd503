-- ===== src/Tests/StoreTests.antt =====
-- A store with one queue, which has one unit, for a message of forty bytes.
use ttstringgolangiot.Base.{
  ℕ, ◌+◌, ◌*◌, ◌/◌, ◌≤◌, ◌<◌, subst, sym, ap, ◌∙◌, ◌⊎◌, ◌≡◌, refl, true, false, Option, none, some,
  List, [], ◌∷◌, ◌++◌, arith, replicate, length, lookup, take,
}
use ttstringgolangiot.Base.Int.{pos, ltb_ℤ, int_eq, ◌+ℤ◌, ◌-ℤ◌}
use ttstringgolangiot.Store.Buffer.{MappedByteBuffer, read, read_int, bytes_to_int}
use ttstringgolangiot.Common.Flags.{get_transaction_value}
use ttstringgolangiot.Store.MapedFile.{
  MapedFile, hold, is_held, SelectMapedBufferResult, select_maped_buffer,
  select_maped_buffer_by_pos_and_size,
}
use ttstringgolangiot.Store.FileQueue.{
  MapedFileQueue, get_max_offset, find_maped_file_by_offset, index_in,
}
use ttstringgolangiot.Store.CommitLog.{put_message as log_put_message}
use ttstringgolangiot.Store.ConsumeQueue.{
  ConsumeQueue, get_index_buffer, read_unit, get_min_offset_in_queue, get_max_offset_in_queue,
}
use ttstringgolangiot.Store.MessageStore.{
  MessageStoreConfig, DefaultMessageStore, find_consume_queue, queues_of, put_message, do_dispatch,
  goes_to_queue,
}
use ttstringgolangiot.Store.MessageStore.Pull.{
  get_message, get_from_queue, pull_queue, offset_status, empty_result, batch_result,
  suggests_slave,
}
use ttstringgolangiot.Store.MessageStore.Batch.{
  GetMessageResult, found, pull_loop, pull_round, pull_unit, select_message, add_message,
  is_the_batch_full,
}
use ttstringgolangiot.Store.MessageStore.Pull.Finds.{first_message, get_message-finds}
use ttstringgolangiot.Store.LogReads.{get_message as log_get_message}
use ttstringgolangiot.Store.MessageStore.Pull.Limits.{IsWithin, first_size}
use ttstringgolangiot.Store.MessageStore.Pull.Progress.{get_message-IsWithin, get_message-progress}
use ttstringgolangiot.Store.MessageStore.Guards.{Takes, log_of, put_of, put_message-Takes}
use ttstringgolangiot.Store.MessageStore.Dispatch.{read_unit-do_dispatch}
use ttstringgolangiot.Store.MessageStore.Ids.{
  out_of_fuel, get_message_ids, get_message_ids-diverges,
}
use ttstringgolangiot.Store.Check.{DispatchRequest}
use ttstringgolangiot.Store.Check.Appended.{reader_at}
use ttstringgolangiot.Tests.LogTests.{
  go_library, put_context, short_message, open_file, one_file, small_log, small_queue, seven-FitsIn,
}

abbrev pub store_config : MessageStoreConfig
store_config = record {
  is_slave = false;
  maped_file_size_consume_queue = 300;
  max_transfer_bytes_on_message_in_memory = pos 1000;
  max_transfer_count_on_message_in_memory = pos 32;
  max_transfer_bytes_on_message_in_disk = pos 100;
  max_transfer_count_on_message_in_disk = pos 8;
  access_message_in_memory_max_ratio = 40;
  disk_memory = pos 1000;
  message_index_enable = true;
}

abbrev pub written : List ℕ → ℕ → MapedFile
written bytes n = record open_file {
  mapped_byte_buffer = record { mmap_buf = bytes; read_pos = 0; write_pos = n; limit = 300 };
  wrote_position = n;
}

abbrev pub with_file : MapedFile → MapedFileQueue
with_file f = record one_file { maped_files = f ∷ [] }

-- The unit of a message of forty bytes at the start of the log, with the code 7.
abbrev pub unit_bytes : List ℕ
unit_bytes = replicate 11 0 ++ (40 ∷ (replicate 7 0 ++ (7 ∷ replicate 280 0)))

abbrev pub unit_queue : ConsumeQueue
unit_queue = record small_queue { maped_file_queue = with_file (written unit_bytes 20) }

abbrev pub store_of : ConsumeQueue → DefaultMessageStore
store_of q = record {
  shutdown_flag = false;
  running_flags = 0;
  print_times = 0;
  commit_log = record small_log { maped_file_queue = with_file (written (replicate 300 1) 40) };
  consume_topic_table = (b'T' ∷ [], (pos 0, q) ∷ []) ∷ [];
  logics_msg_timestamp = pos 0;
  request_size = pos 1;
  index_requests = [];
  topic_times = [];
  put_message_failed_times = 0;
  get_message_transfered_msg_count = 0;
  get_message_times_total_found = 0;
  get_message_times_total_miss = 0;
}

abbrev pub unit_store : DefaultMessageStore
unit_store = store_of unit_queue

abbrev result_or : Option (Option GetMessageResult × DefaultMessageStore) → GetMessageResult
result_or (some (some r, s)) = r
result_or _ = empty_result found (pos 0) 0 0

abbrev store_or : Option (Option GetMessageResult × DefaultMessageStore) → DefaultMessageStore
store_or (some (r, s)) = s
store_or none = unit_store

abbrev pulled : Option (Option GetMessageResult × DefaultMessageStore)
pulled = get_message store_config (b'T' ∷ []) (pos 0) (pos 32) (λ code. true) (pos 0) unit_store

pulled_facts :
    (pulled ≡ some (some (result_or pulled), store_or pulled))
    × (ltb_ℤ (pos 0) (first_size (result_or pulled).message_maped_list) ≡ true)
    × ((result_or pulled).buffer_total_size ≡ pos 40)
unfolding ◌+ℤ◌ ◌-ℤ◌ add_message batch_result bytes_to_int find_consume_queue
    find_maped_file_by_offset get_from_queue get_index_buffer get_max_offset get_max_offset_in_queue
    get_message get_min_offset_in_queue hold index_in is_held is_the_batch_full log_get_message
    offset_status pull_loop pull_queue pull_round pull_unit queues_of read read_int read_unit
    select_maped_buffer select_maped_buffer_by_pos_and_size select_message suggests_slave
pulled_facts = (refl, refl, refl)

abbrev selected_unit : SelectMapedBufferResult
selected_unit = record {
  start_offset = 0;
  mapped_byte_buffer = record {
    mmap_buf = take 20 unit_bytes;
    read_pos = 0;
    write_pos = 20;
    limit = 300;
  };
  size = pos 20;
}

abbrev read_after : MappedByteBuffer
read_after = record (selected_unit.mapped_byte_buffer) { read_pos = 20 }

abbrev the_message : SelectMapedBufferResult
the_message = record {
  start_offset = 0;
  mapped_byte_buffer = record {
    mmap_buf = replicate 40 1;
    read_pos = 0;
    write_pos = 40;
    limit = 300;
  };
  size = pos 40;
}

found_queue : ConsumeQueue × DefaultMessageStore
found_queue = find_consume_queue store_config (b'T' ∷ []) (pos 0) unit_store

offset_inside :
    offset_status
      (pos 0)
      (get_min_offset_in_queue found_queue.0)
      (get_max_offset_in_queue found_queue.0)
    ≡ none
unfolding found_queue find_consume_queue queues_of get_max_offset_in_queue get_min_offset_in_queue
    get_max_offset offset_status
offset_inside = refl

unit_selected : (get_index_buffer 0 found_queue.0).0 ≡ some selected_unit
unfolding found_queue find_consume_queue queues_of get_index_buffer find_maped_file_by_offset
    index_in select_maped_buffer hold is_held ◌-ℤ◌ ◌+ℤ◌
unit_selected = refl

unit_read : read_unit selected_unit.mapped_byte_buffer ≡ some (((pos 0, pos 40), pos 7), read_after)
unfolding read_unit read_int read bytes_to_int
unit_read = refl

message_there : (log_get_message 0 40 found_queue.1.commit_log).0 ≡ some the_message
unfolding found_queue find_consume_queue queues_of log_get_message find_maped_file_by_offset
    index_in select_maped_buffer_by_pos_and_size hold is_held ◌+ℤ◌
message_there = refl

get_message-finds_example :
    ((result_or pulled).status ≡ found)
    × (first_message (result_or pulled).message_maped_list ≡ some the_message)
unfolding found_queue
get_message-finds_example =
    get_message-finds store_config (b'T' ∷ []) (pos 0) (pos 32) (λ code. true) 0 unit_store
      (store_or pulled) (result_or pulled) selected_unit the_message 0 39 (pos 7) read_after
      pulled_facts.0 offset_inside unit_selected (omega arith) refl unit_read refl message_there

get_message-IsWithin_example :
    IsWithin store_config (pos 32) (length (result_or pulled).message_maped_list) 40
get_message-IsWithin_example =
    get_message-IsWithin store_config (b'T' ∷ []) (pos 0) (pos 32) (λ code. true) (pos 0) unit_store
      (store_or pulled) (result_or pulled) 40 pulled_facts.0 pulled_facts.1 pulled_facts.2
      (omega arith)

abbrev pub unit_file : MapedFile
unit_file = written unit_bytes 20

unit_file_found :
    find_maped_file_by_offset (0 * 20) false found_queue.0.maped_file_queue ≡ some unit_file
unfolding found_queue find_consume_queue queues_of find_maped_file_by_offset index_in
unit_file_found = refl

abbrev or_unit_file : Option MapedFile → MapedFile
or_unit_file none = unit_file
or_unit_file (some f) = f

found_file_written :
    (f : MapedFile)
    → find_maped_file_by_offset (0 * 20) false found_queue.0.maped_file_queue ≡ some f
    → f.wrote_position ≤ f.mapped_byte_buffer.write_pos
found_file_written f e =
    subst (λ g. g.wrote_position ≤ g.mapped_byte_buffer.write_pos)
      (ap or_unit_file (sym unit_file_found ∙ e)) (omega arith)

queue_has_units : 0 < found_queue.0.maped_file_size / 20
unfolding found_queue find_consume_queue queues_of
queue_has_units = omega arith

get_message-progress_example : ltb_ℤ (pos 0) (result_or pulled).next_begin_offset ≡ true
unfolding found_queue
get_message-progress_example =
    get_message-progress store_config (b'T' ∷ []) (pos 0) (pos 32) (λ code. true) 0 unit_store
      (store_or pulled) (result_or pulled) offset_inside queue_has_units found_file_written
      pulled_facts.0

put_message-Takes_example :
    let put = put_message put_context store_config 5 6 short_message unit_store in
    (log_of put unit_store.commit_log ≡ unit_store.commit_log)
    ⊎ (Takes store_config short_message unit_store
        × (put_of put ≡ log_put_message put_context 5 6 short_message unit_store.commit_log))
put_message-Takes_example = put_message-Takes put_context store_config 5 6 short_message unit_store

abbrev request : DispatchRequest
request = record {
  topic = b'T' ∷ [];
  queue_id = pos 0;
  commit_log_offset = pos 99;
  msg_size = pos 7;
  tags_code = pos 7;
  store_timestamp = pos 11;
  consume_queue_offset = pos 0;
  keys = [];
  sys_flag = pos 0;
  prepared_transaction_offset = pos 0;
  producer_group = [];
  tran_state_table_offset = pos 0;
}

abbrev empty_store : DefaultMessageStore
empty_store = store_of small_queue

read_unit-do_dispatch_example :
    (s' : DefaultMessageStore) × (q' : ConsumeQueue) × (b b' : MappedByteBuffer) × (do_dispatch
        (λ offset size. none)
        store_config
        request
        empty_store
      ≡ some s')
    × (lookup (pos 0) (queues_of (b'T' ∷ []) s'.consume_topic_table) ≡ some q')
    × (q'.maped_file_queue.maped_files
        ≡ record open_file { mapped_byte_buffer = b; wrote_position = 0 + 20 } ∷ [])
    × (q'.max_physic_offset ≡ pos 99)
    × (read_unit (reader_at 0 b) ≡ some (((pos 99, pos 7), pos 7), b'))
unfolding find_consume_queue queues_of goes_to_queue get_transaction_value
read_unit-do_dispatch_example =
    read_unit-do_dispatch (λ offset size. none) store_config request empty_store open_file refl
      (record {
        is_last = refl;
        file_room = omega arith;
        buffer_room = omega arith;
        buffer_mapped = omega arith;
        index_room = omega arith;
      })
      refl refl (omega arith) seven-FitsIn.0 seven-FitsIn.1

min_before :
    get_min_offset_in_queue (find_consume_queue store_config (b'T' ∷ []) (pos 0) empty_store).0 ≤ 5
unfolding find_consume_queue queues_of get_min_offset_in_queue
min_before = omega arith

none_at_five :
    get_index_buffer 5 (find_consume_queue store_config (b'T' ∷ []) (pos 0) empty_store).0
    ≡ (none, (find_consume_queue store_config (b'T' ∷ []) (pos 0) empty_store).0)
unfolding find_consume_queue queues_of get_index_buffer find_maped_file_by_offset index_in
    select_maped_buffer
none_at_five = refl

get_message_ids-diverges_example :
    get_message_ids go_library (b'h' ∷ []) 10 store_config 50 (b'T' ∷ []) (pos 0) 5 empty_store
    ≡ out_of_fuel
unfolding find_consume_queue queues_of
get_message_ids-diverges_example =
    get_message_ids-diverges go_library (b'h' ∷ []) 10 store_config 50 (b'T' ∷ []) (pos 0) 5
      empty_store refl min_before (omega arith) none_at_five
