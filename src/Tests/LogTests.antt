-- ===== src/Tests/LogTests.antt =====
-- A message in a small file of a commit log, a file that is full, and a unit of a consume queue.
use ttstringgolangiot.Base.{
  ℕ, ◌+◌, ◌≤◌, ◌≡◌, ◌≢◌, refl, ap, true, false, none, some, inr, List, [], ◌∷◌, ◌++◌, arith, take,
  replicate,
}
use ttstringgolangiot.Base.Int.{pos, negsuc}
use ttstringgolangiot.Store.Buffer.{MappedByteBuffer, int_to_bytes}
use ttstringgolangiot.Store.Buffer.Roundtrip.{FitsIn}
use ttstringgolangiot.Store.MapedFile.{MapedFile}
use ttstringgolangiot.Store.FileQueue.{MapedFileQueue}
use ttstringgolangiot.Store.Properties.{message_properties_to_bytes, bytes_to_message_properties}
use ttstringgolangiot.Store.Properties.Roundtrip.{
  Lacks, IsFresh, IsPrintable, bytes_to_message_properties-message_properties_to_bytes,
}
use ttstringgolangiot.Store.Append.{
  MessageExtBrokerInner, AppendState, message_size_exceeded, end_of_file, failed_append,
  record_length, do_append, with_key,
}
use ttstringgolangiot.Store.Address.{
  GoLibrary, create_message_id, split_host_port, ipv4_string_to_bytes, bytes_to_hex_string,
}
use ttstringgolangiot.Store.Append.Put.{ParsesIps, HasRoom, result_of, put_state}
use ttstringgolangiot.Store.Check.{
  CheckContext, check_message_and_return_size, request_of, only_size,
}
use ttstringgolangiot.Store.Check.Parts.{IsStorable, fields_of}
use ttstringgolangiot.Store.Check.Appended.{
  reader_at, check_message_and_return_size-do_append, check_message_and_return_size-do_append_full,
}
use ttstringgolangiot.Store.CommitLog.{
  CommitLog, returned, blocked, PutContext, message_illegal, put_message,
}
use ttstringgolangiot.Store.CommitLog.Illegal.{put_message-illegal}
use ttstringgolangiot.Store.ConsumeQueue.{ConsumeQueue, put_message_postion_info, read_unit}
use ttstringgolangiot.Store.ConsumeQueue.Unit.{read_unit-put_message_postion_info}
use ttstringgolangiot.Store.Recovery.{out_of_fuel, recover_files, last_three, unread_of_files}
use ttstringgolangiot.Store.Recovery.Ends.{recover_files-last_three}

abbrev pub go_library : GoLibrary
go_library = record {
  net_split = λ addr. some (addr, 56 ∷ []);
  parse_port = λ text. some (pos 8);
  parse_ip = λ host. replicate 16 1;
  itoa = λ i. b'0' ∷ [];
}

abbrev pub short_message : MessageExtBrokerInner
short_message = record {
  topic = b'T' ∷ [];
  flag = pos 3;
  body = 1 ∷ 2 ∷ 3 ∷ [];
  properties_string = b'K' ∷ 1 ∷ b'v' ∷ 2 ∷ [];
  queue_id = pos 0;
  body_crc = pos 7;
  sys_flag = pos 0;
  born_timestamp = pos 10;
  born_host = b'h' ∷ [];
  store_timestamp = 11;
  store_host = b'h' ∷ [];
  reconsume_times = pos 0;
  prepared_transaction_offset = pos 0;
  properties = [];
  tags_code = pos 0;
  queue_offset = pos 0;
}

abbrev pub zeros : ℕ → MappedByteBuffer
zeros n = record { mmap_buf = replicate n 0; read_pos = 0; write_pos = 0; limit = n }

abbrev pub fresh_state : ℕ → AppendState
fresh_state max = record {
  msg_store_item_memory = zeros 208;
  max_message_size = max;
  topic_queue_table = [];
}

abbrev pub message_id : List ℕ
message_id =
    bytes_to_hex_string (replicate 4 1 ++ (int_to_bytes 4 (pos 8) ++ int_to_bytes 8 (pos (0 + 0))))

pub message_id_made : create_message_id go_library (b'h' ∷ []) (0 + 0) ≡ some message_id
unfolding create_message_id split_host_port ipv4_string_to_bytes
message_id_made = refl

abbrev pub check_context : CheckContext
check_context = record {
  crc32 = λ bytes. pos 7;
  atoi = λ text. pos 0;
  schedule = record { max_delay_level = pos 18; delay_level_table = λ level. none };
}

pub short_message_length : record_length short_message ≡ 99
unfolding record_length
short_message_length = refl

ips_parse : ParsesIps go_library
ips_parse host = inr refl

short_message-IsStorable : IsStorable short_message
unfolding FitsIn
short_message-IsStorable = record {
  topic_fits = omega arith;
  body_fits = omega arith;
  properties_fit = omega arith;
  body_crc_fits = omega arith;
  queue_id_fits = omega arith;
  flag_fits = omega arith;
  sys_flag_fits = omega arith;
  born_fits = omega arith;
  store_fits = omega arith;
  times_fit = omega arith;
  prepared_fits = omega arith;
}

room_for : (n : ℕ) → n ≤ 300 → HasRoom n (fresh_state 200) (zeros 300)
room_for n h = record {
  file_room = omega arith;
  file_mapped = omega arith;
  memory_room = omega arith;
}

check_message_and_return_size-do_append_example :
    (memory : MappedByteBuffer) × (file' : MappedByteBuffer) × (read : MappedByteBuffer)
    × (do_append go_library 0 (zeros 300) 300 short_message (fresh_state 200)
        ≡ some (
          result_of go_library short_message (fresh_state 200) (0 + 0) message_id,
          put_state go_library short_message (fresh_state 200) memory,
          file',
        ))
    × (file'.write_pos ≡ 0 + record_length short_message)
    × (take 0 file'.mmap_buf ≡ [])
    × (check_message_and_return_size check_context true true (reader_at 0 file')
        ≡ some (
          request_of check_context
              (pos (record_length short_message))
              (fields_of short_message 0 (0 + 0))
              (b'T' ∷ [])
              (b'K' ∷ 1 ∷ b'v' ∷ 2 ∷ []),
          read,
        ))
check_message_and_return_size-do_append_example =
    check_message_and_return_size-do_append go_library 0 300 (zeros 300) short_message
      (fresh_state 200) message_id check_context true true message_id_made
      (omega (arith, short_message_length)) (omega (arith, short_message_length))
      (room_for 300 (omega arith)) (omega arith) ips_parse short_message-IsStorable refl
      (omega arith) (omega arith) (omega (arith, short_message_length))

check_message_and_return_size-do_append_full_example :
    (memory : MappedByteBuffer) × (file' : MappedByteBuffer) × (read : MappedByteBuffer)
    × (do_append go_library 0 (zeros 300) 100 short_message (fresh_state 200)
        ≡ some (
          record (result_of go_library short_message (fresh_state 200) (0 + 0) message_id) {
            status = end_of_file;
            wrote_bytes = 100;
          },
          record (with_key go_library short_message (fresh_state 200)) {
            msg_store_item_memory = memory;
          },
          file',
        ))
    × (file'.write_pos ≡ 0 + 100)
    × (check_message_and_return_size check_context true true (reader_at 0 file')
        ≡ some (only_size (pos 0), read))
check_message_and_return_size-do_append_full_example =
    check_message_and_return_size-do_append_full go_library 0 100 (zeros 300) short_message
      (fresh_state 200) message_id check_context true true message_id_made
      (omega (arith, short_message_length)) (omega (arith, short_message_length))
      (room_for 100 (omega arith)) (omega arith) (omega arith) (omega (arith, short_message_length))

abbrev two_properties : List (List ℕ × List ℕ)
two_properties = (b'K' ∷ [], b'v' ∷ []) ∷ (b'T' ∷ [], []) ∷ []

k_is_not_t : ◌≢◌ {A = List ℕ} (b'T' ∷ []) (b'K' ∷ [])
k_is_not_t e = omega (arith, ap first e)
  where
    first : List ℕ → ℕ
    first [] = 0
    first (x ∷ xs) = x

two_properties-IsPrintable : IsPrintable two_properties
unfolding IsPrintable IsFresh Lacks
two_properties-IsPrintable = (
  ((omega arith), tt),
  ((omega arith), tt),
  ((omega arith), tt),
  (k_is_not_t, tt),
  (((omega arith), tt), ((omega arith), tt), tt, tt, tt),
)

bytes_to_message_properties-message_properties_to_bytes_example :
    bytes_to_message_properties (message_properties_to_bytes two_properties) ≡ two_properties
bytes_to_message_properties-message_properties_to_bytes_example =
    bytes_to_message_properties-message_properties_to_bytes two_properties
      two_properties-IsPrintable

abbrev pub open_file : MapedFile
open_file = record {
  ref_count = pos 1;
  available = true;
  cleanup_over = false;
  first_shutdown_timestamp = 0;
  file_name = "00000000000000000000";
  file_from_offset = 0;
  file_size = 300;
  mapped_byte_buffer = zeros 300;
  wrote_position = 0;
  committed_position = 0;
  store_timestamp = 0;
  first_create_in_queue = true;
}

abbrev pub one_file : MapedFileQueue
one_file = record {
  delete_files_batch_max = 10;
  maped_file_size = 300;
  maped_files = open_file ∷ [];
  committed_where = 0;
  store_timestamp = 0;
}

abbrev pub small_log : CommitLog
small_log = record {
  maped_file_queue = one_file;
  append_state = fresh_state 50;
  locked = false;
  dispatched = [];
  topic_sizes = [];
}

abbrev pub put_context : PutContext
put_context = record {
  go = go_library;
  create = λ offset size. none;
  crc32 = λ bytes. pos 7;
  parse_bool = λ text. none;
  is_sync_flush = false;
  flush_ok = λ n. true;
}

put_message-illegal_example :
    (log' : CommitLog) × (put_message put_context 5 6 short_message small_log
      ≡ returned
          (record {
            status = message_illegal;
            append_result = some (failed_append message_size_exceeded);
          })
          log')
    × (log'.maped_file_queue.maped_files
        ≡ record open_file { store_timestamp = 0; wrote_position = 0 + 0 } ∷ [])
    × (log'.dispatched ≡ [])
    × ((ctx' : PutContext) (now' locked_at' : ℕ) (msg' : MessageExtBrokerInner)
        → put_message ctx' now' locked_at' msg' log' ≡ blocked)
put_message-illegal_example =
    put_message-illegal put_context 5 6 short_message small_log open_file message_id refl refl
      (omega arith) message_id_made (omega (arith, short_message_length))
      (omega (arith, short_message_length))

abbrev pub small_queue : ConsumeQueue
small_queue = record {
  maped_file_queue = one_file;
  topic = b'T' ∷ [];
  queue_id = pos 0;
  byte_buffer_index = zeros 20;
  maped_file_size = 300;
  max_physic_offset = negsuc 0;
  min_logic_offset = 0;
}

pub seven-FitsIn : FitsIn 32 (pos 7) × FitsIn 64 (pos 7)
unfolding FitsIn
seven-FitsIn = ((omega arith), (omega arith))

read_unit-put_message_postion_info_example :
    (b : MappedByteBuffer) × (q' : ConsumeQueue) × (b' : MappedByteBuffer)
    × (put_message_postion_info (λ offset size. none) 99 (pos 7) (pos 7) 0 small_queue
        ≡ some (true, q'))
    × (q'.maped_file_queue.maped_files
        ≡ record open_file { mapped_byte_buffer = b; wrote_position = 0 + 20 } ∷ [])
    × (q'.max_physic_offset ≡ pos 99)
    × (read_unit (reader_at 0 b) ≡ some (((pos 99, pos 7), pos 7), b'))
read_unit-put_message_postion_info_example =
    read_unit-put_message_postion_info (λ offset size. none) 99 (pos 7) (pos 7) 0 open_file
      small_queue
      (record {
        is_last = refl;
        file_room = omega arith;
        buffer_room = omega arith;
        buffer_mapped = omega arith;
        index_room = omega arith;
      })
      refl refl (omega arith) seven-FitsIn.0 seven-FitsIn.1

recover_files-last_three_example :
    recover_files check_context true
      (unread_of_files (open_file ∷ []) + 1)
      (last_three (open_file ∷ []))
    ≢ out_of_fuel
recover_files-last_three_example = recover_files-last_three check_context true (open_file ∷ [])
