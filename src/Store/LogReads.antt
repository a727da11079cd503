-- ===== src/Store/LogReads.antt =====
-- What CommitLog (stgstorelog/commit_log.go) does besides putting messages: reading at an offset,
-- the least offset, the bytes that a master sends and the removal of a queue.
use ttstringgolangiot.Store.CommitLog.{CommitLog, set_last_file}
use ttstringgolangiot.Base.{
  ℕ, ◌+◌, ◌-◌, ◌%◌, Bool, false, Option, none, some, List, [], ◌∷◌, ◌++◌, ltb, leb, ◌==◌,
  if◌then◌else◌, length, set, take, drop, erase,
}
use ttstringgolangiot.Base.Int.{ℤ, pos, negsuc}
use ttstringgolangiot.Store.Buffer.{MappedByteBuffer}
use ttstringgolangiot.Store.MapedFile.{
  MapedFile, SelectMapedBufferResult, select_maped_buffer, select_maped_buffer_by_pos_and_size,
  append_message,
}
use ttstringgolangiot.Store.FileQueue.{
  MapedFileQueue, get_last_maped_file, find_index, find_maped_file_by_offset,
}
use ttstringgolangiot.Store.Properties.{bytes_eq}
use ttstringgolangiot.Store.Append.{or_zero}
use ttstringgolangiot.Store.Address.{GoLibrary}

-- The file that `findMapedFileByOffset` found, after it was held.
abbrev pub set_found : ℕ → MapedFile → CommitLog → CommitLog
set_found offset f log = record log {
  maped_file_queue = record (log.maped_file_queue) {
    maped_files =
        set log.maped_file_queue.maped_files (or_zero (find_index offset log.maped_file_queue)) f;
  };
}

-- `getMessage` and `getData`; the offset 0 finds the first file when no file has it.
unfoldable pub get_message : ℕ → ℕ → CommitLog → Option SelectMapedBufferResult × CommitLog
get_message offset size log =
    elim (find_maped_file_by_offset offset (offset == 0) log.maped_file_queue) [
      | none ↦ (none, log)
      | some f ↦
          let selected =
            select_maped_buffer_by_pos_and_size (offset % log.maped_file_queue.maped_file_size) size
              f in
          (selected.0, set_found offset (selected.1) log)
    ]

unfoldable pub get_data : ℕ → CommitLog → Option SelectMapedBufferResult × CommitLog
get_data offset log = elim (find_maped_file_by_offset offset (offset == 0) log.maped_file_queue) [
  | none ↦ (none, log)
  | some f ↦
      let selected = select_maped_buffer (offset % log.maped_file_queue.maped_file_size) f in
      (selected.0, set_found offset (selected.1) log)
]

abbrev pub first_offset : List MapedFile → ℤ
first_offset [] = negsuc 0
first_offset (f ∷ fs) = pos f.file_from_offset

-- `getMinOffset` and `rollNextFile`.
unfoldable pub log_min_offset : CommitLog → ℤ
log_min_offset log = first_offset log.maped_file_queue.maped_files

pub roll_next_file : ℕ → ℕ → ℕ
roll_next_file size offset = offset + size - offset % size

-- `removeQueurFromTopicQueueTable`.
pub remove_queue_from_topic_queue_table : GoLibrary → List ℕ → ℤ → CommitLog → CommitLog
remove_queue_from_topic_queue_table go topic queue_id log = record log {
  append_state = record (log.append_state) {
    topic_queue_table =
        erase (topic ++ (b'-' ∷ go.itoa queue_id)) log.append_state.topic_queue_table;
  };
}

-- `appendData`, which gives its mutex back: bytes that do not fit go to the next file in part.
-- `none` is a panic.
abbrev pub append_last : List ℕ → MapedFile → MapedFileQueue → CommitLog → Option (Bool × CommitLog)
append_last bytes f q log = elim (append_message bytes f) [
  | none ↦ none
  | some (ok, g) ↦ some (ok, record log { maped_file_queue = set_last_file g q })
]

abbrev pub append_rest :
    (ℕ → ℕ → Option MapedFile) → ℕ → List ℕ → Option (Bool × CommitLog) → Option (Bool × CommitLog)
append_rest create start bytes none = none
append_rest create start bytes (some (ok, log)) =
    let opened = get_last_maped_file create start log.maped_file_queue in
    elim (opened.0) [
      | none ↦ some (false, record log { maped_file_queue = opened.1 })
      | some f ↦ append_last bytes f (opened.1) log
    ]

unfoldable pub append_bytes :
    (ℕ → ℕ → Option MapedFile) → ℕ → List ℕ → CommitLog → Option (Bool × CommitLog)
append_bytes create start bytes log =
    let opened = get_last_maped_file create start log.maped_file_queue in
    elim (opened.0) [
      | none ↦ some (false, record log { maped_file_queue = opened.1 })
      | some f ↦
          let b : MappedByteBuffer = f.mapped_byte_buffer in
          let size = b.limit - b.write_pos in
          let whole = append_last bytes f (opened.1) log in
          let parts =
            append_rest create (start + size) (drop size bytes)
              (append_last (take size bytes) f (opened.1) log) in
          if leb (b.write_pos + length bytes) b.limit
          then whole
          else if ltb b.limit b.write_pos
          then none
          else parts
    ]
