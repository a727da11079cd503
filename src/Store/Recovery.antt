-- ===== src/Store/Recovery.antt =====
-- Recovery of the commit log after an orderly stop (recoverNormally, isMapedFileMatchedRecover,
-- pickupStoretimestamp of stgstorelog/commit_log.go).
pub mod Abnormal
pub mod Ends
pub mod Reads
use ttstringgolangiot.Base.{
  ℕ, zero, suc, ◌+◌, ◌-◌, Bool, false, not, ◌&&◌, Option, none, some, List, [], ◌∷◌, ◌==◌,
  if◌then◌else◌, length, take, drop,
}
use ttstringgolangiot.Base.Int.{ℤ, pos, negsuc, ltb_ℤ}
use ttstringgolangiot.Store.Buffer.{MappedByteBuffer, read_int}
use ttstringgolangiot.Store.MapedFile.{MapedFile, release}
use ttstringgolangiot.Store.FileQueue.{
  MapedFileQueue, find_maped_file_by_offset, truncate_dirty_files,
}
use ttstringgolangiot.Store.Append.{message_magic_code}
use ttstringgolangiot.Store.Check.{CheckContext, check_message_and_return_size, same_int}
use ttstringgolangiot.Store.CommitLog.{CommitLog}
use ttstringgolangiot.Store.LogReads.{get_message, set_found, log_min_offset}

-- What a round of the loop does with the size of a request; a size below -1 goes on too.
pub data Round : Type 0 where
  goes_on : ℕ → Round
  ends : Round
  next_file : Round

abbrev pub round_of : ℤ → Round
round_of (pos zero) = next_file
round_of (pos (suc n)) = goes_on (suc n)
round_of (negsuc zero) = ends
round_of (negsuc (suc n)) = goes_on 0

pub data Recovered : Type 0 where
  recovered : ℕ → Recovered
  recover_panics : Recovered
  out_of_fuel : Recovered

-- The loop reads the buffers of the files themselves after the first one; their positions to read
-- at, which nothing else looks at, are not kept. It stands in the file that begins at `from`, with
-- `done` of its bytes valid, before the others.
unfoldable pub recover_loop :
    CheckContext → Bool → ℕ → MappedByteBuffer → ℕ → ℕ → List MapedFile → Recovered
recover_loop ctx check_crc zero b from done files = out_of_fuel
recover_loop ctx check_crc (suc fuel) b from done files =
    elim (check_message_and_return_size ctx check_crc check_crc b) [
      | none ↦ recover_panics
      | some (request, b') ↦ elim (round_of request.msg_size) [
        | goes_on n ↦ recover_loop ctx check_crc fuel b' from (done + n) files
        | ends ↦ recovered (from + done)
        | next_file ↦ elim files [
          | [] ↦ recovered (from + done)
          | f ∷ fs ↦ recover_loop ctx check_crc fuel f.mapped_byte_buffer f.file_from_offset 0 fs
        ]
      ]
    ]

-- `NewMappedByteBuffer` of the bytes of a file.
abbrev pub reader_of : MapedFile → MappedByteBuffer
reader_of f = record {
  mmap_buf = take f.mapped_byte_buffer.write_pos f.mapped_byte_buffer.mmap_buf;
  read_pos = 0;
  write_pos = f.mapped_byte_buffer.write_pos;
  limit = length f.mapped_byte_buffer.mmap_buf;
}

abbrev pub end_recovery :
    (ℕ → MapedFileQueue → MapedFileQueue) → CommitLog → Recovered → Option CommitLog
end_recovery truncate log (recovered offset) = some (record log {
  maped_file_queue = truncate offset (record (log.maped_file_queue) { committed_where = offset });
})
end_recovery truncate log recover_panics = none
end_recovery truncate log out_of_fuel = none

unfoldable pub recover_files : CheckContext → Bool → ℕ → List MapedFile → Recovered
recover_files ctx check_crc fuel [] = recovered 0
recover_files ctx check_crc fuel (f ∷ fs) =
    recover_loop ctx check_crc fuel (reader_of f) f.file_from_offset 0 fs

-- The last three files are read.
abbrev pub last_three : List MapedFile → List MapedFile
last_three files = drop (length files - 3) files

-- Each round but one for each file reads a byte or more.
abbrev pub unread : MappedByteBuffer → ℕ
unread b = length b.mmap_buf - b.read_pos

abbrev pub unread_of_files : List MapedFile → ℕ
unread_of_files [] = 0
unread_of_files (f ∷ fs) = length f.mapped_byte_buffer.mmap_buf + 2 + unread_of_files fs

module _ (removed : MapedFile → Bool) (now : ℕ) where
  unfoldable pub recover_normally : CheckContext → Bool → CommitLog → Option CommitLog
  recover_normally ctx check_crc log =
      let files = log.maped_file_queue.maped_files in
      let three = last_three files in
      let fuel = unread_of_files files + 1 in
      let ended =
        end_recovery (truncate_dirty_files removed now) log
          (recover_files ctx check_crc fuel three) in
      elim files [ [] ↦ some log | f ∷ fs ↦ ended ]

-- `Release` of the file that was found.
abbrev pub release_found : ℕ → CommitLog → CommitLog
release_found offset log =
    elim (find_maped_file_by_offset offset (offset == 0) log.maped_file_queue) [
      | none ↦ log
      | some f ↦ set_found offset (release f) log
    ]

-- `pickupStoretimestamp`, with the log after it. `none` is a panic.
pub pickup_store_timestamp : ℕ → ℕ → CommitLog → Option ℤ × CommitLog
pickup_store_timestamp offset size log =
    let got = get_message offset size log in
    let stamp : Option ℤ = elim (got.0) [
      | none ↦ some (negsuc 0)
      | some result ↦ elim (read_int 8 (record (result.mapped_byte_buffer) { read_pos = 56 })) [
        | none ↦ none
        | some (t, b) ↦ some t
      ]
    ] in
    let log' : CommitLog = elim (got.0) [
      | none ↦ got.1
      | some result ↦ release_found offset got.1
    ] in
    if ltb_ℤ (log_min_offset log) (pos offset) then (stamp, log') else (some (negsuc 0), log)

-- The times that the checkpoint has, and whether the index counts.
pub record Checkpoint : Type 0 where
  pub min_timestamp_index : ℤ
  pub min_timestamp : ℤ
  pub message_index_enable : Bool
  pub message_index_safe : Bool

abbrev pub is_before : Checkpoint → ℤ → Bool
is_before c t =
    if c.message_index_enable && c.message_index_safe
    then not (ltb_ℤ c.min_timestamp_index t)
    else not (ltb_ℤ c.min_timestamp t)

-- `isMapedFileMatchedRecover`.
pub is_maped_file_matched_recover : Checkpoint → MapedFile → Option Bool
is_maped_file_matched_recover c f =
    let b = reader_of f in
    let by_time : Option Bool = elim (read_int 8 (record b { read_pos = 56 })) [
      | none ↦ none
      | some (t, b') ↦ some (if same_int t (pos 0) then false else is_before c t)
    ] in
    let by_magic : Option Bool = elim (read_int 4 (record b { read_pos = 4 })) [
      | none ↦ none
      | some (magic, b') ↦ if same_int magic message_magic_code then by_time else some false
    ] in
    elim (b.mmap_buf) [ [] ↦ some false | x ∷ xs ↦ by_magic ]
