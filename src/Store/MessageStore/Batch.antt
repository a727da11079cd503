-- ===== src/Store/MessageStore/Batch.antt =====
-- The messages that GetMessage of stgstorelog/default_message_store.go collects for one answer
-- (stgstorelog/get_message_result.go): the loop over the units of a queue, with isTheBatchFull and
-- checkInDiskByCommitOffset. `none` is a panic.
use ttstringgolangiot.Base.{
  ℕ, zero, suc, Bool, true, false, ◌||◌, not, Option, none, some, List, [], ◌∷◌, ◌++◌, leb, ◌==◌,
  if◌then◌else◌, length,
}
use ttstringgolangiot.Base.Int.{ℤ, pos, ◌+ℤ◌, ◌-ℤ◌, ltb_ℤ, same_ℤ}
use ttstringgolangiot.Store.Buffer.{MappedByteBuffer}
use ttstringgolangiot.Store.MapedFile.{SelectMapedBufferResult}
use ttstringgolangiot.Store.FileQueue.{get_max_offset}
use ttstringgolangiot.Store.Check.{wrap}
use ttstringgolangiot.Store.CommitLog.{CommitLog}
use ttstringgolangiot.Store.LogReads.{roll_next_file, get_message as log_get_message}
use ttstringgolangiot.Store.ConsumeQueue.{read_unit}
use ttstringgolangiot.Store.MessageStore.{MessageStoreConfig}

-- The statuses that GetMessage gives; it never finds that a queue is missing.
pub data GetMessageStatus : Type 0 where
  found : GetMessageStatus
  no_matched_message : GetMessageStatus
  message_was_removing : GetMessageStatus
  offset_found_null : GetMessageStatus
  offset_overflow_badly : GetMessageStatus
  offset_overflow_one : GetMessageStatus
  offset_too_small : GetMessageStatus
  no_matched_logic_queue : GetMessageStatus
  no_message_in_queue : GetMessageStatus

pub record GetMessageResult : Type 0 where
  pub message_maped_list : List SelectMapedBufferResult
  pub status : GetMessageStatus
  pub next_begin_offset : ℤ
  pub min_offset : ℕ
  pub max_offset : ℕ
  pub buffer_total_size : ℤ
  pub suggest_pulling_from_slave : Bool

-- `checkInDiskByCommitOffset`.
pub check_in_disk_by_commit_offset : MessageStoreConfig → ℤ → ℤ → Bool
check_in_disk_by_commit_offset config offset_py max_offset_py =
    ltb_ℤ config.disk_memory (max_offset_py -ℤ offset_py)

-- `isTheBatchFull`, with sums of 32 bits. There are less than 2^31 messages in a batch.
unfoldable pub is_the_batch_full : MessageStoreConfig → ℤ → ℤ → ℤ → ℕ → Bool → Bool
is_the_batch_full config size_py max_msg_nums buffer_total message_total is_in_disk =
    let total = wrap 32 (wrap 32 buffer_total +ℤ size_py) in
    if same_ℤ (wrap 32 buffer_total) (pos 0) || message_total == 0
    then false
    else if not (ltb_ℤ (pos (suc message_total)) max_msg_nums)
    then true
    else if is_in_disk
    then ltb_ℤ config.max_transfer_bytes_on_message_in_disk total
      || ltb_ℤ config.max_transfer_count_on_message_in_disk (pos (suc message_total))
    else ltb_ℤ config.max_transfer_bytes_on_message_in_memory total
      || ltb_ℤ config.max_transfer_count_on_message_in_memory (pos (suc message_total))

-- The variables of the loop; of `next_phy_file_start_offset` the value `none` is LongMinValue.
pub record Batch : Type 0 where
  pub messages : List SelectMapedBufferResult
  pub total : ℤ
  pub status : GetMessageStatus
  pub next_phy_file_start_offset : Option ℕ
  pub max_phy_offset_pulling : ℕ
  pub log : CommitLog

abbrev pub start_batch : CommitLog → Batch
start_batch log = record {
  messages = [];
  total = pos 0;
  status = no_matched_message;
  next_phy_file_start_offset = none;
  max_phy_offset_pulling = 0;
  log = log;
}

-- A status that only counts while no bytes were found.
abbrev pub unless_found : GetMessageStatus → Batch → GetMessageStatus
unless_found status b = if same_ℤ b.total (pos 0) then status else b.status

-- `addMessage`, and what the loop does around it.
unfoldable pub add_message : SelectMapedBufferResult → Batch → Batch
add_message r b = record b {
  messages = b.messages ++ (r ∷ []);
  total = b.total +ℤ r.size;
  status = found;
  next_phy_file_start_offset = none;
}

-- A message whose tags match: when the log does not have it, the rest of its file is skipped.
unfoldable pub select_message : ℕ → ℕ → Batch → Batch
select_message offset size b =
    let selected = log_get_message offset size b.log in
    let b' : Batch = record b { log = selected.1 } in
    elim (selected.0) [
      | none ↦ record b' {
        status = unless_found message_was_removing b;
        next_phy_file_start_offset =
            some (roll_next_file b.log.maped_file_queue.maped_file_size offset);
      }
      | some r ↦ add_message r b'
    ]

abbrev pub is_skipped : ℕ → Option ℕ → Bool
is_skipped offset none = false
is_skipped offset (some start) = not (leb start offset)

-- What the loop does with a unit: it goes on, or the batch is full.
pub data Round : Type 0 where
  goes_on : Batch → Round
  is_full : Batch → Round

module _ (config : MessageStoreConfig) (max_msg_nums : ℤ) (matches : ℤ → Bool) where
  unfoldable pub pull_unit : ℕ → ℕ → ℤ → Batch → Round
  pull_unit offset size tags_code b =
      let b' : Batch = record b { max_phy_offset_pulling = offset } in
      let is_in_disk =
        check_in_disk_by_commit_offset config (pos offset)
          (pos (get_max_offset b.log.maped_file_queue)) in
      if is_skipped offset b.next_phy_file_start_offset
      then goes_on b'
      else if is_the_batch_full config (pos size) max_msg_nums b.total (length b.messages)
          is_in_disk
      then is_full b'
      else if matches tags_code
      then goes_on (select_message offset size b')
      else goes_on (record b' { status = unless_found no_matched_message b })

  -- One round of the loop, with the buffer after it.
  unfoldable pub pull_round : MappedByteBuffer → Batch → Option (Round × MappedByteBuffer)
  pull_round buffer b =
      let unit : Option (Round × MappedByteBuffer) = elim (read_unit buffer) [
        | none ↦ none
        | some (((pos offset, pos size), tags_code), buffer') ↦
            some (pull_unit offset size tags_code b, buffer')
        | some (((offset, size), tags_code), buffer') ↦ none
      ] in
      if buffer.write_pos == 0 then some (goes_on b, buffer) else unit

  -- The loop over at most so many units, with the number of the units that it passed.
  unfoldable pub pull_loop : ℕ → MappedByteBuffer → Batch → Option (ℕ × Batch)
  pull_loop zero buffer b = some (0, b)
  pull_loop (suc left) buffer b = elim (pull_round buffer b) [
    | none ↦ none
    | some (is_full b', buffer') ↦ some (0, b')
    | some (goes_on b', buffer') ↦ elim (pull_loop left buffer' b') [
      | none ↦ none
      | some (n, b'') ↦ some (suc n, b'')
    ]
  ]
