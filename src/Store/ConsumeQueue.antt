-- ===== src/Store/ConsumeQueue.antt =====
-- ConsumeQueue (stgstorelog/consume_queue.go): the index of one queue of a topic, units of twenty
-- bytes with the offset of a message in the commit log, its size and the code of its tags.
-- `none` is a panic. What is written of a file lies inside its mapping.
pub mod Unit
pub mod Recovery
use ttstringgolangiot.Base.{
  ℕ, zero, suc, ◌+◌, ◌-◌, ◌*◌, ◌/◌, ◌%◌, Bool, true, false, not, ◌&&◌, Option, none, some, List, [],
  ◌∷◌, ◌++◌, leb, ◌==◌, if◌then◌else◌, length, take, replicate, set,
}
use ttstringgolangiot.Base.Int.{ℤ, pos, negsuc, ltb_ℤ}
use ttstringgolangiot.Store.Buffer.{
  MappedByteBuffer, new_mapped_byte_buffer, int_to_bytes, read_int,
}
use ttstringgolangiot.Store.MapedFile.{
  MapedFile, SelectMapedBufferResult, select_maped_buffer, append_message,
}
use ttstringgolangiot.Store.FileQueue.{
  MapedFileQueue, new_maped_file_queue, get_last_maped_file, find_maped_file_by_offset, find_index,
  get_max_offset,
}
use ttstringgolangiot.Store.Check.{Reading, ◌>>=◌, return}
use ttstringgolangiot.Store.Append.{write_all, reset_msg_store_item_memory, or_zero}

abbrev pub cq_store_unit_size : ℕ
cq_store_unit_size = 20

pub record ConsumeQueue : Type 0 where
  pub maped_file_queue : MapedFileQueue
  pub topic : List ℕ
  pub queue_id : ℤ
  pub byte_buffer_index : MappedByteBuffer
  pub maped_file_size : ℕ
  pub max_physic_offset : ℤ
  pub min_logic_offset : ℕ

-- `NewConsumeQueue`.
pub new_consume_queue : List ℕ → ℤ → ℕ → ConsumeQueue
new_consume_queue topic queue_id size = record {
  maped_file_queue = new_maped_file_queue size;
  topic = topic;
  queue_id = queue_id;
  byte_buffer_index = new_mapped_byte_buffer (replicate 20 0) 20;
  maped_file_size = size;
  max_physic_offset = negsuc 0;
  min_logic_offset = 0;
}

-- `getIndexBuffer`, with the queue after the file was held.
unfoldable pub get_index_buffer : ℕ → ConsumeQueue → Option SelectMapedBufferResult × ConsumeQueue
get_index_buffer start_index q =
    let offset = start_index * cq_store_unit_size in
    let selected : Option SelectMapedBufferResult × ConsumeQueue =
      elim (find_maped_file_by_offset offset false q.maped_file_queue) [
        | none ↦ (none, q)
        | some f ↦
            let found = select_maped_buffer (offset % q.maped_file_size) f in
            (
              found.0,
              record q {
                maped_file_queue = record (q.maped_file_queue) {
                  maped_files =
                      set q.maped_file_queue.maped_files
                        (or_zero (find_index offset q.maped_file_queue)) (found.1);
                };
              },
            )
      ] in
    if leb q.min_logic_offset offset then selected else (none, q)

unfoldable pub consume_roll_next_file : ℕ → ConsumeQueue → ℕ
consume_roll_next_file index q =
    let units = q.maped_file_size / cq_store_unit_size in index + units - index % units

unfoldable pub get_min_offset_in_queue : ConsumeQueue → ℕ
get_min_offset_in_queue q = q.min_logic_offset / cq_store_unit_size

unfoldable pub get_max_offset_in_queue : ConsumeQueue → ℕ
get_max_offset_in_queue q = get_max_offset q.maped_file_queue / cq_store_unit_size

-- The offset, the size and the code of the tags at the position of a buffer.
unfoldable pub read_unit : Reading ((ℤ × ℤ) × ℤ)
read_unit = do
  offset ← read_int 8
  size ← read_int 4
  tags_code ← read_int 8
  return ((offset, size), tags_code)

-- `fillPreBlank`: the fields go behind the twenty zeros that the buffer was made with, so that
-- the bytes that are read back are these zeros.
unfoldable pub blank_unit : List ℕ
blank_unit = take 20 (
    replicate 20 0
    ++ (int_to_bytes 8 (pos 0) ++ (int_to_bytes 4 (pos 2147483647) ++ int_to_bytes 8 (pos 0))))

pub append_times : ℕ → List ℕ → MapedFile → Option MapedFile
append_times zero bytes f = some f
append_times (suc n) bytes f = elim (append_message bytes f) [
  | none ↦ none
  | some (ok, f') ↦ append_times n bytes f'
]

unfoldable pub fill_pre_blank : ℕ → ℕ → MapedFile → Option MapedFile
fill_pre_blank size until_where f =
    append_times ((until_where % size + 19) / cq_store_unit_size) blank_unit f

-- A queue whose first file begins late starts with blanks.
abbrev pub starts_late : ℕ → MapedFile → Bool
starts_late cq_offset f = f.first_create_in_queue && not (cq_offset == 0) && f.wrote_position == 0

unfoldable pub blanked : ℕ → ℕ → MapedFile → Option MapedFile
blanked size cq_offset f =
    if starts_late cq_offset f
    then fill_pre_blank size (cq_offset * cq_store_unit_size) f
    else some f

unfoldable pub unit_chunks : ℕ → ℤ → ℤ → List (List ℕ)
unit_chunks offset size tags_code =
    int_to_bytes 8 (pos offset) ∷ int_to_bytes 4 size ∷ int_to_bytes 8 tags_code ∷ []

-- The unit goes to the last file; the greatest offset is noted before it is written.
unfoldable pub append_unit :
    ℕ
    → ℕ
    → MappedByteBuffer
    → MapedFile
    → MapedFileQueue
    → ConsumeQueue
    → Option (Bool × ConsumeQueue)
append_unit offset cq_offset index f files q = elim (blanked files.maped_file_size cq_offset f) [
  | none ↦ none
  | some g ↦ elim (append_message (take index.write_pos index.mmap_buf) g) [
    | none ↦ none
    | some (ok, h) ↦ some (
      ok,
      record q {
        maped_file_queue = record files {
          maped_files = set files.maped_files (length files.maped_files - 1) h;
        };
        byte_buffer_index = index;
        max_physic_offset = pos offset;
        min_logic_offset =
            if starts_late cq_offset f then cq_offset * cq_store_unit_size else q.min_logic_offset;
      },
    )
  ]
]

module _ (create : ℕ → ℕ → Option MapedFile) where
  unfoldable pub put_message_postion_info :
      ℕ → ℤ → ℤ → ℕ → ConsumeQueue → Option (Bool × ConsumeQueue)
  put_message_postion_info offset size tags_code cq_offset q =
      let opened = get_last_maped_file create (cq_offset * cq_store_unit_size) q.maped_file_queue in
      let put : Option (Bool × ConsumeQueue) =
        elim (write_all (unit_chunks offset size tags_code)
          (reset_msg_store_item_memory cq_store_unit_size q.byte_buffer_index)) [
            | none ↦ none
            | some index ↦ elim (opened.0) [
              | none ↦
                  some (false, record q { maped_file_queue = opened.1; byte_buffer_index = index })
              | some f ↦ append_unit offset cq_offset index f (opened.1) q
            ]
          ] in
      if ltb_ℤ q.max_physic_offset (pos offset) then put else some (true, q)

  -- `putMessagePostionInfoWrapper`, by the tries left: `true` is that the checkpoint takes the time
  -- of the message, `false` that the flag for an error of the logic queues is set.
  unfoldable pub put_with_retries : ℕ → ℕ → ℤ → ℤ → ℕ → ConsumeQueue → Option (Bool × ConsumeQueue)
  put_with_retries zero offset size tags_code cq_offset q = some (false, q)
  put_with_retries (suc left) offset size tags_code cq_offset q =
      elim (put_message_postion_info offset size tags_code cq_offset q) [
        | none ↦ none
        | some (true, q') ↦ some (true, q')
        | some (false, q') ↦ put_with_retries left offset size tags_code cq_offset q'
      ]

  unfoldable pub put_message_postion_info_wrapper :
      ℕ → ℤ → ℤ → ℕ → ConsumeQueue → Option (Bool × ConsumeQueue)
  put_message_postion_info_wrapper offset size tags_code cq_offset q =
      put_with_retries 5 offset size tags_code cq_offset q
