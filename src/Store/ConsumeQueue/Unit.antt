-- ===== src/Store/ConsumeQueue/Unit.antt =====
-- Putting a unit into a consume queue and reading it.
use ttstringgolangiot.Base.{
  ℕ, ◌+◌, ◌-◌, ◌*◌, ◌^◌, ◌≤◌, ◌<◌, ◌≡◌, refl, true, false, Option, some, List, [], ◌++◌, arith, leb,
  length, length-append, drop, set,
}
use ttstringgolangiot.Base.Int.{ℤ, pos, ltb_ℤ}
use ttstringgolangiot.Base.Bytes.{length-be_bytes, to_word}
use ttstringgolangiot.Store.Buffer.{MappedByteBuffer, int_to_bytes}
use ttstringgolangiot.Store.Buffer.Roundtrip.{FitsIn}
use ttstringgolangiot.Store.MapedFile.{MapedFile, append_message}
use ttstringgolangiot.Store.FileQueue.{last_file}
use ttstringgolangiot.Store.FileQueue.Last.{get_last_maped_file_open}
use ttstringgolangiot.Store.Append.{reset_msg_store_item_memory}
use ttstringgolangiot.Store.Append.Chunks.{concat, IsAppended, write_fits, write_all-IsAppended}
use ttstringgolangiot.Store.Check.{◌>>=◌}
use ttstringgolangiot.Store.Check.Steps.{IsAt, next_int, back_4, back_8}
use ttstringgolangiot.Store.Check.Appended.{reader_at, appended-IsAt}
use ttstringgolangiot.Store.ConsumeQueue.{
  ConsumeQueue, starts_late, blanked, unit_chunks, append_unit, put_message_postion_info, read_unit,
}

length-unit_chunks :
    (offset : ℕ) (size tags_code : ℤ) → length (concat (unit_chunks offset size tags_code)) ≡ 20
unfolding unit_chunks int_to_bytes
length-unit_chunks offset size tags_code =
    let a = int_to_bytes 8 (pos offset) in
    let b = int_to_bytes 4 size in
    let c = int_to_bytes 8 tags_code in
    omega (
      arith,
      length-append a (b ++ (c ++ [])),
      length-append b (c ++ []),
      length-append c [],
      length-be_bytes 8 (to_word 64 (pos offset)),
      length-be_bytes 4 (to_word 32 size),
      length-be_bytes 8 (to_word 64 tags_code),
    )

read_unit-IsAt :
    (offset : ℕ) (size tags_code : ℤ) (rest : List ℕ) (b : MappedByteBuffer)
    → offset < 2 ^ 63
    → FitsIn 32 size
    → FitsIn 64 tags_code
    → IsAt b (concat (unit_chunks offset size tags_code) ++ rest)
    → (b' : MappedByteBuffer) × (read_unit b ≡ some (((pos offset, size), tags_code), b'))
unfolding read_unit unit_chunks FitsIn
read_unit-IsAt offset size tags_code rest b o s t at =
    let (b₁, e₁, h₁) = next_int _ _ _ 8 (pos offset) (back_8 (pos offset) (omega arith)) at in
    let (b₂, e₂, h₂) = next_int _ _ _ 4 size (back_4 size s) h₁ in
    let (b₃, e₃, h₃) = next_int _ _ _ 8 tags_code (back_8 tags_code t) h₂ in
    (b₃, rw (read_unit, ◌>>=◌, e₁, e₂, e₃) refl)

append_fits :
    (bytes : List ℕ) (f : MapedFile)
    → f.wrote_position + length bytes ≤ f.file_size
    → f.mapped_byte_buffer.write_pos + length bytes ≤ f.mapped_byte_buffer.limit
    → f.mapped_byte_buffer.limit ≤ length f.mapped_byte_buffer.mmap_buf
    → (b : MappedByteBuffer) × (append_message bytes f
        ≡ some (
          true,
          record f { mapped_byte_buffer = b; wrote_position = f.wrote_position + length bytes },
        ))
      × IsAppended f.mapped_byte_buffer bytes b
unfolding append_message
append_fits bytes f room fits mapped =
    let (b, e, h) = write_fits bytes f.mapped_byte_buffer fits mapped in
    let left : leb (f.wrote_position + length bytes) f.file_size ≡ true = ground arith in
    (b, rw (append_message, left, e) refl, h)

-- Has the last file of the queue room for a unit, at the position of its buffer.
pub record HasUnitRoom (f : MapedFile) (q : ConsumeQueue) : Type 0 where
  pub is_last : last_file q.maped_file_queue.maped_files ≡ some f
  pub file_room : f.wrote_position + 20 ≤ f.file_size
  pub buffer_room : f.mapped_byte_buffer.write_pos + 20 ≤ f.mapped_byte_buffer.limit
  pub buffer_mapped : f.mapped_byte_buffer.limit ≤ length f.mapped_byte_buffer.mmap_buf
  pub index_room : 20 ≤ length q.byte_buffer_index.mmap_buf

-- When the last file has room for a unit and needs no blanks before it, and the offset is greater
-- than all before it, then putting the unit succeeds, the last file is longer by the twenty bytes,
-- the offset is the greatest now, and a read of the unit at its place gives the offset, the size
-- and the code of the tags.
pub read_unit-put_message_postion_info :
    (create : ℕ → ℕ → Option MapedFile) (offset : ℕ) (size tags_code : ℤ) (cq_offset : ℕ)
    (f : MapedFile) (q : ConsumeQueue)
    → HasUnitRoom f q
    → starts_late cq_offset f ≡ false
    → ltb_ℤ q.max_physic_offset (pos offset) ≡ true
    → offset < 2 ^ 63
    → FitsIn 32 size
    → FitsIn 64 tags_code
    → (b : MappedByteBuffer) × (q' : ConsumeQueue) × (b' : MappedByteBuffer)
      × (put_message_postion_info create offset size tags_code cq_offset q ≡ some (true, q'))
      × (q'.maped_file_queue.maped_files
          ≡ set q.maped_file_queue.maped_files
              (length q.maped_file_queue.maped_files - 1)
              (record f { mapped_byte_buffer = b; wrote_position = f.wrote_position + 20 }))
      × (q'.max_physic_offset ≡ pos offset)
      × (read_unit (reader_at f.mapped_byte_buffer.write_pos b)
          ≡ some (((pos offset, size), tags_code), b'))
unfolding put_message_postion_info append_unit blanked reset_msg_store_item_memory
read_unit-put_message_postion_info create offset size tags_code cq_offset f q room late new o s t =
    let unit = concat (unit_chunks offset size tags_code) in
    let n = length-unit_chunks offset size tags_code in
    let (index, e, h) =
      write_all-IsAppended (unit_chunks offset size tags_code)
        (reset_msg_store_item_memory 20 q.byte_buffer_index) (omega (arith, n))
        (omega (arith, room.index_room)) in
    let (b, e', k) =
      append_fits unit f (omega (arith, n, room.file_room)) (omega (arith, n, room.buffer_room))
        room.buffer_mapped in
    let opened =
      get_last_maped_file_open create (cq_offset * 20) q.maped_file_queue f room.is_last
        (omega (arith, room.file_room)) in
    let (b', r) =
      read_unit-IsAt offset size tags_code (drop b.write_pos b.mmap_buf)
        (reader_at f.mapped_byte_buffer.write_pos b) o s t
        (appended-IsAt f.mapped_byte_buffer unit b
          (omega (arith, room.buffer_room, room.buffer_mapped)) k) in
    (
      b,
      record q {
        maped_file_queue = record (q.maped_file_queue) {
          maped_files =
              set q.maped_file_queue.maped_files (length q.maped_file_queue.maped_files - 1)
                (record f { mapped_byte_buffer = b; wrote_position = f.wrote_position + 20 });
        };
        byte_buffer_index = index;
        max_physic_offset = pos offset;
      },
      b',
      rw
          (
            put_message_postion_info, new, e, opened, append_unit, blanked, late, h.bytes_there, e',
            n, opened, late,
          )
          refl,
      refl,
      refl,
      r,
    )
