-- ===== src/Store/IndexHeader/Roundtrip.antt =====
-- Writing the header of an index file and loading it.
use ttstringgolangiot.Base.{ℕ, ◌≤◌, ◌≡◌, refl, true, some, List, ◌++◌, arith, length, drop}
use ttstringgolangiot.Base.Int.{pos, ltb_ℤ}
use ttstringgolangiot.Store.Buffer.{MappedByteBuffer}
use ttstringgolangiot.Store.Buffer.Roundtrip.{FitsIn}
use ttstringgolangiot.Store.Append.Chunks.{concat, write_all-IsAppended}
use ttstringgolangiot.Store.Append.Put.{length-++, length-int_to_bytes}
use ttstringgolangiot.Store.Check.{◌>>=◌}
use ttstringgolangiot.Store.Check.Steps.{IsAt, next_int, back_4, back_8}
use ttstringgolangiot.Store.Check.Appended.{reader_at, appended-IsAt}
use ttstringgolangiot.Store.IndexHeader.{
  IndexHeader, read_header, load_header, header_chunks, update_byte_buffer,
}

-- Do the fields of a header fit their integers, and is the count of its indexes positive.
pub record IsHeader (h : IndexHeader) : Type 0 where
  pub begin_fits : FitsIn 64 h.begin_timestamp
  pub end_fits : FitsIn 64 h.end_timestamp
  pub begin_offset_fits : FitsIn 64 h.begin_phy_offset
  pub end_offset_fits : FitsIn 64 h.end_phy_offset
  pub slots_fit : FitsIn 32 h.hash_slot_count
  pub count_fits : FitsIn 32 h.index_count
  pub count_positive : ltb_ℤ (pos 0) h.index_count ≡ true
  pub room : 40 ≤ h.mapped_byte_buffer.limit
  pub mapped : h.mapped_byte_buffer.limit ≤ length h.mapped_byte_buffer.mmap_buf

length-header_chunks : (h : IndexHeader) → length (concat (header_chunks h)) ≡ 40
unfolding header_chunks
length-header_chunks h = omega (arith, length-++, length-int_to_bytes)

read_header-IsAt :
    (h : IndexHeader) (rest : List ℕ) (b : MappedByteBuffer)
    → IsHeader h
    → IsAt b (concat (header_chunks h) ++ rest)
    → (b' : MappedByteBuffer) × (read_header b ≡ some (record h { mapped_byte_buffer = b' }, b'))
unfolding read_header header_chunks
read_header-IsAt h rest b v at =
    let (b₁, e₁, h₁) =
      next_int _ _ _ 8 h.begin_timestamp (back_8 h.begin_timestamp v.begin_fits) at in
    let (b₂, e₂, h₂) = next_int _ _ _ 8 h.end_timestamp (back_8 h.end_timestamp v.end_fits) h₁ in
    let (b₃, e₃, h₃) =
      next_int _ _ _ 8 h.begin_phy_offset (back_8 h.begin_phy_offset v.begin_offset_fits) h₂ in
    let (b₄, e₄, h₄) =
      next_int _ _ _ 8 h.end_phy_offset (back_8 h.end_phy_offset v.end_offset_fits) h₃ in
    let (b₅, e₅, h₅) =
      next_int _ _ _ 4 h.hash_slot_count (back_4 h.hash_slot_count v.slots_fit) h₄ in
    let (b₆, e₆, h₆) = next_int _ _ _ 4 h.index_count (back_4 h.index_count v.count_fits) h₅ in
    (b₆, rw (read_header, ◌>>=◌, e₁, e₂, e₃, e₄, e₅, e₆, v.count_positive) refl)

-- When the fields of a header fit their integers, its buffer has room for the forty bytes and the
-- count of its indexes is positive, then loading a header of any values from the buffer that
-- `updateByteBuffer` wrote gives the fields that were written.
pub load_header-update_byte_buffer :
    (h other : IndexHeader)
    → IsHeader h
    → (h' : IndexHeader) × (b : MappedByteBuffer) × (update_byte_buffer h ≡ some h')
      × (load_header (record other { mapped_byte_buffer = h'.mapped_byte_buffer })
          ≡ some (record h { mapped_byte_buffer = b }))
unfolding update_byte_buffer load_header
load_header-update_byte_buffer h other v =
    let start : MappedByteBuffer = record (h.mapped_byte_buffer) { write_pos = 0 } in
    let n = length-header_chunks h in
    let (b, e, k) =
      write_all-IsAppended (header_chunks h) start (omega (arith, n, v.room)) v.mapped in
    let (b', r) =
      read_header-IsAt h (drop b.write_pos b.mmap_buf) (reader_at 0 b) v
        (appended-IsAt start (concat (header_chunks h)) b (omega arith) k) in
    (
      record h { mapped_byte_buffer = b },
      b',
      rw (update_byte_buffer, e) refl,
      rw (load_header, r) refl,
    )
