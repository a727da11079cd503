-- ===== src/Store/IndexHeader.antt =====
-- IndexHeader (stgstorelog/index_header.go): the counts and bounds of an index file, in a buffer.
-- `none` is a panic.
pub mod Roundtrip
use ttstringgolangiot.Base.{ℕ, Option, none, some, List, [], ◌∷◌, if◌then◌else◌}
use ttstringgolangiot.Base.Int.{ℤ, pos, ◌+ℤ◌, ltb_ℤ}
use ttstringgolangiot.Store.Buffer.{MappedByteBuffer, int_to_bytes, read_int, write_int}
use ttstringgolangiot.Store.Append.{write_all}
use ttstringgolangiot.Store.Check.{Reading, ◌>>=◌, wrap}

abbrev pub index_header_size : ℕ
index_header_size = 40

abbrev pub hash_slot_size : ℕ
hash_slot_size = 4

abbrev pub index_size : ℕ
index_size = 20

pub record IndexHeader : Type 0 where
  pub mapped_byte_buffer : MappedByteBuffer
  pub begin_timestamp : ℤ
  pub end_timestamp : ℤ
  pub begin_phy_offset : ℤ
  pub end_phy_offset : ℤ
  pub hash_slot_count : ℤ
  pub index_count : ℤ

-- `NewIndexHeader`.
pub new_index_header : MappedByteBuffer → IndexHeader
new_index_header b = record {
  mapped_byte_buffer = b;
  begin_timestamp = pos 0;
  end_timestamp = pos 0;
  begin_phy_offset = pos 0;
  end_phy_offset = pos 0;
  hash_slot_count = pos 0;
  index_count = pos 0;
}

-- An index count that is not positive counts one up.
abbrev pub counted_up : ℤ → ℤ
counted_up n = if ltb_ℤ (pos 0) n then n else wrap 32 (n +ℤ pos 1)

unfoldable pub read_header : Reading IndexHeader
read_header = do
  begin_timestamp ← read_int 8
  end_timestamp ← read_int 8
  begin_phy_offset ← read_int 8
  end_phy_offset ← read_int 8
  hash_slot_count ← read_int 4
  index_count ← read_int 4
  λ b. some (
    record {
      mapped_byte_buffer = b;
      begin_timestamp = begin_timestamp;
      end_timestamp = end_timestamp;
      begin_phy_offset = begin_phy_offset;
      end_phy_offset = end_phy_offset;
      hash_slot_count = hash_slot_count;
      index_count = counted_up index_count;
    },
    b,
  )

abbrev pub loaded : Option (IndexHeader × MappedByteBuffer) → Option IndexHeader
loaded none = none
loaded (some (h, b)) = some h

unfoldable pub load_header : IndexHeader → Option IndexHeader
load_header h = loaded (read_header (record (h.mapped_byte_buffer) { read_pos = 0 }))

abbrev pub with_buffer : IndexHeader → Option MappedByteBuffer → Option IndexHeader
with_buffer h none = none
with_buffer h (some b) = some (record h { mapped_byte_buffer = b })

unfoldable pub header_chunks : IndexHeader → List (List ℕ)
header_chunks h =
    int_to_bytes 8 h.begin_timestamp
    ∷ int_to_bytes 8 h.end_timestamp
    ∷ int_to_bytes 8 h.begin_phy_offset
    ∷ int_to_bytes 8 h.end_phy_offset
    ∷ int_to_bytes 4 h.hash_slot_count
    ∷ int_to_bytes 4 h.index_count
    ∷ []

unfoldable pub update_byte_buffer : IndexHeader → Option IndexHeader
update_byte_buffer h =
    with_buffer h (write_all (header_chunks h) (record (h.mapped_byte_buffer) { write_pos = 0 }))

-- The setters write at the position of the buffer too.
pub set_begin_timestamp : ℤ → IndexHeader → Option IndexHeader
set_begin_timestamp t h =
    with_buffer (record h { begin_timestamp = t }) (write_int 8 t h.mapped_byte_buffer)

pub set_end_timestamp : ℤ → IndexHeader → Option IndexHeader
set_end_timestamp t h =
    with_buffer (record h { end_timestamp = t }) (write_int 8 t h.mapped_byte_buffer)

pub set_begin_phy_offset : ℤ → IndexHeader → Option IndexHeader
set_begin_phy_offset o h =
    with_buffer (record h { begin_phy_offset = o }) (write_int 8 o h.mapped_byte_buffer)

pub set_end_phy_offset : ℤ → IndexHeader → Option IndexHeader
set_end_phy_offset o h =
    with_buffer (record h { end_phy_offset = o }) (write_int 8 o h.mapped_byte_buffer)

unfoldable pub inc_hash_slot_count : IndexHeader → Option IndexHeader
inc_hash_slot_count h =
    let n = wrap 32 (h.hash_slot_count +ℤ pos 1) in
    with_buffer (record h { hash_slot_count = n }) (write_int 4 n h.mapped_byte_buffer)

unfoldable pub inc_index_count : IndexHeader → Option IndexHeader
inc_index_count h =
    let n = wrap 32 (h.index_count +ℤ pos 1) in
    with_buffer (record h { index_count = n }) (write_int 4 n h.mapped_byte_buffer)
