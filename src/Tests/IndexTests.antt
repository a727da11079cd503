-- ===== src/Tests/IndexTests.antt =====
-- The header of an index file.
use ttstringgolangiot.Base.{ℕ, ◌≡◌, refl, some, arith, replicate}
use ttstringgolangiot.Base.Int.{pos, negsuc}
use ttstringgolangiot.Store.Buffer.{MappedByteBuffer}
use ttstringgolangiot.Store.Buffer.Roundtrip.{FitsIn}
use ttstringgolangiot.Store.IndexHeader.{IndexHeader, update_byte_buffer, load_header}
use ttstringgolangiot.Store.IndexHeader.Roundtrip.{IsHeader, load_header-update_byte_buffer}

abbrev empty_buffer : ℕ → MappedByteBuffer
empty_buffer n = record { mmap_buf = replicate n 0; read_pos = 0; write_pos = 0; limit = n }

abbrev small_header : IndexHeader
small_header = record {
  mapped_byte_buffer = empty_buffer 40;
  begin_timestamp = pos 5;
  end_timestamp = pos 6;
  begin_phy_offset = pos 7;
  end_phy_offset = negsuc 0;
  hash_slot_count = pos 0;
  index_count = pos 1;
}

small_header-IsHeader : IsHeader small_header
unfolding FitsIn
small_header-IsHeader = record {
  begin_fits = omega arith;
  end_fits = omega arith;
  begin_offset_fits = omega arith;
  end_offset_fits = omega arith;
  slots_fit = omega arith;
  count_fits = omega arith;
  count_positive = refl;
  room = omega arith;
  mapped = omega arith;
}

load_header-update_byte_buffer_example :
    (h' : IndexHeader) × (b : MappedByteBuffer) × (update_byte_buffer small_header ≡ some h')
    × (load_header (record small_header { mapped_byte_buffer = h'.mapped_byte_buffer })
        ≡ some (record small_header { mapped_byte_buffer = b }))
load_header-update_byte_buffer_example =
    load_header-update_byte_buffer small_header small_header small_header-IsHeader
