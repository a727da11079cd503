-- ===== src/Store/Buffer.antt =====
-- MappedByteBuffer (stgstorelog/mapped_bytebuffer.go) and the conversions that it uses
-- (stgcommon/utils/byteutil): the mapped bytes with a position to read at and one to write at.
-- `Flush` and `Unmap` of the mapping are the operating system's.
pub mod Roundtrip
use ttstringgolangiot.Base.{
  ℕ, ◌+◌, ◌-◌, ◌*◌, Option, none, some, List, ◌++◌, ltb, if◌then◌else◌, length, take, drop,
  replicate,
}
use ttstringgolangiot.Base.Int.{ℤ}
use ttstringgolangiot.Base.Bytes.{be_bytes, be_value, to_word, of_word}

pub record MappedByteBuffer : Type 0 where
  pub mmap_buf : List ℕ
  pub read_pos : ℕ
  pub write_pos : ℕ
  pub limit : ℕ

-- `NewMappedByteBuffer`, of a slice and its capacity.
unfoldable pub new_mapped_byte_buffer : List ℕ → ℕ → MappedByteBuffer
new_mapped_byte_buffer mmap cap = record {
  mmap_buf = mmap;
  read_pos = 0;
  write_pos = 0;
  limit = cap;
}

-- An error leaves the buffer as it was. A write past the slice's length panics.
pub data Write : Type 0 where
  wrote : ℕ → MappedByteBuffer → Write
  refused : Write
  out_of_range : Write

unfoldable pub write : List ℕ → MappedByteBuffer → Write
write bytes b =
    if ltb b.limit (b.write_pos + length bytes)
    then refused
    else if ltb (length b.mmap_buf) (b.write_pos + length bytes)
    then out_of_range
    else wrote (length bytes) (record b {
      mmap_buf =
          take b.write_pos b.mmap_buf ++ (bytes ++ drop (b.write_pos + length bytes) b.mmap_buf);
      write_pos = b.write_pos + length bytes;
    })

-- `Int8ToBytes` to `Int64ToBytes`, and back, by the number of bytes.
unfoldable pub int_to_bytes : ℕ → ℤ → List ℕ
int_to_bytes k i = be_bytes k (to_word (8 * k) i)

unfoldable pub bytes_to_int : ℕ → List ℕ → ℤ
bytes_to_int k bytes = of_word (8 * k) (be_value bytes)

-- The buffer after `WriteInt8` to `WriteInt64`, which do not look at the error.
abbrev pub after_write : MappedByteBuffer → Write → Option MappedByteBuffer
after_write b (wrote n b') = some b'
after_write b refused = some b
after_write b out_of_range = none

unfoldable pub write_int : ℕ → ℤ → MappedByteBuffer → Option MappedByteBuffer
write_int k i b = after_write b (write (int_to_bytes k i) b)

-- `Read` into a slice of `n` bytes: what is copied. A position past the slice panics.
unfoldable pub read : ℕ → MappedByteBuffer → Option (List ℕ × MappedByteBuffer)
read n b =
    let bytes = take n (drop b.read_pos b.mmap_buf) in
    if ltb (length b.mmap_buf) b.read_pos
    then none
    else some (bytes, record b { read_pos = b.read_pos + length bytes })

-- `ReadInt8` to `ReadInt64`: the bytes that are not there are zero.
unfoldable pub read_int : ℕ → MappedByteBuffer → Option (ℤ × MappedByteBuffer)
read_int k b = elim (read k b) [
  | none ↦ none
  | some (bytes, b') ↦ some (bytes_to_int k (bytes ++ replicate (k - length bytes) 0), b')
]

pub flip : MappedByteBuffer → MappedByteBuffer
flip b = record b { limit = b.write_pos; write_pos = 0 }

pub set_limit : ℕ → MappedByteBuffer → MappedByteBuffer
set_limit n b = record b { limit = n; write_pos = if ltb n b.write_pos then n else b.write_pos }
