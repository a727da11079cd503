-- ===== src/Store/IndexFile.antt =====
-- IndexFile (stgstorelog/index_file.go): the hash index of a range of the commit log. `none` is a
-- panic. The hash of `hash/fnv` is a parameter.
pub mod Slots
use ttstringgolangiot.Store.IndexHeader.{
  index_header_size, hash_slot_size, index_size, IndexHeader, new_index_header, set_begin_timestamp,
  set_end_timestamp, set_begin_phy_offset, set_end_phy_offset, inc_hash_slot_count, inc_index_count,
}
use ttstringgolangiot.Base.{
  ℕ, suc, ◌+◌, ◌*◌, ◌/◌, ◌%◌, ◌^◌, Bool, true, false, not, ◌||◌, Option, none, some, List, [], ◌∷◌,
  leb, if◌then◌else◌, replicate,
}
use ttstringgolangiot.Base.Int.{ℤ, pos, negsuc, ◌+ℤ◌, ◌-ℤ◌, ◌*ℤ◌, ltb_ℤ}
use ttstringgolangiot.Base.Bytes.{of_word}
use ttstringgolangiot.Store.Buffer.{
  MappedByteBuffer, new_mapped_byte_buffer, int_to_bytes, read_int, write_int,
}
use ttstringgolangiot.Store.Append.{write_all}
use ttstringgolangiot.Store.Check.{◌>>=◌, wrap}

-- The buffer is that of the mapped file; the header has one of its own.
pub record IndexFile : Type 0 where
  pub hash_slot_num : ℕ
  pub index_num : ℕ
  pub mapped_byte_buffer : MappedByteBuffer
  pub index_header : IndexHeader

abbrev pub then_header :
    (IndexHeader → Option IndexHeader) → Option IndexHeader → Option IndexHeader
then_header f none = none
then_header f (some h) = f h

abbrev pub set_if_positive :
    ℤ → (IndexHeader → Option IndexHeader) → Option IndexHeader → Option IndexHeader
set_if_positive n f h = if ltb_ℤ (pos 0) n then then_header f h else h

abbrev pub index_file_of : ℕ → ℕ → MappedByteBuffer → Option IndexHeader → Option IndexFile
index_file_of slots indexes b none = none
index_file_of slots indexes b (some h) = some (record {
  hash_slot_num = slots;
  index_num = indexes;
  mapped_byte_buffer = b;
  index_header = h;
})

-- `NewIndexFile`, of the buffer of its mapped file.
pub new_index_file : ℕ → ℕ → ℤ → ℤ → MappedByteBuffer → Option IndexFile
new_index_file slots indexes end_phy_offset end_timestamp b =
    let total = index_header_size + slots * hash_slot_size + indexes * index_size in
    let header = new_index_header (new_mapped_byte_buffer (replicate total 0) total) in
    let with_offset =
      set_if_positive end_phy_offset
        (λ h.
          then_header (set_end_phy_offset end_phy_offset) (set_begin_phy_offset end_phy_offset h))
        (some header) in
    index_file_of slots indexes b (
      set_if_positive end_timestamp
        (λ h. then_header (set_end_timestamp end_timestamp) (set_begin_timestamp end_timestamp h))
        with_offset)

unfoldable pub is_write_full : IndexFile → Bool
is_write_full f = not (ltb_ℤ f.index_header.index_count (pos f.index_num))

-- `indexKeyHashMethod`: the absolute value, by way of a float64. That of -2^31 is out of range as an
-- int32; the word is what amd64 gives.
unfoldable pub index_key_hash_method : ℤ → ℤ
index_key_hash_method (pos n) = pos n
index_key_hash_method (negsuc n) = of_word 32 (suc n % 2 ^ 32)

-- Go's `%` and `/` on a signed integer.
abbrev pub remainder : ℤ → ℕ → ℤ
remainder (pos n) m = pos (n % m)
remainder (negsuc n) m = pos 0 -ℤ pos (suc n % m)

abbrev pub quotient : ℤ → ℕ → ℤ
quotient (pos n) m = pos (n / m)
quotient (negsuc n) m = pos 0 -ℤ pos (suc n / m)

unfoldable pub time_diff : ℤ → ℤ → ℤ
time_diff begin_timestamp store_timestamp =
    let diff = quotient (wrap 64 (store_timestamp -ℤ begin_timestamp)) 1000 in
    if not (ltb_ℤ (pos 0) begin_timestamp)
    then pos 0
    else if ltb_ℤ (pos 2147483647) diff
    then pos 2147483647
    else if ltb_ℤ diff (pos 0)
    then pos 0
    else diff

-- A slot that does not name an index is invalid.
abbrev pub valid_slot : ℤ → ℤ → ℤ
valid_slot count slot = if not (ltb_ℤ (pos 0) slot) || ltb_ℤ count slot then pos 0 else slot

-- A position below 0 panics.
abbrev pub read_at : ℕ → ℤ → MappedByteBuffer → Option (ℤ × MappedByteBuffer)
read_at k (pos p) b = read_int k (record b { read_pos = p })
read_at k (negsuc p) b = none

unfoldable pub index_chunks : ℤ → ℤ → ℤ → ℤ → List (List ℕ)
index_chunks key_hash phy_offset diff slot =
    int_to_bytes 4 key_hash
    ∷ int_to_bytes 8 phy_offset
    ∷ int_to_bytes 4 diff
    ∷ int_to_bytes 4 slot
    ∷ []

-- The index is written; then the count goes to the place of the index, and not of the slot.
unfoldable pub write_index : ℤ → List (List ℕ) → ℤ → MappedByteBuffer → Option MappedByteBuffer
write_index (negsuc p) chunks count b = none
write_index (pos p) chunks count b = elim (write_all chunks (record b { write_pos = p })) [
  | none ↦ none
  | some b' ↦ elim (write_int 4 count (record b' { write_pos = p })) [
    | none ↦ none
    | some b'' ↦ some (record b'' { write_pos = b'.write_pos })
  ]
]

-- The header after a key was put.
unfoldable pub header_after : ℤ → ℤ → IndexHeader → Option IndexHeader
header_after phy_offset store_timestamp h =
    let first : IndexHeader = record h {
      begin_phy_offset = phy_offset;
      begin_timestamp = store_timestamp;
    } in
    let h' : IndexHeader = if ltb_ℤ (pos 1) h.index_count then h else first in
    elim (then_header inc_index_count (inc_hash_slot_count h')) [
      | none ↦ none
      | some g ↦ some (record g { end_phy_offset = phy_offset; end_timestamp = store_timestamp })
    ]

abbrev pub put_end : IndexFile → MappedByteBuffer → Option IndexHeader → Option (Bool × IndexFile)
put_end f b none = none
put_end f b (some h) = some (true, record f { mapped_byte_buffer = b; index_header = h })

-- `putKey` where there is room, by the hash of the key and the count of the indexes.
unfoldable pub put_at : ℤ → ℤ → ℤ → ℤ → IndexFile → Option (Bool × IndexFile)
put_at key_hash phy_offset store_timestamp count f =
    let slot_pos =
      pos index_header_size +ℤ (remainder key_hash f.hash_slot_num *ℤ pos hash_slot_size) in
    let index_pos =
      pos (index_header_size + f.hash_slot_num * hash_slot_size) +ℤ (count *ℤ pos index_size) in
    elim (read_at 4 slot_pos f.mapped_byte_buffer) [
      | none ↦ none
      | some (slot, b) ↦
          elim (write_index index_pos
            (index_chunks key_hash phy_offset
              (time_diff f.index_header.begin_timestamp store_timestamp) (valid_slot count slot))
            count b) [
              | none ↦ none
              | some b' ↦ put_end f b' (header_after phy_offset store_timestamp f.index_header)
            ]
    ]

-- `putKey`, of a key with the given hash. No slots panic.
unfoldable pub put_key : ℤ → ℤ → ℤ → IndexFile → Option (Bool × IndexFile)
put_key hash phy_offset store_timestamp f =
    let put =
      put_at (index_key_hash_method hash) phy_offset store_timestamp f.index_header.index_count f in
    if is_write_full f then some (false, f) else if leb f.hash_slot_num 0 then none else put
