-- ===== src/Store/IndexFile/Slots.antt =====
-- What putting a key does to the slots of an index file.
use native.Mathlib.Nat.{mod-lt}
use ttstringgolangiot.Base.{
  ℕ, ◌+◌, ◌-◌, ◌*◌, ◌%◌, ◌≤◌, ◌<◌, ◌≡◌, refl, ap, ap₂, ◌∙◌, not, true, false, some, List, ◌++◌,
  arith, ltb, leb, length, take, drop, replicate, inl, inr, Bool-cases,
}
use ttstringgolangiot.Base.Int.{ℤ, pos, ◌+ℤ◌, ◌*ℤ◌, ltb_ℤ}
use ttstringgolangiot.Store.Check.{wrap}
use ttstringgolangiot.Store.Buffer.{
  MappedByteBuffer, read, read_int, write, write_int, int_to_bytes, bytes_to_int,
}
use ttstringgolangiot.Store.Append.Chunks.{concat, write_fits, write_all-IsAppended}
use ttstringgolangiot.Store.Append.Put.{length-++, length-int_to_bytes}
use ttstringgolangiot.Store.Check.Appended.{appended-before}
use ttstringgolangiot.Store.IndexFile.{
  IndexFile, index_key_hash_method, is_write_full, index_chunks, write_index, header_after, put_key,
  put_at, then_header, time_diff, valid_slot,
}
use ttstringgolangiot.Store.IndexHeader.{IndexHeader, inc_hash_slot_count, inc_index_count}

read_int_inside :
    (k : ℕ) (b : MappedByteBuffer)
    → b.read_pos ≤ length b.mmap_buf
    → (i : ℤ) × (r : ℕ) × (read_int k b ≡ some (i, record b { read_pos = r }))
unfolding read_int read
read_int_inside k b h =
    let inside : ltb (length b.mmap_buf) b.read_pos ≡ false = ground arith in
    let bytes = take k (drop b.read_pos b.mmap_buf) in
    (
      bytes_to_int k (bytes ++ replicate (k - length bytes) 0),
      b.read_pos + length bytes,
      rw (read_int, read, inside) refl,
    )

-- Writing an integer to a buffer whose limit its bytes reach does not panic.
write_int_returns :
    (k : ℕ) (i : ℤ) (b : MappedByteBuffer)
    → b.limit ≤ length b.mmap_buf
    → (b' : MappedByteBuffer) × (write_int k i b ≡ some b') × (b'.limit ≤ length b'.mmap_buf)
unfolding write_int write
write_int_returns k i b h =
    elim (Bool-cases (ltb b.limit (b.write_pos + length (int_to_bytes k i)))) [
      | inl over ↦ (b, rw (write_int, write, over) refl, h)
      | inr inside ↦
          let (b', e, a) = write_fits (int_to_bytes k i) b (ground arith) h in
          (b', rw (write_int, e) refl, omega (arith, a.limit_kept, a.size_kept))
    ]

length-index_chunks :
    (key_hash phy_offset diff slot : ℤ)
    → length (concat (index_chunks key_hash phy_offset diff slot)) ≡ 20
unfolding index_chunks
length-index_chunks key_hash phy_offset diff slot = omega (arith, length-++, length-int_to_bytes)

write_index-before :
    (p : ℕ) (chunks : List (List ℕ)) (count : ℤ) (b : MappedByteBuffer)
    → length (concat chunks) ≡ 20
    → p + 20 ≤ b.limit
    → b.limit ≤ length b.mmap_buf
    → (b' : MappedByteBuffer) × (write_index (pos p) chunks count b ≡ some b')
      × (take p b'.mmap_buf ≡ take p b.mmap_buf)
unfolding write_index write_int
write_index-before p chunks count b n room mapped =
    let start : MappedByteBuffer = record b { write_pos = p } in
    let (b₁, e₁, h₁) = write_all-IsAppended chunks start (omega (arith, n)) mapped in
    let again : MappedByteBuffer = record b₁ { write_pos = p } in
    let m = length-int_to_bytes 4 count in
    let (b₂, e₂, h₂) =
      write_fits (int_to_bytes 4 count) again (omega (arith, m, h₁.limit_kept))
        (omega (arith, h₁.limit_kept, h₁.size_kept)) in
    (
      record b₂ { write_pos = b₁.write_pos },
      rw (write_index, e₁, write_int, e₂) refl,
      appended-before again (int_to_bytes 4 count) b₂ (omega (arith, h₁.size_kept)) h₂
          ∙ appended-before start (concat chunks) b₁ (omega arith) h₁,
    )

counts_return :
    (h : IndexHeader)
    → h.mapped_byte_buffer.limit ≤ length h.mapped_byte_buffer.mmap_buf
    → (h' : IndexHeader) × (then_header inc_index_count (inc_hash_slot_count h) ≡ some h')
unfolding inc_hash_slot_count inc_index_count
counts_return h mapped =
    let slots = wrap 32 (h.hash_slot_count +ℤ pos 1) in
    let indexes = wrap 32 (h.index_count +ℤ pos 1) in
    let (b₁, e₁, m₁) = write_int_returns 4 slots h.mapped_byte_buffer mapped in
    let (b₂, e₂, m₂) = write_int_returns 4 indexes b₁ m₁ in
    (
      record h { mapped_byte_buffer = b₂; hash_slot_count = slots; index_count = indexes },
      rw (inc_hash_slot_count, e₁, inc_index_count, e₂) refl,
    )

header_after_returns :
    (phy_offset store_timestamp : ℤ) (h : IndexHeader)
    → h.mapped_byte_buffer.limit ≤ length h.mapped_byte_buffer.mmap_buf
    → (h' : IndexHeader) × (header_after phy_offset store_timestamp h ≡ some h')
unfolding header_after
header_after_returns phy_offset store_timestamp h mapped =
    let first : IndexHeader = record h {
      begin_phy_offset = phy_offset;
      begin_timestamp = store_timestamp;
    } in
    elim (Bool-cases (ltb_ℤ (pos 1) h.index_count)) [
      | inl later ↦
          let (g, e) = counts_return h mapped in
          (
            record g { end_phy_offset = phy_offset; end_timestamp = store_timestamp },
            rw (header_after, later, e) refl,
          )
      | inr early ↦
          let (g, e) = counts_return first mapped in
          (
            record g { end_phy_offset = phy_offset; end_timestamp = store_timestamp },
            rw (header_after, early, e) refl,
          )
    ]

index_position :
    (slots n : ℕ) → pos (40 + slots * 4) +ℤ (pos n *ℤ pos 20) ≡ pos (40 + slots * 4 + n * 20)
unfolding ◌+ℤ◌ ◌*ℤ◌
index_position slots n = ground arith

slot_position : (k : ℕ) → pos 40 +ℤ (pos k *ℤ pos 4) ≡ pos (40 + k * 4)
unfolding ◌+ℤ◌ ◌*ℤ◌
slot_position k = ground arith

put_at_slots :
    (phy_offset store_timestamp : ℤ) (h n : ℕ) (f : IndexFile)
    → 0 < f.hash_slot_num
    → 40 + f.hash_slot_num * 4 + n * 20 + 20 ≤ f.mapped_byte_buffer.limit
    → f.mapped_byte_buffer.limit ≤ length f.mapped_byte_buffer.mmap_buf
    → f.index_header.mapped_byte_buffer.limit ≤ length f.index_header.mapped_byte_buffer.mmap_buf
    → (f' : IndexFile) × (put_at (pos h) phy_offset store_timestamp (pos n) f ≡ some (true, f'))
      × (take (40 + f.hash_slot_num * 4 + n * 20) f'.mapped_byte_buffer.mmap_buf
          ≡ take (40 + f.hash_slot_num * 4 + n * 20) f.mapped_byte_buffer.mmap_buf)
unfolding put_at
put_at_slots phy_offset store_timestamp h n f some_slots room mapped header =
    let slot_at = h % f.hash_slot_num in
    let slot_less : slot_at < f.hash_slot_num = mod-lt h some_slots in
    let (slot, r, read_) =
      read_int_inside 4 (record (f.mapped_byte_buffer) { read_pos = 40 + slot_at * 4 })
        (omega (arith, slot_less)) in
    let diff = time_diff f.index_header.begin_timestamp store_timestamp in
    let chunks = index_chunks (pos h) phy_offset diff (valid_slot (pos n) slot) in
    let (b, wrote_, kept) =
      write_index-before (40 + f.hash_slot_num * 4 + n * 20) chunks (pos n)
        (record (f.mapped_byte_buffer) { read_pos = r })
        (length-index_chunks (pos h) phy_offset diff (valid_slot (pos n) slot)) room mapped in
    let (h', after) = header_after_returns phy_offset store_timestamp f.index_header header in
    (
      record f { mapped_byte_buffer = b; index_header = h' },
      rw (put_at, slot_position slot_at, read_, index_position f.hash_slot_num n, wrote_, after)
          refl,
      kept,
    )

not_full :
    (n : ℕ) (f : IndexFile)
    → f.index_header.index_count ≡ pos n
    → n < f.index_num
    → is_write_full f ≡ false
unfolding is_write_full
not_full n f count left = ap (λ c. not (ltb_ℤ c (pos f.index_num))) count ∙ ground arith

-- When there is room for one more index, the hash of the key is not negative and no buffer ends
-- before its limit, then putting the key succeeds and leaves every byte before the new index as it
-- was: the slot of the key, which lies before it, is not written.
pub put_key-slots :
    (hash phy_offset store_timestamp : ℤ) (h n : ℕ) (f : IndexFile)
    → index_key_hash_method hash ≡ pos h
    → f.index_header.index_count ≡ pos n
    → n < f.index_num
    → 0 < f.hash_slot_num
    → 40 + f.hash_slot_num * 4 + n * 20 + 20 ≤ f.mapped_byte_buffer.limit
    → f.mapped_byte_buffer.limit ≤ length f.mapped_byte_buffer.mmap_buf
    → f.index_header.mapped_byte_buffer.limit ≤ length f.index_header.mapped_byte_buffer.mmap_buf
    → (f' : IndexFile) × (put_key hash phy_offset store_timestamp f ≡ some (true, f'))
      × (take (40 + f.hash_slot_num * 4 + n * 20) f'.mapped_byte_buffer.mmap_buf
          ≡ take (40 + f.hash_slot_num * 4 + n * 20) f.mapped_byte_buffer.mmap_buf)
unfolding put_key
put_key-slots hash phy_offset store_timestamp h n f e count left some_slots room mapped header =
    let (f', put, kept) =
      put_at_slots phy_offset store_timestamp h n f some_slots room mapped header in
    let slots : leb f.hash_slot_num 0 ≡ false = ground arith in
    (
      f',
      rw (put_key, not_full n f count left, slots)
          (ap₂ (λ k c. put_at k phy_offset store_timestamp c f) e count ∙ put),
      kept,
    )
