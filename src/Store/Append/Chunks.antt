-- ===== src/Store/Append/Chunks.antt =====
-- Writing the chunks of a record one after another, and the record to a file.
use ttstringgolangiot.Base.{
  ℕ, ◌+◌, ◌≤◌, ◌≡◌, refl, sym, ap, ◌∙◌, false, some, List, [], ◌∷◌, ◌++◌, append_assoc, append-nil,
  arith, ltb, length, length-append, length-take, length-drop, take, drop,
}
use ttstringgolangiot.Store.Buffer.{MappedByteBuffer, write, wrote}
use ttstringgolangiot.Store.Buffer.Roundtrip.{written, take-append}
use ttstringgolangiot.Store.Append.{write_all, write_record, reset_msg_store_item_memory}

abbrev pub concat : List (List ℕ) → List ℕ
concat [] = []
concat (bytes ∷ chunks) = bytes ++ concat chunks

-- Is the second buffer the first with the bytes written at its position.
pub record IsAppended (b : MappedByteBuffer) (bytes : List ℕ) (b' : MappedByteBuffer) : Type 0 where
  pub position : b'.write_pos ≡ b.write_pos + length bytes
  pub limit_kept : b'.limit ≡ b.limit
  pub size_kept : length b'.mmap_buf ≡ length b.mmap_buf
  pub bytes_there : take b'.write_pos b'.mmap_buf ≡ take b.write_pos b.mmap_buf ++ bytes

written-IsAppended :
    (bytes : List ℕ) (b : MappedByteBuffer)
    → b.write_pos + length bytes ≤ length b.mmap_buf
    → IsAppended b bytes (written bytes b)
unfolding written
written-IsAppended bytes b h =
    let before = take b.write_pos b.mmap_buf in
    let after = drop (b.write_pos + length bytes) b.mmap_buf in
    let n : length (before ++ bytes) ≡ b.write_pos + length bytes =
      omega (arith, length-append before bytes, length-take b.write_pos b.mmap_buf) in
    record {
      position = refl;
      limit_kept = refl;
      size_kept = omega (
        arith,
        length-append before (bytes ++ after),
        length-append bytes after,
        length-take b.write_pos b.mmap_buf,
        length-drop (b.write_pos + length bytes) b.mmap_buf,
      );
      bytes_there =
          ap (take (b.write_pos + length bytes)) (sym (append_assoc before bytes after))
          ∙ take-append (before ++ bytes) after (b.write_pos + length bytes) (sym n);
    }

-- A write that fits.
pub write_fits :
    (bytes : List ℕ) (b : MappedByteBuffer)
    → b.write_pos + length bytes ≤ b.limit
    → b.limit ≤ length b.mmap_buf
    → (b' : MappedByteBuffer) × (write bytes b ≡ wrote (length bytes) b') × IsAppended b bytes b'
unfolding write written
write_fits bytes b fits mapped =
    let inside : ltb b.limit (b.write_pos + length bytes) ≡ false = ground arith in
    let inside' : ltb (length b.mmap_buf) (b.write_pos + length bytes) ≡ false = ground arith in
    (written bytes b, rw (write, inside, inside') refl, written-IsAppended bytes b (omega arith))

IsAppended-trans :
    (b b' b'' : MappedByteBuffer) (xs ys : List ℕ)
    → IsAppended b xs b'
    → IsAppended b' ys b''
    → IsAppended b (xs ++ ys) b''
IsAppended-trans b b' b'' xs ys h k = record {
  position = omega (arith, h.position, k.position, length-append xs ys);
  limit_kept = k.limit_kept ∙ h.limit_kept;
  size_kept = k.size_kept ∙ h.size_kept;
  bytes_there =
      k.bytes_there
      ∙ ap (λ zs. zs ++ ys) h.bytes_there
      ∙ append_assoc (take b.write_pos b.mmap_buf) xs ys;
}

IsAppended-refl : (b : MappedByteBuffer) → IsAppended b [] b
IsAppended-refl b = record {
  position = omega arith;
  limit_kept = refl;
  size_kept = refl;
  bytes_there = sym (append-nil (take b.write_pos b.mmap_buf));
}

pub write_all-IsAppended :
    (chunks : List (List ℕ)) (b : MappedByteBuffer)
    → b.write_pos + length (concat chunks) ≤ b.limit
    → b.limit ≤ length b.mmap_buf
    → (b' : MappedByteBuffer) × (write_all chunks b ≡ some b') × IsAppended b (concat chunks) b'
unfolding write_all
write_all-IsAppended [] b fits mapped = (b, refl, IsAppended-refl b)
write_all-IsAppended (bytes ∷ chunks) b fits mapped =
    let n = length-append bytes (concat chunks) in
    let (b', e, one) = write_fits bytes b (omega (arith, n)) mapped in
    let (b'', e', rest) =
      write_all-IsAppended chunks b' (omega (arith, n, one.position, one.limit_kept))
        (omega (arith, one.limit_kept, one.size_kept)) in
    (b'', rw (write_all, e, e') refl, IsAppended-trans b b' b'' bytes (concat chunks) one rest)

-- A record of the length that its chunks have goes to the file, when the memory and the file have
-- room for it.
pub write_record-IsAppended :
    (chunks : List (List ℕ)) (n : ℕ) (memory file : MappedByteBuffer)
    → length (concat chunks) ≡ n
    → n ≤ length memory.mmap_buf
    → file.write_pos + n ≤ file.limit
    → file.limit ≤ length file.mmap_buf
    → (memory' : MappedByteBuffer) × (file' : MappedByteBuffer) × (write_record n chunks memory file
        ≡ some (memory', file'))
      × (length memory'.mmap_buf ≡ length memory.mmap_buf)
      × IsAppended file (concat chunks) file'
unfolding write_record reset_msg_store_item_memory
write_record-IsAppended chunks n memory file all room fits mapped =
    let (memory', e, h) =
      write_all-IsAppended chunks (reset_msg_store_item_memory n memory) (omega (arith, all))
        (omega arith) in
    let (file', e', k) = write_fits (concat chunks) file (omega (arith, all)) mapped in
    (memory', file', rw (write_record, e, h.bytes_there, e') refl, h.size_kept, k)
