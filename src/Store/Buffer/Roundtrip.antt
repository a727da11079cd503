-- ===== src/Store/Buffer/Roundtrip.antt =====
-- Reading at the place of a write.
use ttstringgolangiot.Base.{
  ℕ, zero, suc, ◌+◌, ◌-◌, ◌*◌, ◌%◌, ◌^◌, ◌≤◌, ◌<◌, ◌≡◌, refl, ap, subst, ◌∙◌, true, false, some,
  List, [], ◌∷◌, ◌++◌, append-nil, ltb, length, length-append, length-take, take, drop, replicate,
  arith,
}
use native.Mathlib.Nat.{mod-lt, mod-eq_of_lt}
use ttstringgolangiot.Base.Int.{ℤ, pos, negsuc}
use ttstringgolangiot.Base.Bytes.{length-be_bytes, be_value-be_bytes, to_word, of_word}
use ttstringgolangiot.Store.Buffer.{
  MappedByteBuffer, wrote, write, read, int_to_bytes, bytes_to_int, write_int, read_int,
}

pub take-append : (xs ys : List ℕ) (n : ℕ) → n ≡ length xs → take n (xs ++ ys) ≡ xs
take-append [] ys zero e = refl
take-append [] ys (suc n) e = absurd (omega arith)
take-append (x ∷ xs) ys zero e = absurd (omega arith)
take-append (x ∷ xs) ys (suc n) e = ap (λ l. x ∷ l) (take-append xs ys n (omega arith))

pub drop-append : (xs ys : List ℕ) (n : ℕ) → n ≡ length xs → drop n (xs ++ ys) ≡ ys
drop-append [] ys zero e = refl
drop-append [] ys (suc n) e = absurd (omega arith)
drop-append (x ∷ xs) ys zero e = absurd (omega arith)
drop-append (x ∷ xs) ys (suc n) e = drop-append xs ys n (omega arith)

-- The buffer after a write that fits.
unfoldable pub written : List ℕ → MappedByteBuffer → MappedByteBuffer
written bytes b = record b {
  mmap_buf = take b.write_pos b.mmap_buf ++ (bytes ++ drop (b.write_pos + length bytes) b.mmap_buf);
  write_pos = b.write_pos + length bytes;
}

-- A write that fits in the limit, which the mapped bytes reach, succeeds; it leaves the bytes
-- before the position, and a read at that position gives the bytes that were written.
pub read-write :
    (bytes : List ℕ) (b : MappedByteBuffer)
    → b.write_pos + length bytes ≤ b.limit
    → b.limit ≤ length b.mmap_buf
    → (b' : MappedByteBuffer) × (write bytes b ≡ wrote (length bytes) b')
      × (b'.write_pos ≡ b.write_pos + length bytes)
      × (take b.write_pos b'.mmap_buf ≡ take b.write_pos b.mmap_buf)
      × (read (length bytes) (record b' { read_pos = b.write_pos })
          ≡ some (bytes, record b' { read_pos = b.write_pos + length bytes }))
unfolding write read written
read-write bytes b fits mapped =
    let before = take b.write_pos b.mmap_buf in
    let after = drop (b.write_pos + length bytes) b.mmap_buf in
    let n : b.write_pos ≡ length before = omega (arith, length-take b.write_pos b.mmap_buf) in
    let inside : ltb b.limit (b.write_pos + length bytes) ≡ false = ground arith in
    let inside' : ltb (length b.mmap_buf) (b.write_pos + length bytes) ≡ false = ground arith in
    let reach : ltb (length (before ++ (bytes ++ after))) b.write_pos ≡ false =
      ground (arith, length-append before (bytes ++ after)) in
    (
      written bytes b,
      rw (write, inside, inside') refl,
      refl,
      take-append before (bytes ++ after) b.write_pos n,
      rw
          (
            read,
            reach,
            drop-append before (bytes ++ after) b.write_pos n,
            take-append bytes after (length bytes) refl,
          )
          refl,
    )

-- Does an integer fit in `w` bits.
unfoldable pub FitsIn : ℕ → ℤ → Type 0
FitsIn w (pos n) = n < 2 ^ (w - 1)
FitsIn w (negsuc n) = n < 2 ^ (w - 1)

pub of_word-to_word :
    (w : ℕ) (i : ℤ) → 2 ^ w ≡ 2 ^ (w - 1) + 2 ^ (w - 1) → FitsIn w i → of_word w (to_word w i) ≡ i
unfolding FitsIn
of_word-to_word w (pos n) half h =
    let small : n % 2 ^ w ≡ n = mod-eq_of_lt (omega arith) in
    let low : ltb n (2 ^ (w - 1)) ≡ true = ground arith in rw (small, low) refl
of_word-to_word w (negsuc n) half h =
    let small : n % 2 ^ w ≡ n = mod-eq_of_lt (omega arith) in
    let high : ltb (2 ^ w - 1 - n) (2 ^ (w - 1)) ≡ false = ground arith in
    let back : 2 ^ w - 1 - (2 ^ w - 1 - n) ≡ n = omega arith in rw (small, high, back) refl

to_word-lt : (w : ℕ) (i : ℤ) → 0 < 2 ^ w → to_word w i < 2 ^ w
to_word-lt w (pos n) h = mod-lt n h
to_word-lt w (negsuc n) h = omega arith

pub bytes_to_int-int_to_bytes :
    (k : ℕ) (i : ℤ)
    → 2 ^ (8 * k) ≡ 256 ^ k
    → 2 ^ (8 * k) ≡ 2 ^ (8 * k - 1) + 2 ^ (8 * k - 1)
    → 0 < 2 ^ (8 * k)
    → FitsIn (8 * k) i
    → bytes_to_int k (int_to_bytes k i) ≡ i
unfolding bytes_to_int int_to_bytes
bytes_to_int-int_to_bytes k i bytes half filled h =
    let small : to_word (8 * k) i < 256 ^ k = omega (arith, to_word-lt (8 * k) i filled, bytes) in
    ap (of_word (8 * k)) (be_value-be_bytes k (to_word (8 * k) i) small)
    ∙ of_word-to_word (8 * k) i half h

read_int-write_int_of :
    (k : ℕ) (i : ℤ) (b : MappedByteBuffer)
    → bytes_to_int k (int_to_bytes k i) ≡ i
    → b.write_pos + k ≤ b.limit
    → b.limit ≤ length b.mmap_buf
    → (b' : MappedByteBuffer) × (write_int k i b ≡ some b')
      × (b'.write_pos ≡ b.write_pos + k)
      × (read_int k (record b' { read_pos = b.write_pos })
          ≡ some (i, record b' { read_pos = b.write_pos + k }))
unfolding write_int read_int written int_to_bytes
read_int-write_int_of k i b back fits mapped =
    let bytes = int_to_bytes k i in
    let n : length bytes ≡ k = length-be_bytes k (to_word (8 * k) i) in
    let (b', e, at, kept, r) = read-write bytes b (omega (arith, n)) mapped in
    let r' : read k (record b' { read_pos = b.write_pos })
        ≡ some (bytes, record b' { read_pos = b.write_pos + k }) =
      subst
        (λ m.
          read m (record b' { read_pos = b.write_pos })
          ≡ some (bytes, record b' { read_pos = b.write_pos + m }))
        n r in
    let all : k - length bytes ≡ 0 = omega (arith, n) in
    let none_missing : bytes ++ replicate (k - length bytes) 0 ≡ bytes =
      ap (λ m. bytes ++ replicate m 0) all ∙ append-nil bytes in
    (b', rw (write_int, e) refl, omega (arith, at, n), rw (read_int, r', none_missing, back) refl)

-- Writing an int64 that fits and reading at the place where it was written gives the integer.
pub read_int-write_int :
    (i : ℤ) (b : MappedByteBuffer)
    → FitsIn 64 i
    → b.write_pos + 8 ≤ b.limit
    → b.limit ≤ length b.mmap_buf
    → (b' : MappedByteBuffer) × (write_int 8 i b ≡ some b')
      × (b'.write_pos ≡ b.write_pos + 8)
      × (read_int 8 (record b' { read_pos = b.write_pos })
          ≡ some (i, record b' { read_pos = b.write_pos + 8 }))
read_int-write_int i b h fits mapped =
    read_int-write_int_of 8 i b (bytes_to_int-int_to_bytes 8 i refl refl (omega arith) h) fits
      mapped
