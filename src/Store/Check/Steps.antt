-- ===== src/Store/Check/Steps.antt =====
-- Reading one value after another at the position of a buffer.
use ttstringgolangiot.Base.{
  ℕ, zero, suc, ◌+◌, ◌-◌, ◌*◌, ◌≤◌, ◌≡◌, refl, sym, ap, ◌∙◌, false, some, List, [], ◌∷◌, ◌++◌,
  append-nil, append_assoc, arith, ltb, length, length-append, length-drop, take, drop, replicate,
}
use ttstringgolangiot.Base.Int.{ℤ, pos}
use ttstringgolangiot.Base.Bytes.{length-be_bytes, to_word}
use ttstringgolangiot.Store.Buffer.{MappedByteBuffer, read, read_int, int_to_bytes, bytes_to_int}
use ttstringgolangiot.Store.Buffer.Roundtrip.{
  FitsIn, take-append, drop-append, bytes_to_int-int_to_bytes,
}
use ttstringgolangiot.Store.Check.{read_new, read_text}

-- What is left to read.
pub record IsAt (b : MappedByteBuffer) (bytes : List ℕ) : Type 0 where
  pub inside : b.read_pos ≤ length b.mmap_buf
  pub left : drop b.read_pos b.mmap_buf ≡ bytes

drop-nil : (m : ℕ) → ◌≡◌ {A = List ℕ} (drop m []) []
drop-nil zero = refl
drop-nil (suc m) = refl

pub drop-drop : (n m : ℕ) (xs : List ℕ) → drop (n + m) xs ≡ drop m (drop n xs)
drop-drop zero m xs = ap (λ k. drop k xs) (omega arith)
drop-drop (suc n) m [] = drop-nil (suc n + m) ∙ sym (drop-nil m)
drop-drop (suc n) m (x ∷ xs) =
    let e : suc n + m ≡ suc (n + m) = omega arith in ap (λ k. drop k (x ∷ xs)) e ∙ drop-drop n m xs

pub advance-IsAt :
    (bytes rest : List ℕ) (b : MappedByteBuffer)
    → IsAt b (bytes ++ rest)
    → IsAt (record b { read_pos = b.read_pos + length bytes }) rest
advance-IsAt bytes rest b h = record {
  inside = omega (
    arith,
    ap length h.left,
    h.inside,
    length-append bytes rest,
    length-drop b.read_pos b.mmap_buf,
  );
  left =
      drop-drop b.read_pos (length bytes) b.mmap_buf
      ∙ (ap (drop (length bytes)) h.left ∙ drop-append bytes rest (length bytes) refl);
}

read-IsAt :
    (n : ℕ) (bytes rest : List ℕ) (b : MappedByteBuffer)
    → n ≡ length bytes
    → IsAt b (bytes ++ rest)
    → (b' : MappedByteBuffer) × (read n b ≡ some (bytes, b')) × IsAt b' rest
unfolding read
read-IsAt n bytes rest b e h =
    let reach : ltb (length b.mmap_buf) b.read_pos ≡ false = ground (arith, h.inside) in
    let got : take n (drop b.read_pos b.mmap_buf) ≡ bytes =
      ap (take n) h.left ∙ take-append bytes rest n e in
    (
      record b { read_pos = b.read_pos + length bytes },
      rw (read, reach, got) refl,
      advance-IsAt bytes rest b h,
    )

pub read_new-IsAt :
    (n : ℕ) (bytes rest : List ℕ) (b : MappedByteBuffer)
    → n ≡ length bytes
    → IsAt b (bytes ++ rest)
    → (b' : MappedByteBuffer) × (read_new n b ≡ some (bytes, b')) × IsAt b' rest
unfolding read_new
read_new-IsAt n bytes rest b e h =
    let (b', r, k) = read-IsAt n bytes rest b e h in
    let all : n - length bytes ≡ 0 = omega (arith, e) in
    (b', rw (read_new, r, all) (ap (λ xs. some (xs, b')) (append-nil bytes)), k)

-- An integer of `k` bytes that reads back.
pub read_int-IsAt :
    (k : ℕ) (i : ℤ) (rest : List ℕ) (b : MappedByteBuffer)
    → bytes_to_int k (int_to_bytes k i) ≡ i
    → IsAt b (int_to_bytes k i ++ rest)
    → (b' : MappedByteBuffer) × (read_int k b ≡ some (i, b')) × IsAt b' rest
unfolding read_int int_to_bytes
read_int-IsAt k i rest b back h =
    let n : k ≡ length (int_to_bytes k i) = sym (length-be_bytes k (to_word (8 * k) i)) in
    let (b', r, at) = read-IsAt k (int_to_bytes k i) rest b n h in
    let all : k - length (int_to_bytes k i) ≡ 0 = omega (arith, n) in
    let none_missing : int_to_bytes k i ++ replicate (k - length (int_to_bytes k i)) 0
        ≡ int_to_bytes k i =
      ap (λ m. int_to_bytes k i ++ replicate m 0) all ∙ append-nil (int_to_bytes k i) in
    (b', rw (read_int, r, none_missing, back) refl, at)

pub back_4 : (i : ℤ) → FitsIn 32 i → bytes_to_int 4 (int_to_bytes 4 i) ≡ i
back_4 i h = bytes_to_int-int_to_bytes 4 i refl refl (omega arith) h

pub back_8 : (i : ℤ) → FitsIn 64 i → bytes_to_int 8 (int_to_bytes 8 i) ≡ i
back_8 i h = bytes_to_int-int_to_bytes 8 i refl refl (omega arith) h

pub back_1 : (i : ℤ) → FitsIn 8 i → bytes_to_int 1 (int_to_bytes 1 i) ≡ i
back_1 i h = bytes_to_int-int_to_bytes 1 i refl refl (omega arith) h

pub back_2 : (i : ℤ) → FitsIn 16 i → bytes_to_int 2 (int_to_bytes 2 i) ≡ i
back_2 i h = bytes_to_int-int_to_bytes 2 i refl refl (omega arith) h

pub read_text-IsAt :
    (bytes rest : List ℕ) (b : MappedByteBuffer)
    → IsAt b (bytes ++ rest)
    → (b' : MappedByteBuffer) × (read_text (pos (length bytes)) b ≡ some (bytes, b')) × IsAt b' rest
unfolding read_text
read_text-IsAt [] rest b h = (b, refl, h)
read_text-IsAt (x ∷ xs) rest b h = read_new-IsAt (suc (length xs)) (x ∷ xs) rest b refl h

-- The same, in front of other chunks and what follows the record.
pub shifted :
    (xs ys rest : List ℕ) (b : MappedByteBuffer)
    → IsAt b ((xs ++ ys) ++ rest)
    → IsAt b (xs ++ (ys ++ rest))
shifted xs ys rest b h = record { inside = h.inside; left = h.left ∙ append_assoc xs ys rest }

module _ (more rest : List ℕ) (b : MappedByteBuffer) where
  pub next_int :
      (k : ℕ) (i : ℤ)
      → bytes_to_int k (int_to_bytes k i) ≡ i
      → IsAt b ((int_to_bytes k i ++ more) ++ rest)
      → (b' : MappedByteBuffer) × (read_int k b ≡ some (i, b')) × IsAt b' (more ++ rest)
  next_int k i back h =
      read_int-IsAt k i (more ++ rest) b back (shifted (int_to_bytes k i) more rest b h)

  pub next_bytes :
      (n : ℕ) (bytes : List ℕ)
      → n ≡ length bytes
      → IsAt b ((bytes ++ more) ++ rest)
      → (b' : MappedByteBuffer) × (read_new n b ≡ some (bytes, b')) × IsAt b' (more ++ rest)
  next_bytes n bytes e h = read_new-IsAt n bytes (more ++ rest) b e (shifted bytes more rest b h)

  pub next_text :
      (bytes : List ℕ)
      → IsAt b ((bytes ++ more) ++ rest)
      → (b' : MappedByteBuffer) × (read_text (pos (length bytes)) b ≡ some (bytes, b'))
        × IsAt b' (more ++ rest)
  next_text bytes h = read_text-IsAt bytes (more ++ rest) b (shifted bytes more rest b h)
