-- ===== src/Store/Recovery/Ends.antt =====
-- The recovery ends: each round reads on.
use ttstringgolangiot.Base.{
  ℕ, zero, suc, ◌+◌, ◌-◌, ◌≤◌, ◌<◌, ◌≡◌, ◌≢◌, refl, sym, ap, subst, ◌⊎◌, inl, inr, Bool, false,
  Option, none, some, List, [], ◌∷◌, arith, ltb, length, length-take, length-drop, take, drop,
  Option-cases, Bool-cases,
}
use ttstringgolangiot.Base.Int.{ℤ, pos, ◌-ℤ◌}
use ttstringgolangiot.Store.Append.{message_magic_code, blank_magic_code}
use ttstringgolangiot.Store.Buffer.{MappedByteBuffer, read, read_int, bytes_to_int}
use ttstringgolangiot.Store.Check.{
  CheckContext, DispatchRequest, by_magic_code, check_message_and_return_size, same_int, ◌>>=◌,
}
use ttstringgolangiot.Store.MapedFile.{MapedFile}
use ttstringgolangiot.Store.Recovery.{
  Round, goes_on, ends, next_file, round_of, recover_loop, recover_files, reader_of, last_three,
  out_of_fuel, unread, unread_of_files,
}
use ttstringgolangiot.Store.Recovery.Reads.{ReadsOn, by_magic_code-ReadsOn, then_int}

abbrev unread_after : {A : Type 0} → Option (A × MappedByteBuffer) → ℕ
unread_after none = 0
unread_after (some (a, b)) = unread b

-- Reading an integer where something is left reads a byte or more.
read_int_moves :
    (k : ℕ) (b b' : MappedByteBuffer) (i : ℤ)
    → read_int k b ≡ some (i, b')
    → 0 < k
    → 0 < unread b
    → unread b' < unread b
unfolding read_int read
read_int_moves k b b' i e h left =
    let inside : ltb (length b.mmap_buf) b.read_pos ≡ false = ground arith in
    let n = length (take k (drop b.read_pos b.mmap_buf)) in
    let e' = rw (read_int, read, inside) at e in
    omega (
      arith,
      ap unread_after e',
      length-take k (drop b.read_pos b.mmap_buf),
      length-drop b.read_pos b.mmap_buf,
    )

-- Nothing is left: the integer is 0.
nil_of_length : (xs : List ℕ) → length xs ≡ 0 → xs ≡ []
nil_of_length [] e = refl
nil_of_length (x ∷ xs) e = absurd (omega arith)

read_int_at_end :
    (b : MappedByteBuffer)
    → unread b ≡ 0
    → (read_int 4 b ≡ none)
      ⊎ ((b' : MappedByteBuffer) × (read_int 4 b ≡ some (pos 0, b')) × (unread b' ≡ 0))
unfolding read_int read bytes_to_int
read_int_at_end b e = elim (Bool-cases (ltb (length b.mmap_buf) b.read_pos)) [
  | inl out ↦ inl (rw (read_int, read, out) refl)
  | inr inside ↦
      let nothing : drop b.read_pos b.mmap_buf ≡ [] =
        nil_of_length (drop b.read_pos b.mmap_buf)
          (omega (arith, length-drop b.read_pos b.mmap_buf)) in
      inr (
        record b { read_pos = b.read_pos + 0 },
        rw (read_int, read, inside, nothing) refl,
        omega arith,
      )
]

magic_code_ne_zero :
    (same_int (pos 0) message_magic_code ≡ false) × (same_int (pos 0) blank_magic_code ≡ false)
unfolding message_magic_code blank_magic_code
magic_code_ne_zero = (refl, refl)

abbrev pub round_after : Option (DispatchRequest × MappedByteBuffer) → Round
round_after none = ends
round_after (some (request, b)) = round_of request.msg_size

-- A check that does not end the loop reads on.
pub check_moves :
    (ctx : CheckContext) (check_crc should_read : Bool) (b b' : MappedByteBuffer)
    (request : DispatchRequest)
    → check_message_and_return_size ctx check_crc should_read b ≡ some (request, b')
    → (round_of request.msg_size ≡ ends) ⊎ (unread b' < unread b)
unfolding check_message_and_return_size by_magic_code ReadsOn
check_moves ctx check_crc should_read b b' request e = elim (zero_or_more (unread b)) [
  | inl none_left ↦ elim (read_int_at_end b none_left) [
    | inl out ↦ let e' = rw (check_message_and_return_size, ◌>>=◌, out) at e in absurd (cc)
    | inr (b₁, e₁, left₁) ↦ elim (read_int_at_end b₁ left₁) [
      | inl out ↦ let e' = rw (check_message_and_return_size, ◌>>=◌, e₁, out) at e in absurd (cc)
      | inr (b₂, e₂, left₂) ↦
          let e' =
            rw
              (
                check_message_and_return_size, ◌>>=◌, e₁, e₂, by_magic_code, magic_code_ne_zero.0,
                magic_code_ne_zero.1,
              )
              at e in
          inl (ap round_after (sym e'))
    ]
  ]
  | inr some_left ↦ elim (Option-cases (read_int 4 b)) [
    | inl out ↦ let e' = rw (check_message_and_return_size, ◌>>=◌, out) at e in absurd (cc)
    | inr ((total, b₁), e₁) ↦
        let e' = rw (check_message_and_return_size, ◌>>=◌, e₁) at e in
        let on : ReadsOn b₁ (some (request, b')) = subst (ReadsOn b₁) e' (
          then_int b₁ 4 _ (λ magic b₂.
            by_magic_code-ReadsOn ctx check_crc should_read (pos b.write_pos -ℤ pos b.read_pos)
              total magic b₂)) in
        inr (
          omega
            (arith, read_int_moves 4 b b₁ total e₁ (omega arith) some_left, ap length (on.0), on.1))
  ]
]
  where
    zero_or_more : (n : ℕ) → (n ≡ 0) ⊎ (0 < n)
    zero_or_more zero = inl refl
    zero_or_more (suc n) = inr (omega arith)

pub Round-cases : (r : Round) → (r ≡ ends) ⊎ (((n : ℕ) × (r ≡ goes_on n)) ⊎ (r ≡ next_file))
Round-cases (goes_on n) = inr (inl (n, refl))
Round-cases ends = inl refl
Round-cases next_file = inr (inr refl)

pub List-cases :
    (files : List MapedFile)
    → (files ≡ []) ⊎ ((f : MapedFile) × (fs : List MapedFile) × (files ≡ f ∷ fs))
List-cases [] = inl refl
List-cases (f ∷ fs) = inr (f, fs, refl)

-- When the fuel is more than the bytes that are left in the file and, with two for each, in the
-- files after it, then the loop of the recovery does not run out of it: it finds the end of the
-- log or it panics.
pub recover_loop-ends :
    (ctx : CheckContext) (check_crc : Bool) (fuel : ℕ) (b : MappedByteBuffer) (from done : ℕ)
    (files : List MapedFile)
    → unread b + unread_of_files files < fuel
    → recover_loop ctx check_crc fuel b from done files ≢ out_of_fuel
unfolding recover_loop
recover_loop-ends ctx check_crc zero b from done files h = absurd (omega arith)
recover_loop-ends ctx check_crc (suc fuel) b from done files h =
    elim (Option-cases (check_message_and_return_size ctx check_crc check_crc b)) [
      | inl e ↦ rw (recover_loop, e) (λ p. cc)
      | inr ((request, b'), e) ↦ elim (check_moves ctx check_crc check_crc b b' request e) [
        | inl last ↦ rw (recover_loop, e, last) (λ p. cc)
        | inr less ↦ elim (Round-cases (round_of request.msg_size)) [
          | inl last ↦ rw (recover_loop, e, last) (λ p. cc)
          | inr (inl (n, on)) ↦
              let ih =
                recover_loop-ends ctx check_crc fuel b' from (done + n) files
                  (omega (arith, less)) in
              rw (recover_loop, e, on) ih
          | inr (inr next) ↦ elim (List-cases files) [
            | inl none_left ↦ rw (recover_loop, e, next, none_left) (λ p. cc)
            | inr (f, fs, some_left) ↦
                let ih =
                  recover_loop-ends ctx check_crc fuel f.mapped_byte_buffer f.file_from_offset 0 fs
                    (omega (arith, less, ap unread_of_files some_left, h)) in
                rw (recover_loop, e, next, some_left) ih
          ]
        ]
      ]
    ]

unread_of_files-drop :
    (n : ℕ) (files : List MapedFile) → unread_of_files (drop n files) ≤ unread_of_files files
unread_of_files-drop zero files = omega arith
unread_of_files-drop (suc n) [] = omega arith
unread_of_files-drop (suc n) (f ∷ fs) = omega (arith, unread_of_files-drop n fs)

recover_files_end :
    (ctx : CheckContext) (check_crc : Bool) (fuel : ℕ) (files : List MapedFile)
    → unread_of_files files < fuel
    → recover_files ctx check_crc fuel files ≢ out_of_fuel
unfolding recover_files
recover_files_end ctx check_crc fuel [] h = λ p. cc
recover_files_end ctx check_crc fuel (f ∷ fs) h =
    recover_loop-ends ctx check_crc fuel (reader_of f) f.file_from_offset 0 fs
      (omega (arith, h, length-take f.mapped_byte_buffer.write_pos f.mapped_byte_buffer.mmap_buf))

-- Whatever the last three files hold, the loop of the recovery ends within the fuel that it is
-- given, a round for each byte and two for each file: it finds an offset or it panics.
pub recover_files-last_three :
    (ctx : CheckContext) (check_crc : Bool) (files : List MapedFile)
    → recover_files ctx check_crc (unread_of_files files + 1) (last_three files) ≢ out_of_fuel
recover_files-last_three ctx check_crc files =
    recover_files_end ctx check_crc (unread_of_files files + 1) (last_three files)
      (omega (arith, unread_of_files-drop (length files - 3) files))
