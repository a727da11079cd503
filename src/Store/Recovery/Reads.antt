-- ===== src/Store/Recovery/Reads.antt =====
-- What the check of a record reads: the bytes stay and the position only moves on.
use ttstringgolangiot.Base.{
  ℕ, zero, suc, ◌≤◌, ◌≡◌, refl, ◌∙◌, inl, inr, Bool, true, false, Option, none, some, List, arith,
  ltb, length, Bool-cases, if◌then◌else◌,
}
use ttstringgolangiot.Base.Int.{ℤ, pos, negsuc, ltb_ℤ}
use ttstringgolangiot.Store.Append.{message_magic_code, blank_magic_code}
use ttstringgolangiot.Store.Buffer.{MappedByteBuffer, read, read_int}
use ttstringgolangiot.Store.Check.{
  CheckContext, DispatchRequest, Fields, Reading, padded, read_new, read_fields, read_body,
  read_text, read_tail, read_record, by_magic_code, same_int, return, only_size, wrap,
}

-- Does an answer leave the bytes alone and the position where it was or further on.
unfoldable pub ReadsOn : {A : Type 0} → MappedByteBuffer → Option (A × MappedByteBuffer) → Type 0
ReadsOn b none = Unit
ReadsOn b (some (a, b')) = (b'.mmap_buf ≡ b.mmap_buf) × (b.read_pos ≤ b'.read_pos)

ReadsOn-bind :
    {A B : Type 0} (b : MappedByteBuffer) (o : Option (A × MappedByteBuffer))
    (f : A → MappedByteBuffer → Option (B × MappedByteBuffer))
    → ReadsOn b o
    → ((a : A) (b' : MappedByteBuffer) → ReadsOn b' (f a b'))
    → ReadsOn b (elim o [ none ↦ none | some (a, b') ↦ f a b' ])
unfolding ReadsOn
ReadsOn-bind b none f h k = tt
ReadsOn-bind b (some (a, b')) f (e, l) k = further b b' (f a b') e l (k a b')
  where
    further :
        {B : Type 0} (b b' : MappedByteBuffer) (o : Option (B × MappedByteBuffer))
        → b'.mmap_buf ≡ b.mmap_buf
        → b.read_pos ≤ b'.read_pos
        → ReadsOn b' o
        → ReadsOn b o
    further b b' none e l h = tt
    further b b' (some (a, b'')) e l (e', l') = (e' ∙ e, omega arith)

read-ReadsOn : (n : ℕ) (b : MappedByteBuffer) → ReadsOn b (read n b)
unfolding ReadsOn read
read-ReadsOn n b = elim (Bool-cases (ltb (length b.mmap_buf) b.read_pos)) [
  | inl e ↦ rw (read, e) tt
  | inr e ↦ rw (read, e) (refl, omega arith)
]

pub read_int-ReadsOn : (k : ℕ) (b : MappedByteBuffer) → ReadsOn b (read_int k b)
unfolding read_int ReadsOn
read_int-ReadsOn k b = ReadsOn-bind b (read k b) _ (read-ReadsOn k b) (λ a b'. (refl, omega arith))

read_new-ReadsOn : (k : ℕ) (b : MappedByteBuffer) → ReadsOn b (read_new k b)
unfolding read_new ReadsOn
read_new-ReadsOn k b = padded_on b k (read k b) (read-ReadsOn k b)
  where
    padded_on :
        (b : MappedByteBuffer) (k : ℕ) (o : Option (List ℕ × MappedByteBuffer))
        → ReadsOn b o
        → ReadsOn b (padded k o)
    padded_on b k none h = tt
    padded_on b k (some (bytes, b')) h = h

module _ {B : Type 0} (b : MappedByteBuffer) where
  pub then_int :
      (k : ℕ) (f : ℤ → MappedByteBuffer → Option (B × MappedByteBuffer))
      → ((a : ℤ) (b' : MappedByteBuffer) → ReadsOn b' (f a b'))
      → ReadsOn b (elim (read_int k b) [ none ↦ none | some (a, b') ↦ f a b' ])
  then_int k f h = ReadsOn-bind b (read_int k b) f (read_int-ReadsOn k b) h

  then_new :
      (k : ℕ) (f : List ℕ → MappedByteBuffer → Option (B × MappedByteBuffer))
      → ((a : List ℕ) (b' : MappedByteBuffer) → ReadsOn b' (f a b'))
      → ReadsOn b (elim (read_new k b) [ none ↦ none | some (a, b') ↦ f a b' ])
  then_new k f h = ReadsOn-bind b (read_new k b) f (read_new-ReadsOn k b) h

read_fields-ReadsOn : (b : MappedByteBuffer) → ReadsOn b (read_fields b)
unfolding read_fields ReadsOn
read_fields-ReadsOn b = then_int b 4 _ (λ _ b. then_int b 4 _ (λ _ b. then_int b 4 _ (λ _ b.
    then_int b 8 _ (λ _ b. then_int b 8 _ (λ _ b. then_int b 4 _ (λ _ b. then_int b 8 _ (λ _ b.
      then_new b 8 _ (λ _ b. then_int b 8 _ (λ _ b.
        then_new b 8 _
          (λ _ b. then_int b 4 _ (λ _ b. then_int b 8 _ (λ _ b. (refl, omega arith)))))))))))))

read_body-ReadsOn :
    (ctx : CheckContext) (check_crc should_read : Bool) (crc len : ℤ) (b : MappedByteBuffer)
    → ReadsOn b (read_body ctx check_crc should_read crc len b)
unfolding read_body ReadsOn
read_body-ReadsOn ctx check_crc should_read crc (negsuc n) b = (refl, omega arith)
read_body-ReadsOn ctx check_crc should_read crc (pos zero) b = (refl, omega arith)
read_body-ReadsOn ctx check_crc false crc (pos (suc n)) b = (refl, omega arith)
read_body-ReadsOn ctx check_crc true crc (pos (suc n)) b =
    then_new b (suc n) _ (λ _ b. (refl, omega arith))

read_text-ReadsOn : (len : ℤ) (b : MappedByteBuffer) → ReadsOn b (read_text len b)
unfolding read_text ReadsOn
read_text-ReadsOn (negsuc n) b = (refl, omega arith)
read_text-ReadsOn (pos zero) b = (refl, omega arith)
read_text-ReadsOn (pos (suc n)) b = read_new-ReadsOn (suc n) b

read_tail-ReadsOn :
    (ctx : CheckContext) (total_size : ℤ) (fields : Fields) (intact : Bool) (b : MappedByteBuffer)
    → ReadsOn b (read_tail ctx total_size fields intact b)
unfolding read_tail ReadsOn
read_tail-ReadsOn ctx total_size fields false b = (refl, omega arith)
read_tail-ReadsOn ctx total_size fields true b = then_int b 1 _ (λ n b.
    ReadsOn-bind b (read_text n b) _ (read_text-ReadsOn n b) (λ _ b. then_int b 2 _ (λ n b.
      ReadsOn-bind b (read_text n b) _ (read_text-ReadsOn n b) (λ _ b. (refl, omega arith)))))

read_record-ReadsOn :
    (ctx : CheckContext) (check_crc should_read : Bool) (total_size : ℤ) (b : MappedByteBuffer)
    → ReadsOn b (read_record ctx check_crc should_read total_size b)
unfolding read_record
read_record-ReadsOn ctx check_crc should_read total_size b =
    ReadsOn-bind b (read_fields b) _ (read_fields-ReadsOn b) (λ fields b. then_int b 4 _ (λ n b.
      ReadsOn-bind b (read_body ctx check_crc should_read fields.body_crc n b) _
        (read_body-ReadsOn ctx check_crc should_read fields.body_crc n b)
        (λ intact b. read_tail-ReadsOn ctx total_size fields intact b)))

if_ReadsOn :
    {A : Type 0} (t : Bool) (b : MappedByteBuffer) (x y : Reading A)
    → ReadsOn b (x b)
    → ReadsOn b (y b)
    → ReadsOn b ((if t then x else y) b)
if_ReadsOn true b x y h k = h
if_ReadsOn false b x y h k = k

pub by_magic_code-ReadsOn :
    (ctx : CheckContext) (check_crc should_read : Bool) (len total_size magic : ℤ)
    (b : MappedByteBuffer)
    → ReadsOn b (by_magic_code ctx check_crc should_read len total_size magic b)
unfolding by_magic_code ReadsOn
by_magic_code-ReadsOn ctx check_crc should_read len total_size magic b =
    let illegal : Reading DispatchRequest = return (only_size (negsuc 0)) in
    let blank : Reading DispatchRequest = return (only_size (pos 0)) in
    let record_here = read_record ctx check_crc should_read total_size in
    let too_short = ltb_ℤ (wrap 32 len) total_size in
    let is_blank = same_int magic blank_magic_code in
    let stays : ReadsOn b (illegal b) = (refl, omega arith) in
    let stays' : ReadsOn b (blank b) = (refl, omega arith) in
    if_ReadsOn (same_int magic message_magic_code) b (if too_short then illegal else record_here)
      (if is_blank then blank else illegal)
      (if_ReadsOn too_short b illegal record_here stays
        (read_record-ReadsOn ctx check_crc should_read total_size b))
      (if_ReadsOn is_blank b blank illegal stays' stays)
