-- ===== src/Net/Frame/Step.antt =====
-- One round of the loop of `pack`, on a whole packet and on the beginning of one.
use ttstringgolangiot.Base.{
  ℕ, ◌+◌, ◌-◌, ◌≤◌, ◌<◌, ◌≡◌, ap, ◌∙◌, some, List, ◌++◌, arith, ltb, ◌==◌, length, take, drop,
  length-append, length-drop, Bool-cases, inl, inr, subst,
}
use ttstringgolangiot.Base.Int.{pos, ◌+ℤ◌, ◌-ℤ◌}
use ttstringgolangiot.Net.Frame.{
  Config, field_end, slice, read_length_field_length, next, strip, adjust_buffer, round, wait, emit,
}
use ttstringgolangiot.Net.Frame.Lists.{
  take-append_le, drop-append_le, take_all, drop_all, drop-drop,
}

-- A packet: the header up to the end of the length field, and at least one byte of payload, as
-- many bytes as the field says. (A packet that ends with its header waits in `pack` for more.)
pub record IsPacket (c : Config) (p : List ℕ) : Type 0 where
  pub payload : ℕ
  pub whole : length p ≡ field_end c + payload
  pub field :
      read_length_field_length c (slice c.length_field_offset (field_end c) p) ≡ some (pos payload)
  pub filled : 0 < payload
  pub fits : payload ≤ c.max_frame_length
  pub room : c.initial_bytes_to_strip ≤ length p

slice-append :
    (from to : ℕ) (p rest : List ℕ)
    → from ≤ to
    → to ≤ length p
    → slice from to (p ++ rest) ≡ slice from to p
slice-append from to p rest h k =
    ap (take (to - from)) (drop-append_le from p rest (omega arith))
    ∙ take-append_le (to - from) (drop from p) rest (omega (arith, length-drop from p))

strip_lem :
    (c : Config) (n : ℕ) (buf : List ℕ)
    → c.initial_bytes_to_strip ≤ n
    → strip c (pos n) buf ≡ (pos (n - c.initial_bytes_to_strip), drop c.initial_bytes_to_strip buf)
unfolding strip ◌-ℤ◌
strip_lem c n buf h = elim (Bool-cases (ltb 0 c.initial_bytes_to_strip)) [
  | inl some_bytes ↦ rw some_bytes (ground arith)
  | inr no_bytes ↦
      let e : c.initial_bytes_to_strip ≡ 0 = ground arith in rw (no_bytes, e) (ground arith)
]

take_packet :
    (n : ℕ) (p rest : List ℕ) → n ≤ length p → take (length p - n) (drop n (p ++ rest)) ≡ drop n p
take_packet n p rest h = rw (drop-append_le n p rest h) (
    subst (λ k. take k (drop n p ++ rest) ≡ drop n p) (length-drop n p)
      (take-append_le (length (drop n p)) (drop n p) rest (omega arith) ∙ take_all (drop n p)))

drop_packet :
    (n : ℕ) (p rest : List ℕ) → n ≤ length p → drop (length p - n) (drop n (p ++ rest)) ≡ rest
drop_packet n p rest h =
    drop-drop n (length p) (p ++ rest) h
    ∙ drop-append_le (length p) p rest (omega arith)
    ∙ ap (λ l. l ++ rest) (drop_all p)

-- With no more to strip than the packet has, the frame is the packet without those bytes.
adjust_buffer_packet :
    (c : Config) (p rest : List ℕ)
    → c.initial_bytes_to_strip ≤ length p
    → adjust_buffer c (pos (length p)) (p ++ rest)
      ≡ some (length (p ++ rest) == length p, drop c.initial_bytes_to_strip p, rest)
unfolding adjust_buffer next
adjust_buffer_packet c p rest h = ground (
  arith,
  strip_lem c (length p) (p ++ rest) h,
  take_packet c.initial_bytes_to_strip p rest h,
  drop_packet c.initial_bytes_to_strip p rest h,
)

+ℤ_pos : (a b : ℕ) → pos a +ℤ pos b ≡ pos (a + b)
unfolding ◌+ℤ◌
+ℤ_pos a b = ground arith

-- A packet at the front of the buffer is cut off, and the entry is deleted with the last byte.
pub round_packet :
    (c : Config) (p rest : List ℕ)
    → IsPacket c p
    → round c (p ++ rest) ≡ emit (length rest == 0) (drop c.initial_bytes_to_strip p) rest
unfolding round
round_packet c p rest v = ground (
  arith,
  slice-append c.length_field_offset (field_end c) p rest,
  adjust_buffer_packet c p rest v.room,
  length-append p rest,
  +ℤ_pos v.payload (field_end c),
)

-- The beginning of a packet waits for the bytes that are missing.
pub round_partial :
    (c : Config) (q r : List ℕ) → IsPacket c (q ++ r) → 0 < length r → round c q ≡ wait
unfolding round
round_partial c q r v h =
    ground (arith, slice-append c.length_field_offset (field_end c) q r, length-append q r)
