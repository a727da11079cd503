-- ===== src/Net/Frame/Total.antt =====
-- Termination of the loop of `pack`: with length fields of at most four bytes every round that
-- cuts a frame off consumes a byte. With eight bytes it may not.
use ttstringgolangiot.Base.{
  ℕ, zero, suc, ◌+◌, ◌-◌, ◌^◌, ◌≤◌, ◌<◌, ◌≡◌, ◌≢◌, refl, ap, ap₂, Bool, true, false, not, ◌&&◌,
  Option, none, some, List, [], ◌∷◌, ◌++◌, arith, String, length, take, drop, length-drop,
}
use ttstringgolangiot.Base.Int.{ℤ, pos, negsuc, ◌+ℤ◌, ◌-ℤ◌}
use ttstringgolangiot.Base.Bytes.{be_value}
use ttstringgolangiot.Net.Frame.{
  Config, field_end, slice, read_length_field_length, next, strip, adjust_buffer, round, Round,
  wait, unsupported, oversize, crash, emit, pack_loop, Table, buffered, pack,
}

read_length_pos :
    (c : Config) (bs : List ℕ) (k : ℕ)
    → c.length_field_length ≢ 8
    → read_length_field_length c bs ≡ some (negsuc k)
    → ⊥
unfolding read_length_field_length
read_length_pos c bs k h e = ground arith

read_length_supported :
    (c : Config) (bs : List ℕ) (n : ℤ)
    → read_length_field_length c bs ≡ some n
    → 0 < c.length_field_length
unfolding read_length_field_length
read_length_supported c bs n e = ground arith

next-length : (n : ℤ) (buf f left : List ℕ) → next n buf ≡ some (f, left) → length left ≤ length buf
unfolding next
next-length (pos n) buf f left e = ground (arith, length-drop n buf)
next-length (negsuc n) buf f left e = cc

adjust_buffer_shorter :
    (c : Config) (n : ℕ) (buf f left : List ℕ) (g : Bool)
    → 0 < n
    → n ≤ length buf
    → adjust_buffer c (pos n) buf ≡ some (g, f, left)
    → length left < length buf
unfolding adjust_buffer strip next ◌-ℤ◌
adjust_buffer_shorter c n buf f left g h k e = ground (
  arith,
  length-drop n buf,
  length-drop c.initial_bytes_to_strip buf,
  length-drop (n - c.initial_bytes_to_strip) (drop c.initial_bytes_to_strip buf),
)

+ℤ_pos : (a b : ℕ) → pos a +ℤ pos b ≡ pos (a + b)
unfolding ◌+ℤ◌
+ℤ_pos a b = ground arith

round_unsupported :
    (c : Config) (buf f left : List ℕ) (g : Bool)
    → read_length_field_length c (slice c.length_field_offset (field_end c) buf) ≡ none
    → round c buf ≡ emit g f left
    → ⊥
unfolding round
round_unsupported c buf f left g r e = ground arith

module _ (c : Config) (buf f left : List ℕ) (g : Bool) (n : ℕ)
    (r : read_length_field_length c (slice c.length_field_offset (field_end c) buf) ≡ some (pos n))
    (e : round c buf ≡ emit g f left) where
  round_emit_fits : n + field_end c ≤ length buf
  unfolding round
  round_emit_fits = ground (arith, +ℤ_pos n (field_end c))

  round_emit_adjusted : adjust_buffer c (pos (n + field_end c)) buf ≡ some (g, f, left)
  unfolding round
  round_emit_adjusted = ground (arith, +ℤ_pos n (field_end c))

round_emit_shorter :
    (c : Config) (buf f left : List ℕ) (g : Bool)
    → c.length_field_length ≢ 8
    → round c buf ≡ emit g f left
    → length left < length buf
round_emit_shorter c buf f left g h e = go (read_length_field_length c field) refl
  where
    field : List ℕ
    field = slice c.length_field_offset (field_end c) buf

    go : (r : Option ℤ) → read_length_field_length c field ≡ r → length left < length buf
    go none r = absurd (round_unsupported c buf f left g r e)
    go (some (negsuc k)) r = absurd (read_length_pos c field k h r)
    go (some (pos n)) r =
        adjust_buffer_shorter c (n + field_end c) buf f left g
          (omega (arith, read_length_supported c field (pos n) r))
          (round_emit_fits c buf f left g n r e) (round_emit_adjusted c buf f left g n r e)

module _ (c : Config) (fuel : ℕ) (linked : Bool) (buf : List ℕ) (acc : List (List ℕ)) where
  pack_loop-round :
      (r : Round)
      → round c buf ≡ r
      → ((g : Bool) (f left : List ℕ)
          → r ≡ emit g f left
          → pack_loop c fuel (linked && not g) left (acc ++ f ∷ []) ≢ none)
      → pack_loop c (suc fuel) linked buf acc ≢ none
  unfolding pack_loop
  pack_loop-round wait e k = ground arith
  pack_loop-round unsupported e k = ground arith
  pack_loop-round oversize e k = ground arith
  pack_loop-round crash e k = ground arith
  pack_loop-round (emit g f left) e k = rw (e, pack_loop) (k g f left refl)

-- The loop ends with the fuel that `pack` gives it.
pack_loop_total :
    (c : Config) (fuel : ℕ) (linked : Bool) (buf : List ℕ) (acc : List (List ℕ))
    → c.length_field_length ≢ 8
    → length buf < fuel
    → pack_loop c fuel linked buf acc ≢ none
pack_loop_total c zero linked buf acc h k = absurd (omega arith)
pack_loop_total c (suc fuel) linked buf acc h k =
    pack_loop-round c fuel linked buf acc (round c buf) refl λ g f left e.
      pack_loop_total c fuel (linked && not g) left (acc ++ f ∷ []) h
        (omega (arith, round_emit_shorter c buf f left g h e))

-- `Pack` returns on every input if the length field has not eight bytes: it answers with a table,
-- frames and an error value, or panics, but does not go round for ever.
pub pack_total :
    (c : Config) (t : Table) (addr : String) (buffer : List ℕ)
    → c.length_field_length ≢ 8
    → pack c t addr buffer ≢ none
unfolding pack
pack_total c t addr buffer h =
    let buf = buffered t addr ++ buffer in
    ground (arith, pack_loop_total c (suc (length buf)) true buf [] h)

-- With eight bytes the length 2^64 - 8 is read as -8, so a round at offset 0 cuts off an empty
-- frame and changes nothing.
round_same :
    (c : Config) (buf : List ℕ)
    → c.length_field_length ≡ 8
    → c.length_field_offset ≡ 0
    → c.initial_bytes_to_strip ≡ 0
    → 8 < length buf
    → be_value (take 8 buf) ≡ 2 ^ 64 - 8
    → round c buf ≡ emit false [] buf
unfolding round read_length_field_length adjust_buffer strip next ◌+ℤ◌
round_same c buf w o s h e =
    let field : slice c.length_field_offset (field_end c) buf ≡ take 8 buf =
      let width : field_end c - c.length_field_offset ≡ 8 = omega arith in
      ap₂ take width (ap (λ k. drop k buf) o) in
    ground (arith, field)

-- With a length field of eight bytes at offset 0 and nothing to strip, a buffer that begins with
-- the length 2^64 - 8 and has more than eight bytes keeps the loop going: no fuel is enough.
pub pack_loop_diverges :
    (c : Config) (fuel : ℕ) (linked : Bool) (buf : List ℕ) (acc : List (List ℕ))
    → c.length_field_length ≡ 8
    → c.length_field_offset ≡ 0
    → c.initial_bytes_to_strip ≡ 0
    → 8 < length buf
    → be_value (take 8 buf) ≡ 2 ^ 64 - 8
    → pack_loop c fuel linked buf acc ≡ none
unfolding pack_loop
pack_loop_diverges c zero linked buf acc w o s h e = refl
pack_loop_diverges c (suc fuel) linked buf acc w o s h e =
    rw (round_same c buf w o s h e, pack_loop)
      (pack_loop_diverges c fuel (linked && true) buf (acc ++ [] ∷ []) w o s h e)
