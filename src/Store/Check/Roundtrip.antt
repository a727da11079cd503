-- ===== src/Store/Check/Roundtrip.antt =====
-- Checking the record of a message that was appended.
use ttstringgolangiot.Base.{
  ℕ, ◌+◌, ◌-◌, ◌%◌, ◌^◌, ◌≤◌, ◌<◌, ◌≡◌, refl, Bool, false, some, List, ◌∷◌, ◌++◌, arith, length,
}
use native.Mathlib.Nat.{mod-eq_of_lt}
use ttstringgolangiot.Base.Int.{ℤ, pos, ◌-ℤ◌, ltb_ℤ}
use ttstringgolangiot.Store.Buffer.{MappedByteBuffer, int_to_bytes}
use ttstringgolangiot.Store.Buffer.Roundtrip.{FitsIn}
use ttstringgolangiot.Store.Append.{
  MessageExtBrokerInner, message_chunks, chunk_unless_empty, message_magic_code,
}
use ttstringgolangiot.Store.Address.{GoLibrary}
use ttstringgolangiot.Store.Append.Chunks.{concat}
use ttstringgolangiot.Store.Append.Put.{HasAddresses}
use ttstringgolangiot.Store.Check.{
  CheckContext, read_record, by_magic_code, request_of, check_message_and_return_size, ◌>>=◌, wrap,
}
use ttstringgolangiot.Store.Check.Steps.{IsAt, next_int, back_4}
use ttstringgolangiot.Store.Check.Parts.{
  IsStorable, fields_of, field_chunks, tail_chunks, read_fields-IsAt, read_body-IsAt,
  read_tail-IsAt, same_int_refl,
}

read_record-IsAt :
    (go : GoLibrary) (ctx : CheckContext) (check_crc should_read : Bool) (total_size : ℤ)
    (msg : MessageExtBrokerInner) (query_offset wrote_offset : ℕ) (rest : List ℕ)
    (b : MappedByteBuffer)
    → IsStorable msg
    → HasAddresses go msg
    → ctx.crc32 msg.body ≡ msg.body_crc
    → query_offset < 2 ^ 63
    → wrote_offset < 2 ^ 63
    → IsAt b (
        concat (
          field_chunks go msg query_offset wrote_offset (
            int_to_bytes 4 (pos (length msg.body)) ∷ chunk_unless_empty msg.body (tail_chunks msg)))
        ++ rest)
    → (b' : MappedByteBuffer) × (read_record ctx check_crc should_read total_size b
        ≡ some (
          request_of ctx total_size
              (fields_of msg query_offset wrote_offset)
              msg.topic
              msg.properties_string,
          b',
        ))
      × IsAt b' rest
unfolding read_record FitsIn
read_record-IsAt go ctx check_crc should_read total_size msg query_offset wrote_offset rest b fits
      hosts crc q w at =
    let (b₁, e₁, h₁) =
      read_fields-IsAt go msg query_offset wrote_offset
        (int_to_bytes 4 (pos (length msg.body)) ∷ chunk_unless_empty msg.body (tail_chunks msg))
        rest b fits q w hosts.born hosts.store at in
    let (b₂, e₂, h₂) =
      next_int _ _ _ 4 (pos (length msg.body))
        (back_4 (pos (length msg.body)) (omega (arith, fits.body_fits))) h₁ in
    let (b₃, e₃, h₃) =
      read_body-IsAt ctx check_crc should_read msg.body_crc msg.body (tail_chunks msg) rest b₂ crc
        h₂ in
    let (b₄, e₄, h₄) =
      read_tail-IsAt ctx total_size (fields_of msg query_offset wrote_offset) msg rest b₃ fits h₃ in
    (b₄, rw (read_record, ◌>>=◌, e₁, e₂, e₃, e₄) refl, h₄)

wrap_difference :
    (w r n : ℕ) → r + n ≤ w → w < 2 ^ 31 → ltb_ℤ (wrap 32 (pos w -ℤ pos r)) (pos n) ≡ false
unfolding ◌-ℤ◌
wrap_difference w r n h small =
    let e : (w - r) % 2 ^ 32 ≡ w - r = mod-eq_of_lt (omega arith) in ground arith

message_magic_code-FitsIn : FitsIn 32 message_magic_code
unfolding FitsIn message_magic_code
message_magic_code-FitsIn = omega arith

pub check_message_and_return_size-IsAt :
    (go : GoLibrary) (ctx : CheckContext) (check_crc should_read : Bool)
    (msg : MessageExtBrokerInner) (msg_len query_offset wrote_offset : ℕ) (rest : List ℕ)
    (b : MappedByteBuffer)
    → IsStorable msg
    → HasAddresses go msg
    → ctx.crc32 msg.body ≡ msg.body_crc
    → query_offset < 2 ^ 63
    → wrote_offset < 2 ^ 63
    → b.read_pos + msg_len ≤ b.write_pos
    → b.write_pos < 2 ^ 31
    → IsAt b (concat (message_chunks go msg msg_len query_offset wrote_offset) ++ rest)
    → (b' : MappedByteBuffer) × (check_message_and_return_size ctx check_crc should_read b
        ≡ some (
          request_of ctx
              (pos msg_len)
              (fields_of msg query_offset wrote_offset)
              msg.topic
              msg.properties_string,
          b',
        ))
      × IsAt b' rest
unfolding check_message_and_return_size by_magic_code message_chunks FitsIn
check_message_and_return_size-IsAt go ctx check_crc should_read msg msg_len query_offset
      wrote_offset rest b fits hosts crc q w reach small at =
    let (b₁, e₁, h₁) = next_int _ _ _ 4 (pos msg_len) (back_4 (pos msg_len) (omega arith)) at in
    let (b₂, e₂, h₂) =
      next_int _ _ _ 4 message_magic_code (back_4 message_magic_code message_magic_code-FitsIn)
        h₁ in
    let (b₃, e₃, h₃) =
      read_record-IsAt go ctx check_crc should_read (pos msg_len) msg query_offset wrote_offset rest
        b₂ fits hosts crc q w h₂ in
    let inside = wrap_difference b.write_pos b.read_pos msg_len reach small in
    (
      b₃,
      rw
          (
            check_message_and_return_size,
            ◌>>=◌,
            e₁,
            e₂,
            by_magic_code,
            same_int_refl message_magic_code,
            inside,
            e₃,
          )
          refl,
      h₃,
    )
