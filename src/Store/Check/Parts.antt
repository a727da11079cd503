-- ===== src/Store/Check/Parts.antt =====
-- Reading the parts of the record of a message that was written: its fields, its body and the rest.
use ttstringgolangiot.Base.{
  ℕ, suc, ◌+◌, ◌^◌, ◌<◌, ◌≡◌, refl, Bool, true, false, some, List, [], ◌∷◌, ◌++◌, arith, length,
  ==_iff,
}
use ttstringgolangiot.Base.Int.{ℤ, pos, negsuc}
use ttstringgolangiot.Store.Buffer.{MappedByteBuffer, int_to_bytes}
use ttstringgolangiot.Store.Buffer.Roundtrip.{FitsIn}
use ttstringgolangiot.Store.Append.{MessageExtBrokerInner, chunk_unless_empty}
use ttstringgolangiot.Store.Address.{GoLibrary, host_string_to_bytes}
use ttstringgolangiot.Store.Append.Chunks.{concat}
use ttstringgolangiot.Store.Check.{
  CheckContext, Fields, read_fields, read_body, read_text, read_tail, request_of, same_int, ◌>>=◌,
}
use ttstringgolangiot.Store.Check.Steps.{
  IsAt, advance-IsAt, shifted, read_text-IsAt, next_int, next_bytes, next_text, back_1, back_2,
  back_4, back_8,
}

-- Do the values of a message fit the integers that they are written as.
pub record IsStorable (msg : MessageExtBrokerInner) : Type 0 where
  pub topic_fits : length msg.topic < 128
  pub body_fits : length msg.body < 2 ^ 31
  pub properties_fit : length msg.properties_string < 2 ^ 15
  pub body_crc_fits : FitsIn 32 msg.body_crc
  pub queue_id_fits : FitsIn 32 msg.queue_id
  pub flag_fits : FitsIn 32 msg.flag
  pub sys_flag_fits : FitsIn 32 msg.sys_flag
  pub born_fits : FitsIn 64 msg.born_timestamp
  pub store_fits : msg.store_timestamp < 2 ^ 63
  pub times_fit : FitsIn 32 msg.reconsume_times
  pub prepared_fits : FitsIn 64 msg.prepared_transaction_offset

-- The fields that a record gives back.
abbrev pub fields_of : MessageExtBrokerInner → ℕ → ℕ → Fields
fields_of msg query_offset wrote_offset = record {
  body_crc = msg.body_crc;
  queue_id = msg.queue_id;
  queue_offset = pos query_offset;
  physic_offset = pos wrote_offset;
  sys_flag = msg.sys_flag;
  store_timestamp = pos msg.store_timestamp;
  prepared_transaction_offset = msg.prepared_transaction_offset;
}

abbrev pub field_chunks : GoLibrary → MessageExtBrokerInner → ℕ → ℕ → List (List ℕ) → List (List ℕ)
field_chunks go msg query_offset wrote_offset chunks =
    int_to_bytes 4 msg.body_crc
    ∷ int_to_bytes 4 msg.queue_id
    ∷ int_to_bytes 4 msg.flag
    ∷ int_to_bytes 8 (pos query_offset)
    ∷ int_to_bytes 8 (pos wrote_offset)
    ∷ int_to_bytes 4 msg.sys_flag
    ∷ int_to_bytes 8 msg.born_timestamp
    ∷ host_string_to_bytes go msg.born_host
    ∷ int_to_bytes 8 (pos msg.store_timestamp)
    ∷ host_string_to_bytes go msg.store_host
    ∷ int_to_bytes 4 msg.reconsume_times
    ∷ int_to_bytes 8 msg.prepared_transaction_offset
    ∷ chunks

pub read_fields-IsAt :
    (go : GoLibrary) (msg : MessageExtBrokerInner) (query_offset wrote_offset : ℕ)
    (chunks : List (List ℕ)) (rest : List ℕ) (b : MappedByteBuffer)
    → IsStorable msg
    → query_offset < 2 ^ 63
    → wrote_offset < 2 ^ 63
    → 8 ≡ length (host_string_to_bytes go msg.born_host)
    → 8 ≡ length (host_string_to_bytes go msg.store_host)
    → IsAt b (concat (field_chunks go msg query_offset wrote_offset chunks) ++ rest)
    → (b' : MappedByteBuffer) × (read_fields b ≡ some (fields_of msg query_offset wrote_offset, b'))
      × IsAt b' (concat chunks ++ rest)
unfolding read_fields FitsIn
read_fields-IsAt go msg query_offset wrote_offset chunks rest b fits q w born store at =
    let (b₁, e₁, h₁) = next_int _ _ _ 4 msg.body_crc (back_4 msg.body_crc fits.body_crc_fits) at in
    let (b₂, e₂, h₂) = next_int _ _ _ 4 msg.queue_id (back_4 msg.queue_id fits.queue_id_fits) h₁ in
    let (b₃, e₃, h₃) = next_int _ _ _ 4 msg.flag (back_4 msg.flag fits.flag_fits) h₂ in
    let (b₄, e₄, h₄) =
      next_int _ _ _ 8 (pos query_offset) (back_8 (pos query_offset) (omega arith)) h₃ in
    let (b₅, e₅, h₅) =
      next_int _ _ _ 8 (pos wrote_offset) (back_8 (pos wrote_offset) (omega arith)) h₄ in
    let (b₆, e₆, h₆) = next_int _ _ _ 4 msg.sys_flag (back_4 msg.sys_flag fits.sys_flag_fits) h₅ in
    let (b₇, e₇, h₇) =
      next_int _ _ _ 8 msg.born_timestamp (back_8 msg.born_timestamp fits.born_fits) h₆ in
    let (b₈, e₈, h₈) = next_bytes _ _ _ 8 (host_string_to_bytes go msg.born_host) born h₇ in
    let (b₉, e₉, h₉) =
      next_int _ _ _ 8 (pos msg.store_timestamp)
        (back_8 (pos msg.store_timestamp) (omega (arith, fits.store_fits))) h₈ in
    let (c₁, d₁, k₁) = next_bytes _ _ _ 8 (host_string_to_bytes go msg.store_host) store h₉ in
    let (c₂, d₂, k₂) =
      next_int _ _ _ 4 msg.reconsume_times (back_4 msg.reconsume_times fits.times_fit) k₁ in
    let (c₃, d₃, k₃) =
      next_int _ _ _ 8 msg.prepared_transaction_offset
        (back_8 msg.prepared_transaction_offset fits.prepared_fits) k₂ in
    (c₃, rw (read_fields, ◌>>=◌, e₁, e₂, e₃, e₄, e₅, e₆, e₇, e₈, e₉, d₁, d₂, d₃) refl, k₃)

pub same_int_refl : (i : ℤ) → same_int i i ≡ true
same_int_refl (pos n) = (==_iff n n).1 refl
same_int_refl (negsuc n) = (==_iff n n).1 refl

pub read_body-IsAt :
    (ctx : CheckContext) (check_crc should_read : Bool) (crc : ℤ) (body : List ℕ)
    (chunks : List (List ℕ)) (rest : List ℕ) (b : MappedByteBuffer)
    → ctx.crc32 body ≡ crc
    → IsAt b (concat (chunk_unless_empty body chunks) ++ rest)
    → (b' : MappedByteBuffer) × (read_body ctx check_crc should_read crc (pos (length body)) b
        ≡ some (true, b'))
      × IsAt b' (concat chunks ++ rest)
unfolding read_body
read_body-IsAt ctx check_crc should_read crc [] chunks rest b e at = (b, refl, at)
read_body-IsAt ctx check_crc false crc (x ∷ body) chunks rest b e at =
    let at' = shifted (x ∷ body) (concat chunks) rest b at in
    (
      record b { read_pos = b.read_pos + length (x ∷ body) },
      refl,
      advance-IsAt (x ∷ body) (concat chunks ++ rest) b at',
    )
read_body-IsAt ctx false true crc (x ∷ body) chunks rest b e at =
    let (b', r, k) = next_bytes _ _ _ (suc (length body)) (x ∷ body) refl at in
    (b', rw (read_body, ◌>>=◌, r) refl, k)
read_body-IsAt ctx true true crc (x ∷ body) chunks rest b e at =
    let (b', r, k) = next_bytes _ _ _ (suc (length body)) (x ∷ body) refl at in
    (b', rw (read_body, ◌>>=◌, r, e, same_int_refl crc) refl, k)

read_properties-IsAt :
    (bytes rest : List ℕ) (b : MappedByteBuffer)
    → IsAt b (concat (chunk_unless_empty bytes []) ++ rest)
    → (b' : MappedByteBuffer) × (read_text (pos (length bytes)) b ≡ some (bytes, b')) × IsAt b' rest
read_properties-IsAt [] rest b at = read_text-IsAt [] rest b at
read_properties-IsAt (x ∷ bytes) rest b at =
    read_text-IsAt (x ∷ bytes) rest b (shifted (x ∷ bytes) [] rest b at)

abbrev pub tail_chunks : MessageExtBrokerInner → List (List ℕ)
tail_chunks msg =
    int_to_bytes 1 (pos (length msg.topic))
    ∷ msg.topic
    ∷ int_to_bytes 2 (pos (length msg.properties_string))
    ∷ chunk_unless_empty msg.properties_string []

pub read_tail-IsAt :
    (ctx : CheckContext) (total_size : ℤ) (fields : Fields) (msg : MessageExtBrokerInner)
    (rest : List ℕ) (b : MappedByteBuffer)
    → IsStorable msg
    → IsAt b (concat (tail_chunks msg) ++ rest)
    → (b' : MappedByteBuffer) × (read_tail ctx total_size fields true b
        ≡ some (request_of ctx total_size fields msg.topic msg.properties_string, b'))
      × IsAt b' rest
unfolding read_tail FitsIn
read_tail-IsAt ctx total_size fields msg rest b fits at =
    let (b₁, e₁, h₁) =
      next_int _ _ _ 1 (pos (length msg.topic))
        (back_1 (pos (length msg.topic)) (omega (arith, fits.topic_fits))) at in
    let (b₂, e₂, h₂) = next_text _ _ _ msg.topic h₁ in
    let (b₃, e₃, h₃) =
      next_int _ _ _ 2 (pos (length msg.properties_string))
        (back_2 (pos (length msg.properties_string)) (omega (arith, fits.properties_fit))) h₂ in
    let (b₄, e₄, h₄) = read_properties-IsAt msg.properties_string rest b₃ h₃ in
    (b₄, rw (read_tail, ◌>>=◌, e₁, e₂, e₃, e₄) refl, h₄)
