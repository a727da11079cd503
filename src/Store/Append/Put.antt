-- ===== src/Store/Append/Put.antt =====
-- What an append writes: the record of the message, or the blank that ends the file.
use ttstringgolangiot.Base.{
  ℕ, ◌+◌, ◌-◌, ◌*◌, ◌%◌, ◌^◌, ◌≤◌, ◌<◌, ◌≡◌, refl, sym, true, false, some, List, [], ◌∷◌, ◌++◌,
  arith, if◌then◌else◌, length, length-append, length-drop, ◌⊎◌, inl, inr, Option-cases,
  length-replicate, lookup, lookup-insert, ◌≟◌, Option, none, Dict, ltb,
}
use native.Mathlib.Nat.{mod-eq_of_lt}
use ttstringgolangiot.Base.Int.{ℤ, pos}
use ttstringgolangiot.Base.Bytes.{length-be_bytes, to_word, of_word}
use ttstringgolangiot.Store.Buffer.{MappedByteBuffer, int_to_bytes}
use ttstringgolangiot.Store.Properties.{bytes_eq}
use ttstringgolangiot.Store.Append.{
  MessageExtBrokerInner, AppendState, AppendMessageResult, append_put_ok, end_of_file,
  record_length, message_chunks, blank_chunks, chunk_unless_empty, do_append, put_record, end_file,
  with_key, query_offset_of, queue_key, takes_offset, or_zero, count_message, keyed, with_key,
}
use ttstringgolangiot.Store.Address.{
  GoLibrary, host_string_to_bytes, split_host_port, address_bytes, create_message_id,
}
use ttstringgolangiot.Store.Append.Chunks.{concat, IsAppended, write_record-IsAppended}

-- An address of a message takes eight bytes.
pub record HasAddresses (go : GoLibrary) (msg : MessageExtBrokerInner) : Type 0 where
  pub born : 8 ≡ length (host_string_to_bytes go msg.born_host)
  pub store : 8 ≡ length (host_string_to_bytes go msg.store_host)

pub length-int_to_bytes : (k : ℕ) (i : ℤ) → length (int_to_bytes k i) ≡ k
unfolding int_to_bytes
length-int_to_bytes k i = length-be_bytes k (to_word (8 * k) i)

-- `net.ParseIP` gives nil or the 16 bytes of the address.
abbrev pub ParsesIps : GoLibrary → Type 0
ParsesIps go = (host : List ℕ) → (length (go.parse_ip host) ≡ 0) ⊎ (length (go.parse_ip host) ≡ 16)

length-address_bytes :
    (ip : List ℕ) → (length ip ≡ 0) ⊎ (length ip ≡ 16) → length (address_bytes ip) ≡ 4
length-address_bytes [] h = refl
length-address_bytes (x ∷ ip) (inl e) = absurd (omega arith)
length-address_bytes (x ∷ ip) (inr e) = omega (arith, length-drop 12 (x ∷ ip))

length-host_string_to_bytes :
    (go : GoLibrary) (addr : List ℕ) → ParsesIps go → length (host_string_to_bytes go addr) ≡ 8
unfolding host_string_to_bytes
length-host_string_to_bytes go addr ips = elim (Option-cases (split_host_port go addr)) [
  | inl e ↦ rw (host_string_to_bytes, e) refl
  | inr ((host, port), e) ↦
      rw (host_string_to_bytes, e)
        (omega (
          arith,
          length-append (address_bytes (go.parse_ip host)) (int_to_bytes 4 port),
          length-address_bytes (go.parse_ip host) (ips host),
          length-int_to_bytes 4 port,
        ))
]

pub has_addresses :
    (go : GoLibrary) (msg : MessageExtBrokerInner) → ParsesIps go → HasAddresses go msg
has_addresses go msg ips = record {
  born = sym (length-host_string_to_bytes go msg.born_host ips);
  store = sym (length-host_string_to_bytes go msg.store_host ips);
}

pub length-++ : (xs ys : List ℕ) → length (xs ++ ys) ≡ length xs + length ys
length-++ xs ys = length-append xs ys

length-chunk_unless_empty :
    (xs : List ℕ) (chunks : List (List ℕ))
    → length (concat (chunk_unless_empty xs chunks)) ≡ length xs + length (concat chunks)
length-chunk_unless_empty [] chunks = omega arith
length-chunk_unless_empty (x ∷ xs) chunks = length-append (x ∷ xs) (concat chunks)

pub length-message_chunks :
    (go : GoLibrary) (msg : MessageExtBrokerInner) (msg_len query_offset wrote_offset : ℕ)
    → HasAddresses go msg
    → length (concat (message_chunks go msg msg_len query_offset wrote_offset)) ≡ record_length msg
unfolding message_chunks record_length
length-message_chunks go msg msg_len query_offset wrote_offset hosts =
    omega
      (arith, length-++, length-int_to_bytes, length-chunk_unless_empty, hosts.born, hosts.store)

pub length-blank_chunks : (n : ℕ) → 8 ≤ n → length (concat (blank_chunks n)) ≡ n
unfolding blank_chunks
length-blank_chunks n h =
    omega (arith, length-++, length-int_to_bytes, length-replicate (n - 8) (0 + 0))

-- The room that an append relies on: the blank is what is left of the file, and the memory was
-- made for a message of the largest size and a blank.
pub record HasRoom (max_blank : ℕ) (s : AppendState) (file : MappedByteBuffer) : Type 0 where
  pub file_room : file.write_pos + max_blank ≤ file.limit
  pub file_mapped : file.limit ≤ length file.mmap_buf
  pub memory_room : s.max_message_size + 8 ≤ length s.msg_store_item_memory.mmap_buf

abbrev pub result_of :
    GoLibrary → MessageExtBrokerInner → AppendState → ℕ → List ℕ → AppendMessageResult
result_of go msg s wrote_offset id = record {
  status = append_put_ok;
  wrote_offset = wrote_offset;
  wrote_bytes = record_length msg;
  msg_id = id;
  store_timestamp = msg.store_timestamp;
  logics_offset = query_offset_of go msg s;
}

pub record_length_kept :
    (msg : MessageExtBrokerInner)
    → record_length msg < 2 ^ 31
    → of_word 32 (record_length msg % 2 ^ 32) ≡ pos (record_length msg)
record_length_kept msg h =
    let e : record_length msg % 2 ^ 32 ≡ record_length msg = mod-eq_of_lt (omega arith) in
    let low : ltb (record_length msg) (2 ^ 31) ≡ true = ground arith in rw (e, low) refl

-- The state after the message was put.
abbrev pub put_state :
    GoLibrary → MessageExtBrokerInner → AppendState → MappedByteBuffer → AppendState
put_state go msg s memory = record s {
  msg_store_item_memory = memory;
  topic_queue_table =
      count_message go msg (query_offset_of go msg s) (with_key go msg s).topic_queue_table;
}

keyed_lem :
    (k j : List ℕ) (o : Option ℕ) (table : Dict (List ℕ) ℕ)
    → lookup k table ≡ o
    → lookup j (keyed k o table) ≡ (if k ≟ j then some (or_zero o) else lookup j table)
keyed_lem k j none table e = lookup-insert k j 0 table
keyed_lem k j (some n) table e = ground (arith, bytes_eq.beq_iff k j)

-- Each queue's next offset after the message was put.
pub put_state_lem :
    (go : GoLibrary) (msg : MessageExtBrokerInner) (s : AppendState) (memory : MappedByteBuffer)
    (j : List ℕ)
    → lookup j (put_state go msg s memory).topic_queue_table ≡ (
        if queue_key go msg ≟ j
        then some (
            if takes_offset msg.sys_flag
            then query_offset_of go msg s + 1
            else query_offset_of go msg s)
        else lookup j s.topic_queue_table)
unfolding count_message with_key
put_state_lem go msg s memory j =
    let k = queue_key go msg in
    let o = lookup k s.topic_queue_table in
    ground (
      arith,
      keyed_lem k j o s.topic_queue_table refl,
      lookup-insert k j (query_offset_of go msg s + 1) (keyed k o s.topic_queue_table),
    )

module _ (go : GoLibrary) (from max_blank : ℕ) (file : MappedByteBuffer)
    (msg : MessageExtBrokerInner) (s : AppendState) (id : List ℕ)
    (made : create_message_id go msg.store_host (from + file.write_pos) ≡ some id)
    (int32 : record_length msg < 2 ^ 31) (allowed : record_length msg ≤ s.max_message_size)
    (room : HasRoom max_blank s file) where
  pub do_append_fits :
      HasAddresses go msg
      → record_length msg + 8 ≤ max_blank
      → (memory' : MappedByteBuffer) × (file' : MappedByteBuffer) × (do_append go from file
            max_blank msg s
          ≡ some (result_of go msg s (from + file.write_pos) id, put_state go msg s memory', file'))
        × (length memory'.mmap_buf ≡ length s.msg_store_item_memory.mmap_buf)
        × IsAppended file
            (concat (
              message_chunks go msg
                (record_length msg)
                (query_offset_of go msg s)
                (from + file.write_pos)))
            file'
  unfolding do_append put_record with_key
  do_append_fits hosts fits =
      let q = query_offset_of go msg s in
      let chunks = message_chunks go msg (record_length msg) q (from + file.write_pos) in
      let (memory', file', e, kept, h) =
        write_record-IsAppended chunks (record_length msg) s.msg_store_item_memory file
          (length-message_chunks go msg (record_length msg) q (from + file.write_pos) hosts)
          (omega (arith, room.memory_room)) (omega (arith, room.file_room)) room.file_mapped in
      let small : ltb s.max_message_size (record_length msg) ≡ false = ground arith in
      let free : ltb max_blank (record_length msg + 8) ≡ false = ground arith in
      (
        memory',
        file',
        rw (do_append, made, record_length_kept msg int32, small, free, put_record, e) refl,
        kept,
        h,
      )

  -- The rest of the file becomes a blank, and the queues' offsets stay.
  pub do_append_full :
      8 ≤ max_blank
      → max_blank < record_length msg + 8
      → (memory' : MappedByteBuffer) × (file' : MappedByteBuffer) × (do_append go from file
            max_blank msg s
          ≡ some (
            record (result_of go msg s (from + file.write_pos) id) {
              status = end_of_file;
              wrote_bytes = max_blank;
            },
            record (with_key go msg s) { msg_store_item_memory = memory' },
            file',
          ))
        × (length memory'.mmap_buf ≡ length s.msg_store_item_memory.mmap_buf)
        × IsAppended file (concat (blank_chunks max_blank)) file'
  unfolding do_append end_file with_key
  do_append_full least full =
      let (memory', file', e, kept, h) =
        write_record-IsAppended (blank_chunks max_blank) max_blank s.msg_store_item_memory file
          (length-blank_chunks max_blank least) (omega (arith, room.memory_room)) room.file_room
          room.file_mapped in
      let small : ltb s.max_message_size (record_length msg) ≡ false = ground arith in
      let free : ltb max_blank (record_length msg + 8) ≡ true = ground arith in
      let some_left : ltb max_blank 8 ≡ false = ground arith in
      (
        memory',
        file',
        rw (do_append, made, record_length_kept msg int32, small, free, end_file, some_left, e)
            refl,
        kept,
        h,
      )
