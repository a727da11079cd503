-- ===== src/Store/Check/Appended.antt =====
-- What the check of the commit log says of the bytes that an append wrote to a file.
use ttstringgolangiot.Base.{
  ℕ, ◌+◌, ◌^◌, ◌≤◌, ◌<◌, ◌≡◌, refl, sym, ap, ◌∙◌, Bool, false, some, List, ◌++◌, append_assoc,
  arith, length, length-take, take, drop, take-append-drop,
}
use ttstringgolangiot.Base.Int.{pos}
use ttstringgolangiot.Store.Buffer.{MappedByteBuffer}
use ttstringgolangiot.Store.Buffer.Roundtrip.{FitsIn, take-append, drop-append}
use ttstringgolangiot.Store.Append.{
  MessageExtBrokerInner, AppendState, end_of_file, record_length, message_chunks, blank_chunks,
  do_append, with_key, query_offset_of, blank_magic_code, message_magic_code,
}
use ttstringgolangiot.Store.Address.{GoLibrary, create_message_id}
use ttstringgolangiot.Store.Append.Chunks.{concat, IsAppended}
use ttstringgolangiot.Store.Append.Put.{
  ParsesIps, has_addresses, HasRoom, result_of, put_state, do_append_fits, do_append_full,
  length-message_chunks, length-blank_chunks,
}
use ttstringgolangiot.Store.Check.{
  CheckContext, request_of, check_message_and_return_size, by_magic_code, only_size, same_int,
  ◌>>=◌,
}
use ttstringgolangiot.Store.Check.Steps.{IsAt, next_int, back_4}
use ttstringgolangiot.Store.Check.Parts.{IsStorable, fields_of, same_int_refl}
use ttstringgolangiot.Store.Check.Roundtrip.{check_message_and_return_size-IsAt}

-- A reader at the place where the bytes were written.
abbrev pub reader_at : ℕ → MappedByteBuffer → MappedByteBuffer
reader_at at b = record b { read_pos = at }

appended-split :
    (b : MappedByteBuffer) (bytes : List ℕ) (b' : MappedByteBuffer)
    → IsAppended b bytes b'
    → b'.mmap_buf ≡ take b.write_pos b.mmap_buf ++ (bytes ++ drop b'.write_pos b'.mmap_buf)
appended-split b bytes b' h =
    let after = drop b'.write_pos b'.mmap_buf in
    sym (take-append-drop b'.write_pos b'.mmap_buf)
    ∙ (ap (λ xs. xs ++ after) h.bytes_there
        ∙ append_assoc (take b.write_pos b.mmap_buf) bytes after)

pub appended-before :
    (b : MappedByteBuffer) (bytes : List ℕ) (b' : MappedByteBuffer)
    → b.write_pos ≤ length b.mmap_buf
    → IsAppended b bytes b'
    → take b.write_pos b'.mmap_buf ≡ take b.write_pos b.mmap_buf
appended-before b bytes b' inside h =
    ap (take b.write_pos) (appended-split b bytes b' h)
    ∙ take-append (take b.write_pos b.mmap_buf) (bytes ++ drop b'.write_pos b'.mmap_buf) b.write_pos
        (omega (arith, length-take b.write_pos b.mmap_buf))

pub appended-IsAt :
    (b : MappedByteBuffer) (bytes : List ℕ) (b' : MappedByteBuffer)
    → b.write_pos ≤ length b.mmap_buf
    → IsAppended b bytes b'
    → IsAt (reader_at b.write_pos b') (bytes ++ drop b'.write_pos b'.mmap_buf)
appended-IsAt b bytes b' inside h = record {
  inside = omega (arith, h.size_kept);
  left =
      ap (drop b.write_pos) (appended-split b bytes b' h)
      ∙ drop-append (take b.write_pos b.mmap_buf) (bytes ++ drop b'.write_pos b'.mmap_buf)
          b.write_pos (omega (arith, length-take b.write_pos b.mmap_buf));
}

blank_magic_code-FitsIn : FitsIn 32 blank_magic_code
unfolding FitsIn blank_magic_code
blank_magic_code-FitsIn = omega arith

blank_is_no_message : same_int blank_magic_code message_magic_code ≡ false
unfolding blank_magic_code message_magic_code
blank_is_no_message = refl

module _ (go : GoLibrary) (from max_blank : ℕ) (file : MappedByteBuffer)
    (msg : MessageExtBrokerInner) (s : AppendState) (id : List ℕ) (ctx : CheckContext)
    (check_crc should_read : Bool)
    (made : create_message_id go msg.store_host (from + file.write_pos) ≡ some id)
    (int32 : record_length msg < 2 ^ 31) (allowed : record_length msg ≤ s.max_message_size)
    (room : HasRoom max_blank s file) (file_small : file.write_pos + max_blank < 2 ^ 31) where
  -- When the identifier of a message can be made, its record has room in the memory, in the file
  -- with the blank after it and in an int32, the values fit their integers and the checksum is
  -- that of the body, then the append puts the record at the end of the file, leaving the bytes
  -- before it, and the check of what stands there gives back the fields of the message with its
  -- size, its offset in the log and the offset in its queue, whether it looks at the body or not.
  pub check_message_and_return_size-do_append :
      ParsesIps go
      → IsStorable msg
      → ctx.crc32 msg.body ≡ msg.body_crc
      → query_offset_of go msg s < 2 ^ 63
      → from + file.write_pos < 2 ^ 63
      → record_length msg + 8 ≤ max_blank
      → (memory : MappedByteBuffer) × (file' : MappedByteBuffer) × (read : MappedByteBuffer)
        × (do_append go from file max_blank msg s
            ≡ some
                (result_of go msg s (from + file.write_pos) id, put_state go msg s memory, file'))
        × (file'.write_pos ≡ file.write_pos + record_length msg)
        × (take file.write_pos file'.mmap_buf ≡ take file.write_pos file.mmap_buf)
        × (check_message_and_return_size ctx check_crc should_read (reader_at file.write_pos file')
            ≡ some (
              request_of ctx
                  (pos (record_length msg))
                  (fields_of msg (query_offset_of go msg s) (from + file.write_pos))
                  msg.topic
                  msg.properties_string,
              read,
            ))
  check_message_and_return_size-do_append ips fits crc q w free =
      let hosts = has_addresses go msg ips in
      let (memory, file', e, kept, h) =
        do_append_fits go from max_blank file msg s id made int32 allowed room hosts free in
      let q_at = query_offset_of go msg s in
      let chunks = message_chunks go msg (record_length msg) q_at (from + file.write_pos) in
      let n = length-message_chunks go msg (record_length msg) q_at (from + file.write_pos) hosts in
      let inside : file.write_pos ≤ length file.mmap_buf =
        omega (arith, room.file_room, room.file_mapped) in
      let (read, r, at) =
        check_message_and_return_size-IsAt go ctx check_crc should_read msg (record_length msg) q_at
          (from + file.write_pos) (drop file'.write_pos file'.mmap_buf)
          (reader_at file.write_pos file') fits hosts crc q w (omega (arith, h.position, n))
          (omega (arith, h.position, n, file_small))
          (appended-IsAt file (concat chunks) file' inside h) in
      (
        memory,
        file',
        read,
        e,
        h.position ∙ ap (λ k. file.write_pos + k) n,
        appended-before file (concat chunks) file' inside h,
        r,
      )

  -- When a message of an allowed size does not fit with a blank of eight bytes after it, but such
  -- a blank does, then the append fills the file up to its end with a blank, puts no message in
  -- and advances no queue, and the check of what stands there answers the size 0.
  pub check_message_and_return_size-do_append_full :
      8 ≤ max_blank
      → max_blank < record_length msg + 8
      → (memory : MappedByteBuffer) × (file' : MappedByteBuffer) × (read : MappedByteBuffer)
        × (do_append go from file max_blank msg s
            ≡ some (
              record (result_of go msg s (from + file.write_pos) id) {
                status = end_of_file;
                wrote_bytes = max_blank;
              },
              record (with_key go msg s) { msg_store_item_memory = memory },
              file',
            ))
        × (file'.write_pos ≡ file.write_pos + max_blank)
        × (check_message_and_return_size ctx check_crc should_read (reader_at file.write_pos file')
            ≡ some (only_size (pos 0), read))
  unfolding check_message_and_return_size by_magic_code blank_chunks FitsIn
  check_message_and_return_size-do_append_full least full =
      let (memory, file', e, kept, h) =
        do_append_full go from max_blank file msg s id made int32 allowed room least full in
      let at =
        appended-IsAt file (concat (blank_chunks max_blank)) file'
          (omega (arith, room.file_room, room.file_mapped)) h in
      let (b₁, e₁, h₁) =
        next_int _ _ _ 4 (pos max_blank)
          (back_4 (pos max_blank) (omega (arith, room.file_room, file_small))) at in
      let (b₂, e₂, h₂) =
        next_int _ _ _ 4 blank_magic_code (back_4 blank_magic_code blank_magic_code-FitsIn) h₁ in
      (
        memory,
        file',
        b₂,
        e,
        h.position ∙ ap (λ n. file.write_pos + n) (length-blank_chunks max_blank least),
        rw
            (
              check_message_and_return_size,
              ◌>>=◌,
              e₁,
              e₂,
              by_magic_code,
              blank_is_no_message,
              same_int_refl blank_magic_code,
            )
            refl,
      )
