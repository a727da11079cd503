-- ===== src/Store/Append.antt =====
-- Appending a message to a file of the commit log (stgstorelog/default_append_message_callback.go,
-- AppendMessageWithCallBack of stgstorelog/maped_file.go). `none` is a panic; a string is its bytes.
pub mod Chunks
pub mod Put
use Prim.Native.Nat.{bit_xor}
use ttstringgolangiot.Store.Address.{GoLibrary, host_string_to_bytes, create_message_id}
use ttstringgolangiot.Base.{
  ℕ, ◌+◌, ◌-◌, ◌%◌, ◌^◌, ◌==◌, Bool, ◌||◌, Option, none, some, List, [], ◌∷◌, ◌++◌, ltb,
  if◌then◌else◌, length, take, replicate, Dict, lookup, insert,
}
use ttstringgolangiot.Base.Int.{ℤ, pos, negsuc}
use ttstringgolangiot.Base.Bytes.{to_word, of_word}
use ttstringgolangiot.Common.Flags.{get_transaction_value}
use ttstringgolangiot.Store.Buffer.{MappedByteBuffer, write, after_write, int_to_bytes}
use ttstringgolangiot.Store.MapedFile.{MapedFile}
use ttstringgolangiot.Store.Properties.{bytes_eq}

-- The fields of MessageExtBrokerInner that putting it reads, those of the message inside it too.
pub record MessageExtBrokerInner : Type 0 where
  pub topic : List ℕ
  pub flag : ℤ
  pub body : List ℕ
  pub properties_string : List ℕ
  pub queue_id : ℤ
  pub body_crc : ℤ
  pub sys_flag : ℤ
  pub born_timestamp : ℤ
  pub born_host : List ℕ
  pub store_timestamp : ℕ
  pub store_host : List ℕ
  pub reconsume_times : ℤ
  pub prepared_transaction_offset : ℤ
  pub properties : Dict (List ℕ) (List ℕ)
  pub tags_code : ℤ
  pub queue_offset : ℤ

pub data AppendMessageStatus : Type 0 where
  append_put_ok : AppendMessageStatus
  end_of_file : AppendMessageStatus
  message_size_exceeded : AppendMessageStatus
  append_unknown_error : AppendMessageStatus

pub record AppendMessageResult : Type 0 where
  pub status : AppendMessageStatus
  pub wrote_offset : ℕ
  pub wrote_bytes : ℕ
  pub msg_id : List ℕ
  pub store_timestamp : ℕ
  pub logics_offset : ℕ

abbrev pub failed_append : AppendMessageStatus → AppendMessageResult
failed_append s = record {
  status = s;
  wrote_offset = 0;
  wrote_bytes = 0;
  msg_id = [];
  store_timestamp = 0;
  logics_offset = 0;
}

abbrev pub end_file_min_blank_length : ℕ
end_file_min_blank_length = 8

-- `int32(MessageMagicCode)` and `int32(BlankMagicCode)`: the constants are
-- `(0xAABBCCDD ^ 1880681586) + 8` and `(0xBBCCDDEE ^ 1880681586) + 8`.
unfoldable pub message_magic_code : ℤ
message_magic_code = of_word 32 ((bit_xor 2864434397 1880681586 + 8) % 2 ^ 32)

unfoldable pub blank_magic_code : ℤ
blank_magic_code = of_word 32 ((bit_xor 3150765550 1880681586 + 8) % 2 ^ 32)

-- The length of the record of a message, before it is taken as an int32.
unfoldable pub record_length : MessageExtBrokerInner → ℕ
record_length msg = 91 + length msg.body + length msg.topic + length msg.properties_string

-- The bytes of one `Write` after another; a write that does not fit is passed over.
unfoldable pub write_all : List (List ℕ) → MappedByteBuffer → Option MappedByteBuffer
write_all [] b = some b
write_all (bytes ∷ chunks) b = elim (after_write b (write bytes b)) [
  | none ↦ none
  | some b' ↦ write_all chunks b'
]

-- A body or the properties are written only when there are any.
abbrev pub chunk_unless_empty : List ℕ → List (List ℕ) → List (List ℕ)
chunk_unless_empty [] chunks = chunks
chunk_unless_empty (x ∷ xs) chunks = (x ∷ xs) ∷ chunks

unfoldable pub message_chunks : GoLibrary → MessageExtBrokerInner → ℕ → ℕ → ℕ → List (List ℕ)
message_chunks go msg msg_len query_offset wrote_offset =
    int_to_bytes 4 (pos msg_len)
    ∷ int_to_bytes 4 message_magic_code
    ∷ int_to_bytes 4 msg.body_crc
    ∷ int_to_bytes 4 msg.queue_id
    ∷ int_to_bytes 4 msg.flag
    ∷ int_to_bytes 8 (pos query_offset)
    ∷ int_to_bytes 8 (pos wrote_offset)
    ∷ int_to_bytes 4 msg.sys_flag
    ∷ int_to_bytes 8 msg.born_timestamp
    ∷ host_string_to_bytes go msg.born_host
    ∷ int_to_bytes 8 (pos msg.store_timestamp)
    ∷ host_string_to_bytes go msg.store_host
    ∷ int_to_bytes 4 msg.reconsume_times
    ∷ int_to_bytes 8 msg.prepared_transaction_offset
    ∷ int_to_bytes 4 (pos (length msg.body))
    ∷ chunk_unless_empty msg.body (
        int_to_bytes 1 (pos (length msg.topic))
        ∷ msg.topic
        ∷ int_to_bytes 2 (pos (length msg.properties_string))
        ∷ chunk_unless_empty msg.properties_string [])

unfoldable pub blank_chunks : ℕ → List (List ℕ)
blank_chunks max_blank =
    int_to_bytes 4 (pos max_blank)
    ∷ int_to_bytes 4 blank_magic_code
    ∷ replicate (max_blank - 8) 0
    ∷ []

-- DefaultAppendMessageCallback with the table of its commit log.
pub record AppendState : Type 0 where
  pub msg_store_item_memory : MappedByteBuffer
  pub max_message_size : ℕ
  pub topic_queue_table : Dict (List ℕ) ℕ

unfoldable pub reset_msg_store_item_memory : ℕ → MappedByteBuffer → MappedByteBuffer
reset_msg_store_item_memory n b = record b { write_pos = 0; limit = n }

-- The record is put together in the memory and its bytes are written to the file.
unfoldable pub write_record :
    ℕ
    → List (List ℕ)
    → MappedByteBuffer
    → MappedByteBuffer
    → Option (MappedByteBuffer × MappedByteBuffer)
write_record n chunks memory file = elim (write_all chunks (reset_msg_store_item_memory n memory)) [
  | none ↦ none
  | some memory' ↦ elim (after_write file (write (take memory'.write_pos memory'.mmap_buf) file)) [
    | none ↦ none
    | some file' ↦ some (memory', file')
  ]
]

abbrev pub queue_key : GoLibrary → MessageExtBrokerInner → List ℕ
queue_key go msg = msg.topic ++ (b'-' ∷ go.itoa msg.queue_id)

abbrev pub or_zero : Option ℕ → ℕ
or_zero none = 0
or_zero (some n) = n

-- The offset of the queue goes on unless the message prepares a transaction or rolls one back.
abbrev pub takes_offset : ℤ → Bool
takes_offset sys_flag =
    get_transaction_value (to_word 32 sys_flag) == 0
    || get_transaction_value (to_word 32 sys_flag) == 8

-- The key of the queue is put into the table before anything is checked.
abbrev pub keyed : List ℕ → Option ℕ → Dict (List ℕ) ℕ → Dict (List ℕ) ℕ
keyed k none table = insert k 0 table
keyed k (some n) table = table

unfoldable pub with_key : GoLibrary → MessageExtBrokerInner → AppendState → AppendState
with_key go msg s = record s {
  topic_queue_table =
      keyed (queue_key go msg) (lookup (queue_key go msg) s.topic_queue_table) s.topic_queue_table;
}

abbrev pub query_offset_of : GoLibrary → MessageExtBrokerInner → AppendState → ℕ
query_offset_of go msg s = or_zero (lookup (queue_key go msg) s.topic_queue_table)

-- The end of an append: the result, the state and the file's buffer.
abbrev pub finish :
    AppendMessageResult
    → (MappedByteBuffer → AppendState)
    → Option (MappedByteBuffer × MappedByteBuffer)
    → Option (AppendMessageResult × AppendState × MappedByteBuffer)
finish result state none = none
finish result state (some (memory, file)) = some (result, state memory, file)

unfoldable pub end_file :
    AppendMessageResult
    → ℕ
    → AppendState
    → MappedByteBuffer
    → Option (AppendMessageResult × AppendState × MappedByteBuffer)
end_file result max_blank s file =
    if ltb max_blank 8
    then none
    else finish result (λ memory. record s { msg_store_item_memory = memory })
        (write_record max_blank (blank_chunks max_blank) s.msg_store_item_memory file)

unfoldable pub count_message :
    GoLibrary → MessageExtBrokerInner → ℕ → Dict (List ℕ) ℕ → Dict (List ℕ) ℕ
count_message go msg query_offset table =
    if takes_offset msg.sys_flag then insert (queue_key go msg) (query_offset + 1) table else table

unfoldable pub put_record :
    AppendMessageResult
    → GoLibrary
    → MessageExtBrokerInner
    → AppendState
    → MappedByteBuffer
    → Option (AppendMessageResult × AppendState × MappedByteBuffer)
put_record result go msg s file =
    finish result
      (λ memory. record s {
        msg_store_item_memory = memory;
        topic_queue_table = count_message go msg result.logics_offset s.topic_queue_table;
      })
      (write_record result.wrote_bytes
        (message_chunks go msg result.wrote_bytes result.logics_offset result.wrote_offset)
        s.msg_store_item_memory file)

-- A length that is not one of an int32 makes a record that cannot be cut from the memory. The
-- int32 sum of the length and the eight bytes of a blank is taken without its wrap-around: lengths
-- are those below 2 ^ 31 - 8.
unfoldable pub do_append :
    GoLibrary
    → ℕ
    → MappedByteBuffer
    → ℕ
    → MessageExtBrokerInner
    → AppendState
    → Option (AppendMessageResult × AppendState × MappedByteBuffer)
do_append go file_from_offset file max_blank msg s =
    elim (create_message_id go msg.store_host (file_from_offset + file.write_pos)) [
      | none ↦ none
      | some id ↦ elim (of_word 32 (record_length msg % 2 ^ 32)) [
        | negsuc n ↦ none
        | pos msg_len ↦
            let s' : AppendState = with_key go msg s in
            let result : AppendMessageResult = record {
              status = append_put_ok;
              wrote_offset = file_from_offset + file.write_pos;
              wrote_bytes = msg_len;
              msg_id = id;
              store_timestamp = msg.store_timestamp;
              logics_offset = query_offset_of go msg s;
            } in
            if ltb s.max_message_size msg_len
            then some (failed_append message_size_exceeded, s', file)
            else if ltb max_blank (msg_len + end_file_min_blank_length)
            then end_file (record result { status = end_of_file; wrote_bytes = max_blank })
                max_blank s' file
            else put_record result go msg s' file
      ]
    ]

-- `AppendMessageWithCallBack`.
unfoldable pub append_message_with_callback :
    GoLibrary
    → MessageExtBrokerInner
    → AppendState
    → MapedFile
    → Option (AppendMessageResult × AppendState × MapedFile)
append_message_with_callback go msg s f =
    if ltb f.wrote_position f.file_size
    then elim (do_append go f.file_from_offset f.mapped_byte_buffer (f.file_size - f.wrote_position)
        msg s) [
          | none ↦ none
          | some (result, s', b) ↦ some (
            result,
            s',
            record f {
              mapped_byte_buffer = b;
              wrote_position = f.wrote_position + result.wrote_bytes;
              store_timestamp = result.store_timestamp;
            },
          )
        ]
    else some (failed_append append_unknown_error, s, f)
