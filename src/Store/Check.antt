-- ===== src/Store/Check.antt =====
-- Reading a record of the commit log (checkMessageAndReturnSize, stgstorelog/commit_log.go), with
-- DispatchRequest and the delay of a scheduled message (stgstorelog/schedule_message_service.go).
-- `none` is a panic. `crc32`, `Atoi` and the service's table are parameters.
pub mod Appended
pub mod Parts
pub mod Steps
pub mod Roundtrip
use ttstringgolangiot.Base.{
  ℕ, zero, suc, ◌+◌, ◌-◌, Bool, true, false, ◌&&◌, Option, none, some, List, [], ◌++◌, ◌==◌,
  if◌then◌else◌, length, replicate, Dict, lookup,
}
use ttstringgolangiot.Base.Text.{codes}
use ttstringgolangiot.Base.Int.{ℤ, pos, negsuc, ◌+ℤ◌, ◌-ℤ◌, ltb_ℤ}
use ttstringgolangiot.Base.Bytes.{to_word, of_word}
use ttstringgolangiot.Store.Buffer.{MappedByteBuffer, read, read_int}
use ttstringgolangiot.Store.Properties.{
  bytes_eq, same_bytes, bytes_to_message_properties, tags_string_to_tags_code,
  parse_topic_filter_type,
}
use ttstringgolangiot.Store.Append.{message_magic_code, blank_magic_code}

pub record DispatchRequest : Type 0 where
  pub topic : List ℕ
  pub queue_id : ℤ
  pub commit_log_offset : ℤ
  pub msg_size : ℤ
  pub tags_code : ℤ
  pub store_timestamp : ℤ
  pub consume_queue_offset : ℤ
  pub keys : List ℕ
  pub sys_flag : ℤ
  pub prepared_transaction_offset : ℤ
  pub producer_group : List ℕ
  pub tran_state_table_offset : ℤ

-- A request that says no more than the size.
abbrev pub only_size : ℤ → DispatchRequest
only_size n = record {
  topic = [];
  queue_id = pos 0;
  commit_log_offset = pos 0;
  msg_size = n;
  tags_code = pos 0;
  store_timestamp = pos 0;
  consume_queue_offset = pos 0;
  keys = [];
  sys_flag = pos 0;
  prepared_transaction_offset = pos 0;
  producer_group = [];
  tran_state_table_offset = pos 0;
}

-- A conversion to a signed integer of `w` bits.
abbrev pub wrap : ℕ → ℤ → ℤ
wrap w i = of_word w (to_word w i)

-- ScheduleMessageService: its levels, and the delay of each.
pub record ScheduleMessageService : Type 0 where
  pub max_delay_level : ℤ
  pub delay_level_table : ℤ → Option ℤ

unfoldable pub compute_deliver_timestamp : ScheduleMessageService → ℤ → ℤ → ℤ
compute_deliver_timestamp service delay_level store_timestamp =
    elim (service.delay_level_table delay_level) [
      | some time ↦ wrap 64 (time +ℤ store_timestamp)
      | none ↦ wrap 64 (store_timestamp +ℤ pos 1000)
    ]

pub record CheckContext : Type 0 where
  pub crc32 : List ℕ → ℤ
  pub atoi : List ℕ → ℤ
  pub schedule : ScheduleMessageService

abbrev pub same_int : ℤ → ℤ → Bool
same_int (pos a) (pos b) = a == b
same_int (pos a) (negsuc b) = false
same_int (negsuc a) (pos b) = false
same_int (negsuc a) (negsuc b) = a == b

abbrev pub Reading : Type 0 → Type 0
Reading A = MappedByteBuffer → Option (A × MappedByteBuffer)

infixl 5 ◌>>=◌
abbrev pub ◌>>=◌ : {A B : Type 0} → Reading A → (A → Reading B) → Reading B
◌>>=◌ m f b = elim (m b) [ none ↦ none | some (a, b') ↦ f a b' ]

abbrev pub return : {A : Type 0} → A → Reading A
return a b = some (a, b)

-- `Read` into a new slice: the bytes that are not there stay zero.
abbrev pub padded : ℕ → Option (List ℕ × MappedByteBuffer) → Option (List ℕ × MappedByteBuffer)
padded n none = none
padded n (some (bytes, b)) = some (bytes ++ replicate (n - length bytes) 0, b)

unfoldable pub read_new : ℕ → Reading (List ℕ)
read_new n b = padded n (read n b)

abbrev pub skip_bytes : ℕ → Reading Unit
skip_bytes n b = some (tt, record b { read_pos = b.read_pos + n })

-- The fields before the body.
pub record Fields : Type 0 where
  pub body_crc : ℤ
  pub queue_id : ℤ
  pub queue_offset : ℤ
  pub physic_offset : ℤ
  pub sys_flag : ℤ
  pub store_timestamp : ℤ
  pub prepared_transaction_offset : ℤ

unfoldable pub read_fields : Reading Fields
read_fields = do
  body_crc ← read_int 4
  queue_id ← read_int 4
  flag ← read_int 4
  queue_offset ← read_int 8
  physic_offset ← read_int 8
  sys_flag ← read_int 4
  born_timestamp ← read_int 8
  born_host ← read_new 8
  store_timestamp ← read_int 8
  store_host ← read_new 8
  reconsume_times ← read_int 4
  prepared_transaction_offset ← read_int 8
  return (record {
    body_crc = body_crc;
    queue_id = queue_id;
    queue_offset = queue_offset;
    physic_offset = physic_offset;
    sys_flag = sys_flag;
    store_timestamp = store_timestamp;
    prepared_transaction_offset = prepared_transaction_offset;
  })

-- The body: is it as its checksum says, as far as that is looked at.
unfoldable pub read_body : CheckContext → Bool → Bool → ℤ → ℤ → Reading Bool
read_body ctx check_crc should_read body_crc (negsuc n) = return true
read_body ctx check_crc should_read body_crc (pos zero) = return true
read_body ctx check_crc false body_crc (pos (suc n)) = do skipped ← skip_bytes (suc n); return true
read_body ctx check_crc true body_crc (pos (suc n)) = do
  content ← read_new (suc n)
  return (if check_crc then same_int (ctx.crc32 content) body_crc else true)

-- The bytes that follow their length, none when it is not positive.
unfoldable pub read_text : ℤ → Reading (List ℕ)
read_text (negsuc n) = return []
read_text (pos zero) = return []
read_text (pos (suc n)) = read_new (suc n)

abbrev pub or_empty : Option (List ℕ) → List ℕ
or_empty none = []
or_empty (some bytes) = bytes

abbrev pub schedule_topic : List ℕ
schedule_topic = codes "SCHEDULE_TOPIC_XXX"

-- A delay level that is too high is the highest one.
abbrev pub level_of : CheckContext → List ℕ → ℤ
level_of ctx text =
    let level = wrap 32 (ctx.atoi text) in
    let top = ctx.schedule.max_delay_level in if ltb_ℤ top level then top else level

-- The code of the tags; a scheduled message has the time of its delivery in its place.
unfoldable pub tags_code_of : CheckContext → List ℕ → Fields → Dict (List ℕ) (List ℕ) → ℤ
tags_code_of ctx topic fields properties =
    let tags =
      tags_string_to_tags_code (parse_topic_filter_type fields.sys_flag)
        (or_empty (lookup (codes "TAGS") properties)) in
    elim (lookup (codes "DELAY") properties) [
      | none ↦ tags
      | some text ↦
          if same_bytes schedule_topic topic && ltb_ℤ (pos 0) (level_of ctx text)
          then compute_deliver_timestamp ctx.schedule (level_of ctx text) fields.store_timestamp
          else tags
    ]

-- The request for a record: no properties are no keys and no tags.
unfoldable pub request_of : CheckContext → ℤ → Fields → List ℕ → List ℕ → DispatchRequest
request_of ctx total_size fields topic properties = record {
  topic = topic;
  queue_id = fields.queue_id;
  commit_log_offset = fields.physic_offset;
  msg_size = total_size;
  tags_code = tags_code_of ctx topic fields (bytes_to_message_properties properties);
  store_timestamp = fields.store_timestamp;
  consume_queue_offset = fields.queue_offset;
  keys = or_empty (lookup (codes "KEYS") (bytes_to_message_properties properties));
  sys_flag = fields.sys_flag;
  prepared_transaction_offset = fields.prepared_transaction_offset;
  producer_group = [];
  tran_state_table_offset = pos 0;
}

unfoldable pub read_tail : CheckContext → ℤ → Fields → Bool → Reading DispatchRequest
read_tail ctx total_size fields false = return (only_size (negsuc 0))
read_tail ctx total_size fields true = do
  topic_len ← read_int 1
  topic ← read_text topic_len
  properties_length ← read_int 2
  properties ← read_text properties_length
  return (request_of ctx total_size fields topic properties)

unfoldable pub read_record : CheckContext → Bool → Bool → ℤ → Reading DispatchRequest
read_record ctx check_crc should_read total_size = do
  fields ← read_fields
  body_len ← read_int 4
  intact ← read_body ctx check_crc should_read fields.body_crc body_len
  read_tail ctx total_size fields intact

-- What the magic code says: a record, the blank at the end of a file, or neither.
unfoldable pub by_magic_code : CheckContext → Bool → Bool → ℤ → ℤ → ℤ → Reading DispatchRequest
by_magic_code ctx check_crc should_read buffer_len total_size magic_code =
    if same_int magic_code message_magic_code
    then if ltb_ℤ (wrap 32 buffer_len) total_size
      then return (only_size (negsuc 0))
      else read_record ctx check_crc should_read total_size
    else if same_int magic_code blank_magic_code
    then return (only_size (pos 0))
    else return (only_size (negsuc 0))

unfoldable pub check_message_and_return_size : CheckContext → Bool → Bool → Reading DispatchRequest
check_message_and_return_size ctx check_crc should_read b =
    let buffer_len = pos b.write_pos -ℤ pos b.read_pos in
    let reading : Reading DispatchRequest = do
      total_size ← read_int 4
      magic_code ← read_int 4
      by_magic_code ctx check_crc should_read buffer_len total_size magic_code
    in reading b
