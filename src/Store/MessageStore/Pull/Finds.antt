-- ===== src/Store/MessageStore/Pull/Finds.antt =====
-- GetMessage finds the message of the unit that stands at its offset.
use ttstringgolangiot.Base.{
  ℕ, zero, suc, ◌+◌, ◌<◌, ◌≡◌, refl, sym, ap, subst, ◌∙◌, inl, inr, Bool, true, false, Option, none,
  some, List, [], ◌∷◌, ◌++◌, arith, ◌==◌, length, min, Bool-cases, Option-cases,
}
use ttstringgolangiot.Base.Int.{ℤ, pos, ◌+ℤ◌, pos-+}
use ttstringgolangiot.Store.Buffer.{MappedByteBuffer}
use ttstringgolangiot.Store.MapedFile.{SelectMapedBufferResult}
use ttstringgolangiot.Store.FileQueue.{get_max_offset}
use ttstringgolangiot.Store.CommitLog.{CommitLog}
use ttstringgolangiot.Store.LogReads.{get_message as log_get_message}
use ttstringgolangiot.Store.ConsumeQueue.{
  get_index_buffer, get_min_offset_in_queue, get_max_offset_in_queue, read_unit,
}
use ttstringgolangiot.Store.ConsumeQueue.Recovery.{as_length, units_of}
use ttstringgolangiot.Store.MessageStore.{
  MessageStoreConfig, DefaultMessageStore, find_consume_queue,
}
use ttstringgolangiot.Store.MessageStore.Pull.{
  get_message, offset_status, batch_result, max_filter_units,
}
use ttstringgolangiot.Store.MessageStore.Batch.{
  Batch, goes_on, found, is_skipped, is_the_batch_full, check_in_disk_by_commit_offset, add_message,
  select_message, pull_unit, pull_round, pull_loop, start_batch, GetMessageResult,
}
use ttstringgolangiot.Store.MessageStore.Pull.Progress.{Answer, PullAnswer, get_message_cases}
use ttstringgolangiot.Store.MessageStore.Pull.Limits.{
  IfSome, batch_of, log_get_message-size, pull_loop-P,
}

pub first_message : List SelectMapedBufferResult → Option SelectMapedBufferResult
first_message [] = none
first_message (m ∷ ms) = some m

-- A batch that has found a message, which has bytes, and begins with it.
record HasFound (m : SelectMapedBufferResult) (b : Batch) : Type 0 where
  bytes : ℕ
  has_bytes : b.total ≡ pos (suc bytes)
  begins : first_message b.messages ≡ some m
  is_found : b.status ≡ found

suc_ne_zero : (n : ℕ) → (suc n == 0) ≡ false
suc_ne_zero n = ground arith

pos_suc : (a b n : ℕ) → a + b ≡ suc n → pos a +ℤ pos b ≡ pos (suc n)
pos_suc a b n e = pos-+ a b ∙ ap pos e

abbrev or_selected :
    SelectMapedBufferResult → Option SelectMapedBufferResult → SelectMapedBufferResult
or_selected d none = d
or_selected d (some x) = x

first_message-append :
    (m r : SelectMapedBufferResult) (ms : List SelectMapedBufferResult)
    → first_message ms ≡ some m
    → first_message (ms ++ (r ∷ [])) ≡ some m
unfolding first_message
first_message-append m r [] h = ground arith
first_message-append m r (x ∷ ms) h = h

module _ (config : MessageStoreConfig) (max_msg_nums : ℤ) (matches : ℤ → Bool)
    (m : SelectMapedBufferResult) where
  select_message-HasFound :
      (offset size : ℕ) (b : Batch) → HasFound m b → HasFound m (select_message offset size b)
  unfolding select_message add_message
  select_message-HasFound offset size b h =
      elim (Option-cases (log_get_message offset size b.log).0) [
        | inl e ↦
            rw (select_message, e)
              (record {
                bytes = h.bytes;
                has_bytes = h.has_bytes;
                begins = h.begins;
                is_found = rw (h.has_bytes, suc_ne_zero h.bytes) h.is_found;
              })
        | inr (r, e) ↦
            let n = log_get_message-size offset size b.log r e in
            rw (select_message, e)
              (record {
                bytes = h.bytes + size;
                has_bytes =
                    rw (h.has_bytes, n) (pos_suc (suc h.bytes) size (h.bytes + size) (omega arith));
                begins = first_message-append m r b.messages h.begins;
                is_found = refl;
              })
      ]

  pull_unit-HasFound :
      (offset size : ℕ) (tags_code : ℤ) (b : Batch)
      → HasFound m b
      → HasFound m (batch_of (pull_unit config max_msg_nums matches offset size tags_code b))
  unfolding pull_unit batch_of
  pull_unit-HasFound offset size tags_code b h =
      let b' : Batch = record b { max_phy_offset_pulling = offset } in
      let h' : HasFound m b' = record {
        bytes = h.bytes;
        has_bytes = h.has_bytes;
        begins = h.begins;
        is_found = h.is_found;
      } in
      let disk =
        check_in_disk_by_commit_offset config (pos offset)
          (pos (get_max_offset b.log.maped_file_queue)) in
      elim (Bool-cases (is_skipped offset b.next_phy_file_start_offset)) [
        | inl e ↦ rw e h'
        | inr skip ↦
            elim (Bool-cases
              (is_the_batch_full config (pos size) max_msg_nums b.total (length b.messages) disk)) [
                | inl full ↦ rw (skip, full) h'
                | inr full ↦ elim (Bool-cases (matches tags_code)) [
                  | inl t ↦ rw (skip, full, t) (select_message-HasFound offset size b' h')
                  | inr t ↦
                      rw (skip, full, t)
                        (record {
                          bytes = h.bytes;
                          has_bytes = h.has_bytes;
                          begins = h.begins;
                          is_found = rw (h.has_bytes, suc_ne_zero h.bytes) h.is_found;
                        })
                ]
              ]
      ]

  select_message-first :
      (offset size : ℕ) (log : CommitLog)
      → (log_get_message offset (suc size) log).0 ≡ some m
      → HasFound m (
          select_message offset
            (suc size)
            (record (start_batch log) { max_phy_offset_pulling = offset }))
  unfolding select_message add_message first_message
  select_message-first offset size log there =
      let n = log_get_message-size offset (suc size) log m there in
      rw (select_message, there)
        (record {
          bytes = size;
          has_bytes = rw n (pos_suc 0 (suc size) size (omega arith));
          begins = refl;
          is_found = refl;
        })

  -- The first unit is that of the message.
  pull_loop-HasFound :
      (left offset size : ℕ) (tags_code : ℤ) (buffer buffer' : MappedByteBuffer) (log : CommitLog)
      → 0 < left
      → (buffer.write_pos == 0) ≡ false
      → read_unit buffer ≡ some (((pos offset, pos (suc size)), tags_code), buffer')
      → matches tags_code ≡ true
      → (log_get_message offset (suc size) log).0 ≡ some m
      → IfSome
          (λ (n, b). HasFound m b)
          (pull_loop config max_msg_nums matches left buffer (start_batch log))
  unfolding pull_loop pull_round pull_unit is_the_batch_full IfSome
  pull_loop-HasFound zero offset size tags_code buffer buffer' log some_left written at t there =
      absurd (omega arith)
  pull_loop-HasFound (suc left) offset size tags_code buffer buffer' log some_left written at t
        there =
      let first =
        select_message offset (suc size)
          (record (start_batch log) { max_phy_offset_pulling = offset }) in
      let round : pull_round config max_msg_nums matches buffer (start_batch log)
          ≡ some (goes_on first, buffer') =
        rw (pull_round, written, at, pull_unit, t) refl in
      let rest =
        pull_loop-P config max_msg_nums matches (HasFound m) pull_unit-HasFound left buffer' first
          (select_message-first offset size log there) in
      elim (Option-cases (pull_loop config max_msg_nums matches left buffer' first)) [
        | inl e ↦ rw (pull_loop, round, e) tt
        | inr ((n, b), e) ↦ rw (pull_loop, round, e) (rw e at rest)
      ]

-- When an offset lies in its queue, the unit that stands there names a message with bytes whose
-- tags match, and the commit log has the message, then GetMessage, unless a later unit makes it
-- panic, gives a batch that is found and begins with the message.
pub get_message-finds :
    (config : MessageStoreConfig) (topic : List ℕ) (queue_id max_msg_nums : ℤ) (matches : ℤ → Bool)
    (offset : ℕ) (s s' : DefaultMessageStore) (r : GetMessageResult)
    (selected m : SelectMapedBufferResult) (phy_offset size : ℕ) (tags_code : ℤ)
    (buffer' : MappedByteBuffer)
    → get_message config topic queue_id max_msg_nums matches (pos offset) s ≡ some (some r, s')
    → offset_status
        (pos offset)
        (get_min_offset_in_queue (find_consume_queue config topic queue_id s).0)
        (get_max_offset_in_queue (find_consume_queue config topic queue_id s).0)
      ≡ none
    → (get_index_buffer offset (find_consume_queue config topic queue_id s).0).0 ≡ some selected
    → 0 < as_length selected.size
    → (selected.mapped_byte_buffer.write_pos == 0) ≡ false
    → read_unit selected.mapped_byte_buffer
      ≡ some (((pos phy_offset, pos (suc size)), tags_code), buffer')
    → matches tags_code ≡ true
    → (log_get_message phy_offset
        (suc size)
        (find_consume_queue config topic queue_id s).1.commit_log).0
      ≡ some m
    → (r.status ≡ found) × (first_message r.message_maped_list ≡ some m)
unfolding Answer PullAnswer IfSome batch_result
get_message-finds config topic queue_id max_msg_nums matches offset s s' r selected m phy_offset
      size tags_code buffer' e inside at some_bytes written unit t there =
    elim (get_message_cases config topic queue_id max_msg_nums matches (pos offset) s s' r e) [
      | inl (nothing, empty, (status, outside)) ↦ let e' = sym inside ∙ outside in ground arith
      | inr (inl (next, nothing, empty, none_selected)) ↦
          let e' : none ≡ some selected = sym none_selected ∙ at in ground arith
      | inr (inr pulled) ↦
          let same : selected ≡ pulled.buffer =
            ap (or_selected selected) (sym at ∙ pulled.is_selected) in
          let left = min (units_of (as_length selected.size)) max_filter_units in
          let log = (find_consume_queue config topic queue_id s).1.commit_log in
          let collected =
            subst
              (λ x.
                pull_loop config max_msg_nums matches
                  (min (units_of (as_length x.size)) max_filter_units) x.mapped_byte_buffer
                  (start_batch log)
                ≡ some (pulled.units, pulled.batch))
              (sym same) pulled.is_collected in
          let all =
            pull_loop-HasFound config max_msg_nums matches m left phy_offset size tags_code
              selected.mapped_byte_buffer buffer' log (ground arith) written unit t there in
          let has : HasFound m pulled.batch = rw collected at all in
          (
            ap (λ g. g.status) (sym pulled.is_answer) ∙ has.is_found,
            ap (λ g. first_message g.message_maped_list) (sym pulled.is_answer) ∙ has.begins,
          )
    ]
