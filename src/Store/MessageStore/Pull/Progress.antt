-- ===== src/Store/MessageStore/Pull/Progress.antt =====
-- What GetMessage answers: the limits of its batch, and where the consumer goes on.
use native.Mathlib.Nat.{mod-lt}
use ttstringgolangiot.Base.{
  ℕ, zero, suc, ◌*◌, ◌/◌, ◌%◌, ◌≤◌, ◌<◌, ◌^◌, ◌≡◌, refl, sym, subst, ap, ◌∙◌, ◌⊎◌, inl, inr, Bool,
  true, false, Option, none, some, List, [], arith, leb, ◌==◌, length, Bool-cases, Option-cases,
  min,
}
use ttstringgolangiot.Base.Int.{ℤ, pos, negsuc, ltb_ℤ, ◌-ℤ◌}
use ttstringgolangiot.Store.MapedFile.{MapedFile, SelectMapedBufferResult, select_maped_buffer}
use ttstringgolangiot.Store.Buffer.{MappedByteBuffer}
use ttstringgolangiot.Store.CommitLog.{CommitLog}
use ttstringgolangiot.Store.FileQueue.{find_maped_file_by_offset}
use ttstringgolangiot.Store.ConsumeQueue.{
  ConsumeQueue, get_index_buffer, get_min_offset_in_queue, get_max_offset_in_queue,
  consume_roll_next_file, read_unit,
}
use ttstringgolangiot.Store.ConsumeQueue.Recovery.{as_length, units_of}
use ttstringgolangiot.Store.MessageStore.{
  MessageStoreConfig, DefaultMessageStore, find_consume_queue,
}
use ttstringgolangiot.Store.MessageStore.Pull.{
  pull_queue, get_from_queue, get_message, batch_result, offset_status, max_filter_units,
}
use ttstringgolangiot.Store.MessageStore.Batch.{
  Batch, start_batch, pull_loop, Round, goes_on, is_full, is_the_batch_full, pull_unit, pull_round,
  GetMessageResult, GetMessageStatus,
}
use ttstringgolangiot.Store.MessageStore.Pull.Limits.{
  is_empty, IsWithin, IfSome, Keeps, first_size, pull_loop-Keeps, IsBatch-IsWithin,
}

gives_result : Option (Option GetMessageResult × DefaultMessageStore) → Bool
gives_result (some (some r, s)) = true
gives_result _ = false

consume_roll_next_file-lt :
    (offset : ℕ) (q : ConsumeQueue)
    → 0 < q.maped_file_size / 20
    → offset < consume_roll_next_file offset q
unfolding consume_roll_next_file
consume_roll_next_file-lt offset q units = let below = mod-lt offset units in omega arith

has_gone_on : Round → Bool
has_gone_on (goes_on b) = true
has_gone_on (is_full b) = false

select_maped_buffer-positive :
    (at : ℕ) (f : MapedFile) (buffer : SelectMapedBufferResult)
    → f.wrote_position ≤ f.mapped_byte_buffer.write_pos
    → (select_maped_buffer at f).0 ≡ some buffer
    → 0 < as_length buffer.size
unfolding select_maped_buffer ◌-ℤ◌
select_maped_buffer-positive at f buffer written e = ground arith

get_index_buffer-positive :
    (offset : ℕ) (q : ConsumeQueue) (buffer : SelectMapedBufferResult)
    → ((f : MapedFile)
        → find_maped_file_by_offset (offset * 20) false q.maped_file_queue ≡ some f
        → f.wrote_position ≤ f.mapped_byte_buffer.write_pos)
    → (get_index_buffer offset q).0 ≡ some buffer
    → 0 < as_length buffer.size
unfolding get_index_buffer
get_index_buffer-positive offset q buffer written e =
    elim (Bool-cases (leb q.min_logic_offset (offset * 20))) [
      | inl inside ↦
          elim (Option-cases (find_maped_file_by_offset (offset * 20) false q.maped_file_queue)) [
            | inl found ↦ let e' = rw (get_index_buffer, inside, found) at e in ground arith
            | inr (f, found) ↦
                let opened : (get_index_buffer offset q).0
                    ≡ (select_maped_buffer (offset * 20 % q.maped_file_size) f).0 =
                  rw (get_index_buffer, inside, found) refl in
                select_maped_buffer-positive (offset * 20 % q.maped_file_size) f buffer
                  (written f found) (sym opened ∙ e)
          ]
      | inr outside ↦ let e' = rw (get_index_buffer, outside) at e in ground arith
    ]

module _ (config : MessageStoreConfig) (max_msg_nums : ℤ) (matches : ℤ → Bool) where
  first_round :
      (buffer : MappedByteBuffer) (log : CommitLog)
      → IfSome
          (λ (round, buffer'). (b : Batch) × (round ≡ goes_on b))
          (pull_round config max_msg_nums matches buffer (start_batch log))
  unfolding pull_round pull_unit is_the_batch_full IfSome
  first_round buffer log = elim (Bool-cases (buffer.write_pos == 0)) [
    | inl e ↦ rw (pull_round, e) (_, refl)
    | inr e ↦ elim (Option-cases (read_unit buffer)) [
      | inl at_end ↦ rw (pull_round, e, at_end) tt
      | inr ((((pos offset, pos size), tags_code), buffer'), at) ↦
          elim (Bool-cases (matches tags_code)) [
            | inl m ↦ rw (pull_round, e, at, pull_unit, m) (_, refl)
            | inr m ↦ rw (pull_round, e, at, pull_unit, m) (_, refl)
          ]
      | inr ((((pos offset, negsuc size), tags_code), buffer'), at) ↦ rw (pull_round, e, at) tt
      | inr ((((negsuc offset, size), tags_code), buffer'), at) ↦ rw (pull_round, e, at) tt
    ]
  ]

  pull_loop-moves :
      (left : ℕ) (buffer : MappedByteBuffer) (log : CommitLog)
      → 0 < left
      → IfSome
          (λ (n, b). 0 < n)
          (pull_loop config max_msg_nums matches left buffer (start_batch log))
  unfolding pull_loop IfSome has_gone_on
  pull_loop-moves zero buffer log some_left = absurd (omega arith)
  pull_loop-moves (suc left) buffer log some_left =
      let first = first_round buffer log in
      elim (Option-cases (pull_round config max_msg_nums matches buffer (start_batch log))) [
        | inl e ↦ rw (pull_loop, e) tt
        | inr ((is_full b, buffer'), e) ↦
            let (b', e') = rw e at first in let absurdity = ap has_gone_on e' in ground arith
        | inr ((goes_on b, buffer'), e) ↦
            elim (Option-cases (pull_loop config max_msg_nums matches left buffer' b)) [
              | inl e' ↦ rw (pull_loop, e, e') tt
              | inr ((n, b'), e') ↦ rw (pull_loop, e, e') (omega arith)
            ]
      ]

module _ (config : MessageStoreConfig) (topic : List ℕ) (queue_id max_msg_nums : ℤ)
    (matches : ℤ → Bool) where
  -- A read of the queue: the rounds of its loop, with what the answer is made of.
  pub record HasPulled (offset : ℕ) (q : ConsumeQueue) (s : DefaultMessageStore)
      (r : GetMessageResult) : Type 0 where
    pub buffer : SelectMapedBufferResult
    pub units : ℕ
    pub batch : Batch
    pub is_selected : (get_index_buffer offset q).0 ≡ some buffer
    pub is_collected :
        pull_loop config max_msg_nums matches
          (min (units_of (as_length buffer.size)) max_filter_units)
          buffer.mapped_byte_buffer
          (start_batch s.commit_log)
        ≡ some (units, batch)
    pub is_answer : batch_result config offset q units batch ≡ r

  -- The answer of a read of the queue: the rest of its file is skipped, or it was read.
  unfoldable pub PullAnswer : ℕ → ConsumeQueue → DefaultMessageStore → GetMessageResult → Type 0
  PullAnswer offset q s r =
      ((r.next_begin_offset ≡ pos (consume_roll_next_file offset q))
        × (r.message_maped_list ≡ [])
        × (r.buffer_total_size ≡ pos 0)
        × ((get_index_buffer offset q).0 ≡ none))
      ⊎ HasPulled offset q s r

  pull_queue_cases :
      (offset : ℕ) (q : ConsumeQueue) (s : DefaultMessageStore)
      → IfSome
          (λ (answer, s'). IfSome (PullAnswer offset q s) answer)
          (pull_queue config topic queue_id max_msg_nums matches offset q s)
  unfolding pull_queue IfSome PullAnswer
  pull_queue_cases offset q s = elim (Option-cases (get_index_buffer offset q).0) [
    | inl e ↦ rw (pull_queue, e) (inl (refl, refl, refl, e))
    | inr (buffer, e) ↦
        elim (Option-cases (
          pull_loop config max_msg_nums matches
            (min (units_of (as_length buffer.size)) max_filter_units) buffer.mapped_byte_buffer
            (start_batch s.commit_log))) [
              | inl e' ↦ rw (pull_queue, e, e') tt
              | inr ((n, b), e') ↦
                  rw (pull_queue, e, e')
                    (inr (record {
                      buffer = buffer;
                      units = n;
                      batch = b;
                      is_selected = e;
                      is_collected = e';
                      is_answer = refl;
                    }))
            ]
  ]

  -- The answer for an offset: no message where it is not in the queue, else that of the read.
  unfoldable pub Answer : ℤ → ConsumeQueue → DefaultMessageStore → GetMessageResult → Type 0
  Answer offset q s r =
      ((r.message_maped_list ≡ [])
        × (r.buffer_total_size ≡ pos 0)
        × ((e : GetMessageStatus × ℤ) × (offset_status offset (get_min_offset_in_queue q)
                (get_max_offset_in_queue q)
              ≡ some e)))
      ⊎ PullAnswer (as_length offset) q s r

  IfSome-inr :
      {A B : Type 0} (P Q : A → Type 0) (o : Option (Option A × B))
      → ((a : A) → P a → Q a)
      → IfSome (λ (answer, b). IfSome P answer) o
      → IfSome (λ (answer, b). IfSome Q answer) o
  unfolding IfSome
  IfSome-inr P Q none f h = tt
  IfSome-inr P Q (some (none, b)) f h = tt
  IfSome-inr P Q (some (some a, b)) f h = f a h

  get_from_queue_cases :
      (offset : ℤ) (q : ConsumeQueue) (s : DefaultMessageStore)
      → IfSome
          (λ (answer, s'). IfSome (Answer offset q s) answer)
          (get_from_queue config topic queue_id max_msg_nums matches offset q s)
  unfolding get_from_queue IfSome Answer
  get_from_queue_cases offset q s =
      elim (Option-cases
        (offset_status offset (get_min_offset_in_queue q) (get_max_offset_in_queue q))) [
          | inl inside ↦
              rw (get_from_queue, inside)
                (IfSome-inr (PullAnswer (as_length offset) q s) (Answer offset q s) _ (λ r. inr)
                  (pull_queue_cases (as_length offset) q s))
          | inr ((status, next), outside) ↦
              rw (get_from_queue, outside) (inl (refl, refl, ((status, next), outside)))
        ]

  abbrev pub queue_found : DefaultMessageStore → ConsumeQueue
  queue_found s = (find_consume_queue config topic queue_id s).0

  pub get_message_cases :
      (offset : ℤ) (s s' : DefaultMessageStore) (r : GetMessageResult)
      → get_message config topic queue_id max_msg_nums matches offset s ≡ some (some r, s')
      → Answer offset (queue_found s) (find_consume_queue config topic queue_id s).1 r
  unfolding get_message IfSome gives_result
  get_message_cases offset s s' r e = elim (Bool-cases s.shutdown_flag) [
    | inl down ↦
        let opened : get_message config topic queue_id max_msg_nums matches offset s
            ≡ some (none, s) =
          rw (get_message, down) refl in
        let e' = ap gives_result (sym opened ∙ e) in ground arith
    | inr up ↦
        let found = find_consume_queue config topic queue_id s in
        let opened : get_message config topic queue_id max_msg_nums matches offset s
            ≡ get_from_queue config topic queue_id max_msg_nums matches offset found.0 found.1 =
          rw (get_message, up) refl in
        let cases = get_from_queue_cases offset found.0 found.1 in rw (sym opened ∙ e) at cases
  ]

  -- When GetMessage gives a batch whose first message has bytes, and which has less than 2^31 in
  -- all, then it has one message, or less than the number that was asked for and no more bytes and
  -- messages than a transfer from the memory or from the disk may have.
  pub get_message-IsWithin :
      (offset : ℤ) (s s' : DefaultMessageStore) (r : GetMessageResult) (total : ℕ)
      → get_message config topic queue_id max_msg_nums matches offset s ≡ some (some r, s')
      → ltb_ℤ (pos 0) (first_size r.message_maped_list) ≡ true
      → r.buffer_total_size ≡ pos total
      → total < 2 ^ 31
      → IsWithin config max_msg_nums (length r.message_maped_list) total
  unfolding Answer PullAnswer Keeps IsWithin IfSome batch_result
  get_message-IsWithin offset s s' r total e bytes n small =
      elim (get_message_cases offset s s' r e) [
        | inl (nothing, empty, outside) ↦ inl (omega (arith, ap length nothing))
        | inr (inl (next, nothing, empty, none_there)) ↦ inl (omega (arith, ap length nothing))
        | inr (inr pulled) ↦
            let kept =
              pull_loop-Keeps config max_msg_nums matches
                (min (units_of (as_length pulled.buffer.size)) max_filter_units)
                pulled.buffer.mapped_byte_buffer
                (start_batch (find_consume_queue config topic queue_id s).1.commit_log)
                (0, refl, is_empty) in
            let (m, total', batch) = rw pulled.is_collected at kept in
            let same : m ≡ total =
              ap as_length (sym total' ∙ (ap (λ g. g.buffer_total_size) pulled.is_answer ∙ n)) in
            let within =
              IsBatch-IsWithin config max_msg_nums pulled.batch.messages m batch
                (ap (λ g. ltb_ℤ (pos 0) (first_size g.message_maped_list)) pulled.is_answer ∙ bytes)
                (omega arith) in
            subst (λ k. IsWithin config max_msg_nums k total)
              (ap (λ g. length g.message_maped_list) pulled.is_answer)
              (subst (IsWithin config max_msg_nums (length pulled.batch.messages)) same within)
      ]

  -- When an offset lies between the least and the greatest of its queue, files of the queue have
  -- room for a unit and their buffers are at the end of what was written, then GetMessage, if it
  -- answers, names a next offset that is greater: no pull stays where it is.
  pub get_message-progress :
      (offset : ℕ) (s s' : DefaultMessageStore) (r : GetMessageResult)
      → offset_status
          (pos offset)
          (get_min_offset_in_queue (queue_found s))
          (get_max_offset_in_queue (queue_found s))
        ≡ none
      → 0 < (queue_found s).maped_file_size / 20
      → ((f : MapedFile)
          → find_maped_file_by_offset (offset * 20) false (queue_found s).maped_file_queue ≡ some f
          → f.wrote_position ≤ f.mapped_byte_buffer.write_pos)
      → get_message config topic queue_id max_msg_nums matches (pos offset) s ≡ some (some r, s')
      → ltb_ℤ (pos offset) r.next_begin_offset ≡ true
  unfolding Answer PullAnswer IfSome batch_result consume_roll_next_file
  get_message-progress offset s s' r inside units written e =
      let q = queue_found s in
      elim (get_message_cases (pos offset) s s' r e) [
        | inl (nothing, empty, (status, outside)) ↦ let e' = sym inside ∙ outside in ground arith
        | inr (inl (next, nothing, empty, none_there)) ↦
            let greater = consume_roll_next_file-lt offset q units in rw next (ground arith)
        | inr (inr pulled) ↦
            let some_bytes =
              get_index_buffer-positive offset q pulled.buffer written pulled.is_selected in
            let moved =
              pull_loop-moves config max_msg_nums matches
                (min (units_of (as_length pulled.buffer.size)) max_filter_units)
                pulled.buffer.mapped_byte_buffer
                (find_consume_queue config topic queue_id s).1.commit_log (ground arith) in
            let n = rw pulled.is_collected at moved in
            subst (λ g. ltb_ℤ (pos offset) g.next_begin_offset ≡ true) pulled.is_answer
              (ground arith)
      ]
