-- ===== src/Store/MessageStore/Pull/Limits.antt =====
-- The limits of the batch that GetMessage collects (isTheBatchFull).
use ttstringgolangiot.Base.{
  ℕ, zero, suc, ◌+◌, ◌≤◌, ◌<◌, ◌^◌, ◌≡◌, refl, sym, subst, ◌∙◌, ap, ◌⊎◌, inl, inr, Bool, true,
  false, Option, none, some, List, [], ◌∷◌, ◌++◌, arith, ◌==◌, ◌%◌, length, length-append,
  Bool-cases, Option-cases,
}
use ttstringgolangiot.Base.Int.{ℤ, pos, negsuc, ltb_ℤ, pos-+}
use ttstringgolangiot.Store.Buffer.{MappedByteBuffer}
use ttstringgolangiot.Store.Buffer.Roundtrip.{FitsIn, of_word-to_word}
use ttstringgolangiot.Store.MapedFile.{
  MapedFile, SelectMapedBufferResult, select_maped_buffer_by_pos_and_size,
}
use ttstringgolangiot.Store.Check.{wrap}
use ttstringgolangiot.Store.CommitLog.{CommitLog}
use ttstringgolangiot.Store.LogReads.{get_message as log_get_message}
use ttstringgolangiot.Store.ConsumeQueue.{read_unit}
use ttstringgolangiot.Store.FileQueue.{find_maped_file_by_offset, get_max_offset}
use ttstringgolangiot.Store.ConsumeQueue.Recovery.{as_length}
use ttstringgolangiot.Store.MessageStore.{MessageStoreConfig}
use ttstringgolangiot.Store.MessageStore.Batch.{
  Batch, Round, goes_on, is_full, is_the_batch_full, add_message, select_message, pull_unit,
  pull_round, pull_loop, check_in_disk_by_commit_offset, is_skipped,
}

-- Batches of messages with their bytes: each message found the batch not full.
pub data IsBatch (config : MessageStoreConfig) (max_msg_nums : ℤ)
    : List SelectMapedBufferResult → ℕ → Type 0 where
  is_empty : IsBatch config max_msg_nums [] 0
  is_more :
      (ms : List SelectMapedBufferResult) (total : ℕ) (r : SelectMapedBufferResult) (size : ℕ)
      (disk : Bool)
      → IsBatch config max_msg_nums ms total
      → r.size ≡ pos size
      → is_the_batch_full config (pos size) max_msg_nums (pos total) (length ms) disk ≡ false
      → IsBatch config max_msg_nums (ms ++ (r ∷ [])) (total + size)

-- What the log gives has the size that was asked for.
select_maped_buffer_by_pos_and_size-size :
    (at size : ℕ) (f : MapedFile) (r : SelectMapedBufferResult)
    → (select_maped_buffer_by_pos_and_size at size f).0 ≡ some r
    → r.size ≡ pos size
unfolding select_maped_buffer_by_pos_and_size
select_maped_buffer_by_pos_and_size-size at size f r h = ground arith

pub log_get_message-size :
    (offset size : ℕ) (log : CommitLog) (r : SelectMapedBufferResult)
    → (log_get_message offset size log).0 ≡ some r
    → r.size ≡ pos size
unfolding log_get_message
log_get_message-size offset size log r h =
    elim (Option-cases (find_maped_file_by_offset offset (offset == 0) log.maped_file_queue)) [
      | inl e ↦ ground (arith, e)
      | inr (f, e) ↦
          let at = offset % log.maped_file_queue.maped_file_size in
          let opened : (log_get_message offset size log).0
              ≡ (select_maped_buffer_by_pos_and_size at size f).0 =
            rw (log_get_message, e) refl in
          select_maped_buffer_by_pos_and_size-size at size f r (sym opened ∙ h)
    ]

unfoldable pub IfSome : {A : Type 0} → (A → Type 0) → Option A → Type 0
IfSome P none = Unit
IfSome P (some x) = P x

unfoldable pub batch_of : Round → Batch
batch_of (goes_on b) = b
batch_of (is_full b) = b

module _ (config : MessageStoreConfig) (max_msg_nums : ℤ) where
  unfoldable pub Keeps : Batch → Type 0
  Keeps b = (n : ℕ) × (b.total ≡ pos n) × IsBatch config max_msg_nums b.messages n

  select_message-Keeps :
      (offset size : ℕ) (disk : Bool) (b : Batch)
      → Keeps b
      → is_the_batch_full config (pos size) max_msg_nums b.total (length b.messages) disk ≡ false
      → Keeps (select_message offset size b)
  unfolding select_message add_message Keeps
  select_message-Keeps offset size disk b (total, e₀, h) full =
      elim (Option-cases (log_get_message offset size b.log).0) [
        | inl e ↦ rw (select_message, e) (total, e₀, h)
        | inr (r, e) ↦
            let n = log_get_message-size offset size b.log r e in
            rw (select_message, e)
              (
                total + size,
                rw (e₀, n) (pos-+ total size),
                is_more b.messages total r size disk h n (rw e₀ at full),
              )
      ]

  pull_unit-Keeps :
      (matches : ℤ → Bool) (offset size : ℕ) (tags_code : ℤ) (b : Batch)
      → Keeps b
      → Keeps (batch_of (pull_unit config max_msg_nums matches offset size tags_code b))
  unfolding pull_unit batch_of Keeps
  pull_unit-Keeps matches offset size tags_code b h =
      let disk =
        check_in_disk_by_commit_offset config (pos offset)
          (pos (get_max_offset b.log.maped_file_queue)) in
      elim (Bool-cases (is_skipped offset b.next_phy_file_start_offset)) [
        | inl e ↦ rw e h
        | inr skip ↦
            elim (Bool-cases
              (is_the_batch_full config (pos size) max_msg_nums b.total (length b.messages) disk)) [
                | inl full ↦ rw (skip, full) h
                | inr full ↦ elim (Bool-cases (matches tags_code)) [
                  | inl m ↦
                      rw (skip, full, m)
                        (select_message-Keeps offset size disk
                          (record b { max_phy_offset_pulling = offset }) h full)
                  | inr m ↦ rw (skip, full, m) h
                ]
              ]
      ]

-- What every unit keeps, every round keeps and the loop.
module _ (config : MessageStoreConfig) (max_msg_nums : ℤ) (matches : ℤ → Bool) (P : Batch → Type 0)
    (unit-P : (offset size : ℕ) (tags_code : ℤ) (b : Batch)
      → P b
      → P (batch_of (pull_unit config max_msg_nums matches offset size tags_code b))) where
  pub pull_round-P :
      (buffer : MappedByteBuffer) (b : Batch)
      → P b
      → IfSome
          (λ (round, buffer'). P (batch_of round))
          (pull_round config max_msg_nums matches buffer b)
  unfolding pull_round batch_of IfSome
  pull_round-P buffer b h = elim (Bool-cases (buffer.write_pos == 0)) [
    | inl e ↦ rw (pull_round, e) h
    | inr e ↦ elim (Option-cases (read_unit buffer)) [
      | inl none_left ↦ rw (pull_round, e, none_left) tt
      | inr ((((pos offset, pos size), tags_code), buffer'), at) ↦
          rw (pull_round, e, at) (unit-P offset size tags_code b h)
      | inr ((((pos offset, negsuc size), tags_code), buffer'), at) ↦ rw (pull_round, e, at) tt
      | inr ((((negsuc offset, size), tags_code), buffer'), at) ↦ rw (pull_round, e, at) tt
    ]
  ]

  pub pull_loop-P :
      (left : ℕ) (buffer : MappedByteBuffer) (b : Batch)
      → P b
      → IfSome (λ (n, b'). P b') (pull_loop config max_msg_nums matches left buffer b)
  unfolding pull_loop batch_of IfSome
  pull_loop-P zero buffer b h = h
  pull_loop-P (suc left) buffer b h =
      let kept = pull_round-P buffer b h in
      elim (Option-cases (pull_round config max_msg_nums matches buffer b)) [
        | inl e ↦ rw (pull_loop, e) tt
        | inr ((is_full b', buffer'), e) ↦ rw (pull_loop, e) (rw e at kept)
        | inr ((goes_on b', buffer'), e) ↦
            let rest = pull_loop-P left buffer' b' (rw e at kept) in
            elim (Option-cases (pull_loop config max_msg_nums matches left buffer' b')) [
              | inl e' ↦ rw (pull_loop, e, e') tt
              | inr ((n, b''), e') ↦ rw (pull_loop, e, e') (rw e' at rest)
            ]
      ]

pub pull_loop-Keeps :
    (config : MessageStoreConfig) (max_msg_nums : ℤ) (matches : ℤ → Bool) (left : ℕ)
    (buffer : MappedByteBuffer) (b : Batch)
    → Keeps config max_msg_nums b
    → IfSome
        (λ (n, b'). Keeps config max_msg_nums b')
        (pull_loop config max_msg_nums matches left buffer b)
pull_loop-Keeps config max_msg_nums matches left buffer b h =
    pull_loop-P config max_msg_nums matches (Keeps config max_msg_nums)
      (pull_unit-Keeps config max_msg_nums matches) left buffer b h

abbrev pub first_size : List SelectMapedBufferResult → ℤ
first_size [] = pos 0
first_size (m ∷ ms) = m.size

-- The limits of a batch of some bytes: one message, or less than the number that was asked for and
-- within the bytes and the messages allowed in the memory or on the disk.
unfoldable pub IsWithin : MessageStoreConfig → ℤ → ℕ → ℕ → Type 0
IsWithin config max_msg_nums count total =
    (count ≤ 1)
    ⊎ ((ltb_ℤ (pos count) max_msg_nums ≡ true)
        × ((((ltb_ℤ config.max_transfer_bytes_on_message_in_disk (pos total) ≡ false)
              × (ltb_ℤ config.max_transfer_count_on_message_in_disk (pos count) ≡ false)))
            ⊎ ((ltb_ℤ config.max_transfer_bytes_on_message_in_memory (pos total) ≡ false)
                × (ltb_ℤ config.max_transfer_count_on_message_in_memory (pos count) ≡ false))))

module _ (config : MessageStoreConfig) (max_msg_nums : ℤ) where
  wrap_small : (n : ℕ) → n < 2 ^ 31 → wrap 32 (pos n) ≡ pos n
  unfolding FitsIn
  wrap_small n h = of_word-to_word 32 (pos n) (omega arith) (omega arith)

  not_full-IsWithin :
      (size total count : ℕ) (disk : Bool)
      → 0 < total
      → total + size < 2 ^ 31
      → is_the_batch_full config (pos size) max_msg_nums (pos total) count disk ≡ false
      → IsWithin config max_msg_nums (suc count) (total + size)
  unfolding is_the_batch_full IsWithin
  not_full-IsWithin size total count disk some_bytes small h =
      let h' =
        rw
          (
            is_the_batch_full,
            wrap_small total (omega arith),
            pos-+ total size,
            wrap_small (total + size) small,
          )
          at h in
      ground arith

  first_size-IsBatch :
      (ms : List SelectMapedBufferResult) (total : ℕ)
      → IsBatch config max_msg_nums ms total
      → (k : ℕ) → first_size ms ≡ pos k
      → k ≤ total
  first_size-IsBatch [] zero is_empty k e = ground arith
  first_size-IsBatch ms' total' (is_more [] total r size disk h n full) k e =
      let same : size ≡ k = ap as_length (sym n ∙ e) in omega arith
  first_size-IsBatch ms' total' (is_more (m ∷ ms) total r size disk h n full) k e =
      omega (arith, first_size-IsBatch (m ∷ ms) total h k e)

  total_positive :
      (ms : List SelectMapedBufferResult) (total : ℕ)
      → IsBatch config max_msg_nums ms total
      → (i : ℤ) → first_size ms ≡ i
      → ltb_ℤ (pos 0) i ≡ true
      → 0 < total
  total_positive ms total h (pos k) e positive =
      let most = first_size-IsBatch ms total h k e in ground arith
  total_positive ms total h (negsuc k) e positive = ground arith

  pub IsBatch-IsWithin :
      (ms : List SelectMapedBufferResult) (total : ℕ)
      → IsBatch config max_msg_nums ms total
      → ltb_ℤ (pos 0) (first_size ms) ≡ true
      → total < 2 ^ 31
      → IsWithin config max_msg_nums (length ms) total
  unfolding IsWithin
  IsBatch-IsWithin [] zero is_empty some_bytes small = inl (omega arith)
  IsBatch-IsWithin ms' total' (is_more [] total r size disk h n full) some_bytes small =
      inl (omega arith)
  IsBatch-IsWithin ms' total' (is_more (m ∷ ms) total r size disk h n full) some_bytes small =
      let counted : suc (length (m ∷ ms)) ≡ length ((m ∷ ms) ++ (r ∷ [])) =
        omega (arith, length-append (m ∷ ms) (r ∷ [])) in
      subst (λ count. IsWithin config max_msg_nums count (total + size)) counted
        (not_full-IsWithin size total (length (m ∷ ms)) disk
          (total_positive (m ∷ ms) total h m.size refl some_bytes) small full)
