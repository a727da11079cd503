-- ===== src/Client/Allocate.antt =====
-- AllocateMessageQueueAveragely.Allocate
-- (stgclient/consumer/rebalance/allocate_message_queue_averagely.go): the share of the message
-- queues that one consumer of a group takes. A queue is only moved, so its type is a parameter.
-- Where the source subtracts the start from the number of queues, a negative difference and 0 both
-- give an empty loop, so the truncated subtraction of ℕ serves.
pub mod Share
pub mod Partition
use ttstringgolangiot.Base.{
  ℕ, zero, suc, ◌+◌, ◌-◌, ◌*◌, ◌/◌, ◌%◌, Bool, ◌&&◌, Option, none, some, List, [], ◌∷◌, String, ltb,
  leb, ◌==◌, if◌then◌else◌, length, get_elem?,
}
use ttstringgolangiot.Base.Text.{equal_fold}

-- The index of the first id that equals the consumer's, from `in` on.
pub index_of : String → List String → ℕ → Option ℕ
index_of current_cid [] in_ = none
index_of current_cid (cid ∷ cids) in_ =
    let rest = index_of current_cid cids (in_ + 1) in
    if equal_fold cid current_cid then some in_ else rest

abbrev pub average_size : ℕ → ℕ → ℕ → ℕ
average_size mqs cids index =
    if leb mqs cids
    then 1
    else if ltb 0 (mqs % cids) && ltb index (mqs % cids)
    then mqs / cids + 1
    else mqs / cids

abbrev pub start_index : ℕ → ℕ → ℕ → ℕ
start_index mqs cids index =
    if ltb 0 (mqs % cids) && ltb index (mqs % cids)
    then index * average_size mqs cids index
    else index * average_size mqs cids index + mqs % cids

abbrev pub range_v : ℕ → ℕ → ℕ → ℕ
range_v mqs cids index =
    if ltb (mqs - start_index mqs cids index) (average_size mqs cids index)
    then mqs - start_index mqs cids index
    else average_size mqs cids index

module _ {A : Type 0} where
  -- The last loop, for the `r` rounds from `i`; `none` is an index out of range.
  unfoldable pub collect : List A → ℕ → ℕ → ℕ → Option (List A)
  collect mqs start i zero = some []
  collect mqs start i (suc r) =
      let rest = collect mqs start (i + 1) r in
      elim (get_elem? mqs ((start + i) % length mqs)) [
        | none ↦ none
        | some mq ↦ elim rest [ none ↦ none | some later ↦ some (mq ∷ later) ]
      ]

  -- The share of the consumer at `index` among `cids` consumers.
  unfoldable pub share : List A → ℕ → ℕ → Option (List A)
  share mqs cids index =
      collect mqs (start_index (length mqs) cids index) 0 (range_v (length mqs) cids index)

  -- `none` is one of the three panics, or an index out of range.
  pub allocate : String → List A → List String → Option (List A)
  allocate current_cid mqs cids =
      if equal_fold current_cid ""
      then none
      else if length mqs == 0
      then none
      else if length cids == 0
      then none
      else elim (index_of current_cid cids 0) [
        | none ↦ some []
        | some index ↦ share mqs (length cids) index
      ]
