-- ===== src/Client/ProcessQueue/Commit.antt =====
-- The offset that `RemoveMessage` returns is what the consumer may commit.
use ttstringgolangiot.Base.{
  ℕ, suc, ◌≤◌, ◌≡◌, ◌≢◌, refl, sym, Bool, true, false, Option, none, some, List, [], ◌∷◌, arith,
  ◌⊎◌, inl, inr, length, Dict, nat_eq, lookup, lookup-insert, lookup-erase, subst, ap, ◌∙◌, not,
  ◌&&◌, ◌||◌, ◌==◌, if◌then◌else◌,
}
use native.Mathlib.Decide.{ℕ_discrete}
use ttstringgolangiot.Base.Int.{pos, negsuc}
use ttstringgolangiot.Client.ProcessQueue.{
  MessageExt, TreeMap, ProcessQueue, first_key, last_of, remove_all, remove, put, put_all,
  put_message, is_new, remove_message, is_empty,
}
use ttstringgolangiot.Client.ProcessQueue.Sorted.{
  contains, IsSorted, AllFrom-contains, last_of-max, contains-last_of, has,
}
use ttstringgolangiot.Client.ProcessQueue.Invariant.{IsTree, IsValid, remove_all-IsTree}

is_empty-lookup : (m : Dict ℕ MessageExt) (k : ℕ) → length m ≡ 0 → lookup k m ≡ none
is_empty-lookup [] k e = refl
is_empty-lookup (x ∷ m) k e = absurd (omega arith)

filled-some : (m : Dict ℕ MessageExt) → length m ≢ 0 → (k : ℕ) × (has (lookup k m) ≡ true)
filled-some [] e = absurd (e refl)
filled-some ((k, v) ∷ m) e = (k, ground arith)

-- The first key of a map that is not empty: it has a message, and no message has a smaller offset.
abbrev pub IsFirst : Dict ℕ MessageExt → ℕ → Type 0
IsFirst m k = (has (lookup k m) ≡ true) × ((j : ℕ) → has (lookup j m) ≡ true → k ≤ j)

abbrev SameKeys : List ℕ → Dict ℕ MessageExt → Type 0
SameKeys ks m = (k : ℕ) → contains k ks ≡ has (lookup k m)

keys_nonempty : (m : Dict ℕ MessageExt) → length m ≢ 0 → SameKeys [] m → ⊥
keys_nonempty m filled same = let (k, found) = filled-some m filled in cc (same k)

keys-IsFirst :
    (k : ℕ) (ks : List ℕ) (m : Dict ℕ MessageExt)
    → IsSorted (k ∷ ks)
    → SameKeys (k ∷ ks) m
    → IsFirst m k
keys-IsFirst k ks m s same =
    (ground (arith, same k), λ j h. ground (arith, same j, AllFrom-contains k j ks s.0))

keys_last :
    (k : ℕ) (ks : List ℕ) (m : Dict ℕ MessageExt)
    → IsSorted (k ∷ ks)
    → SameKeys (k ∷ ks) m
    → (has (lookup (last_of k ks) m) ≡ true)
      × ((j : ℕ) → has (lookup j m) ≡ true → j ≤ last_of k ks)
keys_last k ks m s same = (
  ground (arith, same (last_of k ks), contains-last_of k ks),
  λ j h. ground (arith, same j, last_of-max k j ks s),
)

first_key_lem :
    (t : TreeMap)
    → IsTree t
    → length t.inner_map ≢ 0
    → (k : ℕ) × (first_key t ≡ some k) × IsFirst t.inner_map k
first_key_lem t v filled = go t.keys refl
  where
    go : (ks : List ℕ) → t.keys ≡ ks → (k : ℕ) × (first_key t ≡ some k) × IsFirst t.inner_map k
    go [] e =
        absurd
          (keys_nonempty t.inner_map filled (subst (λ l. SameKeys l t.inner_map) e v.same_keys))
    go (k ∷ ks) e = (
      k,
      ground (arith, e),
      keys-IsFirst k ks t.inner_map (subst IsSorted e v.sorted)
          (subst (λ l. SameKeys l t.inner_map) e v.same_keys),
    )

-- `RemoveMessage` on a valid queue does not panic, and answers with -1 if the queue was empty
-- already, which it then leaves as it was; with the offset after the last new message if it is
-- empty afterwards; and else with the offset of a message that is still in the queue, before which
-- no message is left.
pub remove_message_commit :
    (pq : ProcessQueue) (msgs : List MessageExt)
    → IsValid pq
    → let (r, pq') = remove_message pq msgs in
      ((length pq.msg_tree_map.inner_map ≡ 0) × (r ≡ some (negsuc 0)) × (pq' ≡ pq))
      ⊎ ((length pq.msg_tree_map.inner_map ≢ 0)
          × (((length pq'.msg_tree_map.inner_map ≡ 0) × (r ≡ some (pos (suc pq.queue_offset_max))))
              ⊎ ((k : ℕ) × (r ≡ some (pos k)) × IsFirst pq'.msg_tree_map.inner_map k)))
unfolding remove_message
remove_message_commit pq msgs v = elim (ℕ_discrete (length pq.msg_tree_map.inner_map) 0) [
  | yes empty ↦ inl (empty, ground arith, ground arith)
  | no filled ↦
      let t = (remove_all pq.msg_tree_map 0 msgs).0 in
      inr (
        filled,
        elim (ℕ_discrete (length t.inner_map) 0) [
          | yes none_left ↦ inl (ground arith, ground arith)
          | no some_left ↦
              let (k, e, f) =
                first_key_lem t (remove_all-IsTree msgs pq.msg_tree_map 0 v.tree).0 some_left in
              let same : (remove_message pq msgs).1.msg_tree_map ≡ t = ground arith in
              inr (k, ground (arith, e), subst (λ u. IsFirst u.inner_map k) (sym same) f)
        ],
      )
]

-- The message at an offset after a batch: the last one of the batch with that offset, or the old one.
abbrev pub newest : ℕ → List MessageExt → Option MessageExt → Option MessageExt
newest k [] old = old
newest k (m ∷ msgs) old = newest k msgs (if m.queue_offset == k then some m else old)

abbrev pub mentions : ℕ → List MessageExt → Bool
mentions k [] = false
mentions k (m ∷ msgs) = (m.queue_offset == k) || mentions k msgs

lookup-put_all :
    (k : ℕ) (msgs : List MessageExt) (t : TreeMap) (n m : ℕ)
    → lookup k (put_all t n m msgs).0.inner_map ≡ newest k msgs (lookup k t.inner_map)
unfolding put_all put
lookup-put_all k [] t n m = refl
lookup-put_all k (msg ∷ msgs) t n m =
    let o = msg.queue_offset in
    let old = (put t o msg).0 in
    lookup-put_all k msgs (put t o msg).1 (if is_new old then suc n else n)
      (if is_new old then o else m)
    ∙ ap (newest k msgs) (lookup-insert o k msg t.inner_map)

lookup-remove_all :
    (k : ℕ) (msgs : List MessageExt) (t : TreeMap) (n : ℕ)
    → lookup k (remove_all t n msgs).0.inner_map
      ≡ (if mentions k msgs then none else lookup k t.inner_map)
unfolding remove_all remove
lookup-remove_all k [] t n = refl
lookup-remove_all k (msg ∷ msgs) t n =
    let o = msg.queue_offset in
    let old = (remove t o).0 in
    ground (
      arith,
      lookup-remove_all k msgs (remove t o).1 (if is_new old then n else suc n),
      lookup-erase o k t.inner_map,
    )

-- `PutMessage` stores the batch: every offset has the last message of the batch that names it, or
-- what it had. It asks for a dispatch exactly when the queue then holds a message and was not being
-- consumed, and the queue counts as being consumed afterwards.
pub put_message_stores :
    (pq : ProcessQueue) (msgs : List MessageExt)
    → let (dispatch, pq') = put_message pq msgs in
      ((k : ℕ)
        → lookup k pq'.msg_tree_map.inner_map ≡ newest k msgs (lookup k pq.msg_tree_map.inner_map))
      × (dispatch ≡ (not (is_empty pq'.msg_tree_map) && not pq.consuming))
      × (pq'.consuming ≡ (dispatch || pq.consuming))
unfolding put_message
put_message_stores pq msgs =
    (λ k. lookup-put_all k msgs pq.msg_tree_map 0 pq.queue_offset_max, refl, ground arith)

-- `RemoveMessage` takes exactly the offsets of the batch out of the queue.
pub remove_message_takes :
    (pq : ProcessQueue) (msgs : List MessageExt) (k : ℕ)
    → lookup k (remove_message pq msgs).1.msg_tree_map.inner_map
      ≡ (if mentions k msgs then none else lookup k pq.msg_tree_map.inner_map)
unfolding remove_message
remove_message_takes pq msgs k =
    ground (
      arith,
      lookup-remove_all k msgs pq.msg_tree_map 0,
      is_empty-lookup pq.msg_tree_map.inner_map k,
    )
