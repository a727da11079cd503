-- ===== src/Client/ProcessQueue/Invariant.antt =====
-- The invariant of a process queue: the keys are sorted and are those of the map, and MsgCount is
-- the number of messages in the map.
use ttstringgolangiot.Base.{
  ℕ, suc, ◌+◌, ◌≡◌, refl, List, [], ◌∷◌, ◌++◌, arith, if◌then◌else◌, length, nat_eq, lookup,
  lookup-insert, lookup-erase, Bool-cases, inl, inr,
}
use ttstringgolangiot.Base.Int.{pos, ◌-ℤ◌, int_laws}
use ttstringgolangiot.Client.ProcessQueue.{
  MessageExt, TreeMap, ProcessQueue, without, put, remove, put_all, remove_all, put_message,
  remove_message, is_empty, is_new,
}
use ttstringgolangiot.Client.ProcessQueue.Sorted.{
  contains, IsSorted, sort-IsSorted, contains-sort, contains-snoc, contains-without, HasUniqueKeys,
  has, insert-HasUniqueKeys, erase-HasUniqueKeys, length-insert, length-erase,
}

pub record IsTree (t : TreeMap) : Type 0 where
  pub sorted : IsSorted t.keys
  pub unique : HasUniqueKeys t.inner_map
  pub same_keys : (k : ℕ) → contains k t.keys ≡ has (lookup k t.inner_map)

abbrev pub size : TreeMap → ℕ
size t = length t.inner_map

pub put-IsTree : (t : TreeMap) (k : ℕ) (m : MessageExt) → IsTree t → IsTree (put t k m).1
unfolding put
put-IsTree t k m v = record {
  sorted = sort-IsSorted (t.keys ++ k ∷ []);
  unique = insert-HasUniqueKeys k m t.inner_map v.unique;
  same_keys = λ j. ground (
    arith,
    contains-sort j (t.keys ++ k ∷ []),
    contains-snoc j k t.keys,
    lookup-insert k j m t.inner_map,
    v.same_keys j,
  );
}

pub remove-IsTree : (t : TreeMap) (k : ℕ) → IsTree t → IsTree (remove t k).1
unfolding remove
remove-IsTree t k v = record {
  sorted = sort-IsSorted (without k t.keys);
  unique = erase-HasUniqueKeys k t.inner_map v.unique;
  same_keys = λ j. ground (
    arith,
    contains-sort j (without k t.keys),
    contains-without j k t.keys,
    lookup-erase k j t.inner_map,
    v.same_keys j,
  );
}

size-put :
    (t : TreeMap) (k : ℕ) (m : MessageExt)
    → size (put t k m).1 ≡ (if has (put t k m).0 then size t else suc (size t))
unfolding put
size-put t k m = length-insert k m t.inner_map

size-remove :
    (t : TreeMap) (k : ℕ)
    → IsTree t
    → size t ≡ (if has (remove t k).0 then suc (size (remove t k).1) else size (remove t k).1)
unfolding remove
size-remove t k v = length-erase k t.inner_map v.unique

pub put_all-IsTree :
    (msgs : List MessageExt) (t : TreeMap) (n m : ℕ)
    → IsTree t
    → IsTree (put_all t n m msgs).0
      × (size (put_all t n m msgs).0 + n ≡ size t + (put_all t n m msgs).1)
unfolding put_all
put_all-IsTree [] t n m v = (v, refl)
put_all-IsTree (msg ∷ msgs) t n m v =
    let k = msg.queue_offset in
    let old = (put t k msg).0 in
    let ih =
      put_all-IsTree msgs (put t k msg).1 (if is_new old then suc n else n)
        (if is_new old then k else m) (put-IsTree t k msg v) in
    (ih.0, ground (arith, ih.1, size-put t k msg))

pub remove_all-IsTree :
    (msgs : List MessageExt) (t : TreeMap) (n : ℕ)
    → IsTree t
    → IsTree (remove_all t n msgs).0
      × (size (remove_all t n msgs).0 + (remove_all t n msgs).1 ≡ size t + n)
unfolding remove_all
remove_all-IsTree [] t n v = (v, refl)
remove_all-IsTree (msg ∷ msgs) t n v =
    let k = msg.queue_offset in
    let old = (remove t k).0 in
    let ih =
      remove_all-IsTree msgs (remove t k).1 (if is_new old then n else suc n)
        (remove-IsTree t k v) in
    (ih.0, ground (arith, ih.1, size-remove t k v))

pub record IsValid (pq : ProcessQueue) : Type 0 where
  pub tree : IsTree pq.msg_tree_map
  pub counted : pq.msg_count ≡ pos (size pq.msg_tree_map)

-- `PutMessage` keeps the invariant.
pub put_message-IsValid :
    (pq : ProcessQueue) (msgs : List MessageExt) → IsValid pq → IsValid (put_message pq msgs).1
unfolding put_message
put_message-IsValid pq msgs v =
    let ih = put_all-IsTree msgs pq.msg_tree_map 0 pq.queue_offset_max v.tree in
    record { tree = ih.0; counted = grind (int_laws, ih.1, v.counted) }

-- `RemoveMessage` keeps the invariant, whatever the messages are.
pub remove_message-IsValid :
    (pq : ProcessQueue) (msgs : List MessageExt) → IsValid pq → IsValid (remove_message pq msgs).1
unfolding remove_message
remove_message-IsValid pq msgs v = elim (Bool-cases (is_empty pq.msg_tree_map)) [
  | inl empty ↦ rw (empty, remove_message) v
  | inr filled ↦
      let ih = remove_all-IsTree msgs pq.msg_tree_map 0 v.tree in
      let valid : IsValid (record pq {
        msg_count = pq.msg_count -ℤ pos (remove_all pq.msg_tree_map 0 msgs).1;
        msg_tree_map = (remove_all pq.msg_tree_map 0 msgs).0;
      }) =
        record { tree = ih.0; counted = grind (int_laws, ih.1, v.counted) } in
      elim (Bool-cases (is_empty (remove_all pq.msg_tree_map 0 msgs).0)) [
        | inl none_left ↦ rw (filled, none_left, remove_message) valid
        | inr some_left ↦ rw (filled, some_left, remove_message) valid
      ]
]
