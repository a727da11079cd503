-- ===== src/Client/ProcessQueue.antt =====
-- ProcessQueue and its TreeMap (stgclient/consumer/process_queue.go): the messages that a consumer
-- has pulled and not yet processed, by queue offset.
-- Offsets are natural numbers and the counters are integers without a bound. A message is what the
-- code reads of it: its offset, and its PROPERTY_MAX_OFFSET text.
pub mod Sorted
pub mod Invariant
pub mod Commit
use Prim.Native.Nat.{ℕ}
use ttstringgolangiot.Base.{
  zero, suc, ◌+◌, ◌-◌, ◌*◌, ◌^◌, Bool, true, false, not, ◌&&◌, Option, none, some, List, [], ◌∷◌,
  ◌++◌, String, ltb, leb, ◌==◌, if◌then◌else◌, length, Dict, nat_eq, lookup, insert, erase,
}
use ttstringgolangiot.Base.Int.{ℤ, pos, negsuc, ◌+ℤ◌, ◌-ℤ◌, ltb_ℤ}
use ttstringgolangiot.Base.Text.{codes}

pub record MessageExt : Type 0 where
  pub queue_offset : ℕ
  pub max_offset_property : String

pub record TreeMap : Type 0 where
  pub keys : List ℕ
  pub inner_map : Dict ℕ MessageExt

-- `sort.Ints`.
abbrev pub insert_sorted : ℕ → List ℕ → List ℕ
insert_sorted x [] = x ∷ []
insert_sorted x (y ∷ ys) = if leb x y then x ∷ y ∷ ys else y ∷ insert_sorted x ys

abbrev pub sort : List ℕ → List ℕ
sort [] = []
sort (x ∷ xs) = insert_sorted x (sort xs)

-- The old message comes back beside the new map.
pub put : TreeMap → ℕ → MessageExt → Option MessageExt × TreeMap
put t offset msg = (
  lookup offset t.inner_map,
  record { keys = sort (t.keys ++ offset ∷ []); inner_map = insert offset msg t.inner_map },
)

-- `keys[0]` and `keys[len-1]`; `none` is an index out of range.
abbrev pub first_key : TreeMap → Option ℕ
first_key t = elim (t.keys) [ [] ↦ none | k ∷ ks ↦ some k ]

abbrev pub last_of : ℕ → List ℕ → ℕ
last_of k [] = k
last_of k (j ∷ ks) = last_of j ks

abbrev pub last_key : TreeMap → Option ℕ
last_key t = elim (t.keys) [ [] ↦ none | k ∷ ks ↦ some (last_of k ks) ]

abbrev pub without : ℕ → List ℕ → List ℕ
without offset [] = []
without offset (k ∷ ks) = let rest = without offset ks in if k == offset then rest else k ∷ rest

pub remove : TreeMap → ℕ → Option MessageExt × TreeMap
remove t offset = (
  lookup offset t.inner_map,
  record { keys = sort (without offset t.keys); inner_map = erase offset t.inner_map },
)

pub record ProcessQueue : Type 0 where
  pub msg_count : ℤ
  pub msg_tree_map : TreeMap
  pub queue_offset_max : ℕ
  pub consuming : Bool
  pub msg_acc_cnt : ℤ

-- `strconv.ParseInt(s, 10, 64)` with its error dropped: 0 for what is no number, and the nearest
-- 64-bit number for one that is too large.
digits_value : ℕ → List ℕ → Option ℕ
digits_value acc [] = some acc
digits_value acc (c ∷ cs) =
    let rest = digits_value (acc * 10 + (c - b'0')) cs in
    if leb b'0' c && leb c b'9' then rest else none

abbrev saturated : Bool → Option ℕ → ℤ
saturated negative none = pos 0
saturated false (some n) = if ltb n (2 ^ 63) then pos n else pos (2 ^ 63 - 1)
saturated true (some n) = if leb n (2 ^ 63) then pos 0 -ℤ pos n else negsuc (2 ^ 63 - 1)

abbrev unsigned : Bool → List ℕ → ℤ
unsigned negative [] = pos 0
unsigned negative (c ∷ cs) = saturated negative (digits_value 0 (c ∷ cs))

pub parse_int : List ℕ → ℤ
unfolding digits_value ◌-ℤ◌
parse_int [] = pos 0
parse_int (c ∷ cs) =
    if c == b'-'
    then unsigned true cs
    else if c == b'+'
    then unsigned false cs
    else unsigned false (c ∷ cs)

-- `old == nil`.
abbrev pub is_new : Option MessageExt → Bool
is_new none = true
is_new (some _) = false

-- The loop of `PutMessage`: the map, how many messages were new, and QueueOffsetMax.
pub put_all : TreeMap → ℕ → ℕ → List MessageExt → TreeMap × ℕ × ℕ
put_all t valid_msg_cnt offset_max [] = (t, valid_msg_cnt, offset_max)
put_all t valid_msg_cnt offset_max (msg ∷ msgs) =
    let (old, t') = put t msg.queue_offset msg in
    put_all t' (if is_new old then suc valid_msg_cnt else valid_msg_cnt)
      (if is_new old then msg.queue_offset else offset_max) msgs

abbrev pub is_empty : TreeMap → Bool
is_empty t = length (t.inner_map) == 0

-- MsgAccCnt after the last message of a batch.
pub acc_cnt : ℤ → List MessageExt → ℤ
acc_cnt old [] = old
acc_cnt old (msg ∷ m ∷ msgs) = acc_cnt old (m ∷ msgs)
acc_cnt old (msg ∷ []) = elim (codes msg.max_offset_property) [
  | [] ↦ old
  | c ∷ cs ↦
      let acc_total = parse_int (c ∷ cs) -ℤ pos msg.queue_offset in
      if ltb_ℤ (pos 0) acc_total then acc_total else old
]

pub put_message : ProcessQueue → List MessageExt → Bool × ProcessQueue
put_message pq msgs =
    let (t, valid_msg_cnt, offset_max) = put_all pq.msg_tree_map 0 pq.queue_offset_max msgs in
    let dispatch = not (is_empty t) && not pq.consuming in
    (
      dispatch,
      record {
        msg_count = pq.msg_count +ℤ pos valid_msg_cnt;
        msg_tree_map = t;
        queue_offset_max = offset_max;
        consuming = if dispatch then true else pq.consuming;
        msg_acc_cnt = acc_cnt pq.msg_acc_cnt msgs;
      },
    )

-- The loop of `RemoveMessage`: the map and how many messages were there.
pub remove_all : TreeMap → ℕ → List MessageExt → TreeMap × ℕ
remove_all t removed [] = (t, removed)
remove_all t removed (msg ∷ msgs) =
    let (prev, t') = remove t msg.queue_offset in
    remove_all t' (if is_new prev then removed else suc removed) msgs

-- The offset to commit; `none` is the panic of `firstKey`.
pub remove_message : ProcessQueue → List MessageExt → Option ℤ × ProcessQueue
remove_message pq msgs =
    if is_empty pq.msg_tree_map
    then (some (negsuc 0), pq)
    else let (t, removed) = remove_all pq.msg_tree_map 0 msgs in
      let pq' = record pq { msg_count = pq.msg_count -ℤ pos removed; msg_tree_map = t } in
      if is_empty t
      then (some (pos (suc pq.queue_offset_max)), pq')
      else (elim (first_key t) [ none ↦ none | some k ↦ some (pos k) ], pq')

-- `none` is a panic.
pub get_max_span : ProcessQueue → Option ℤ
get_max_span pq =
    if is_empty pq.msg_tree_map then some (pos 0) else elim (last_key pq.msg_tree_map) [
      | none ↦ none
      | some l ↦ elim (first_key pq.msg_tree_map) [ none ↦ none | some f ↦ some (pos l -ℤ pos f) ]
    ]
