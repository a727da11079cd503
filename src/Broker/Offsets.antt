-- ===== src/Broker/Offsets.antt =====
-- ConsumerOffsetManager (stgbroker/consumer_offset_manager.go) and OffsetTable
-- (stgbroker/offset_table.go): how far each group has consumed each queue of a topic.
-- A Go map is a reference and CloneOffset copies one, so the table holds addresses of a store of
-- maps. The store's least offset of a queue and the subscription data of a group are parameters.
-- A queue's id is a number that is not negative; the maps that the table holds are not nil.
pub mod Share
pub mod Filter
use Prim.Native.Char.{Char, code}
use Prim.Native.String
use ttstringgolangiot.Base.{
  ℕ, suc, Bool, true, false, not, ◌&&◌, ◌||◌, Option, none, some, List, [], ◌∷◌, ◌++◌, String, ◌==◌,
  if◌then◌else◌, Dict, nat_eq, string_eq, ◌≟◌, lookup, insert, length, get_or, set,
}
use ttstringgolangiot.Base.Int.{ℤ, pos, negsuc, ltb_ℤ}
use ttstringgolangiot.Base.Text.{equal_fold}

abbrev pub Queues : Type 0
Queues = Dict ℕ ℤ

pub record OffsetManager : Type 0 where
  pub offsets : Dict String ℕ
  pub maps : List Queues

abbrev pub concat : String → String → String
concat String.[] t = t
concat (String.◌∷◌ c s) t = String.◌∷◌ c (concat s t)

-- `strings.Split` by a separator of one ASCII character.
abbrev cons_piece : Bool → Char → List String → List String
cons_piece true c ps = "" ∷ ps
cons_piece false c [] = String.◌∷◌ c "" ∷ []
cons_piece false c (p ∷ ps) = String.◌∷◌ c p ∷ ps

unfoldable pub split : ℕ → String → List String
split sep String.[] = "" ∷ []
split sep (String.◌∷◌ c s) = cons_piece (code c == sep) c (split sep s)

abbrev pub topic_group_separator : String
topic_group_separator = "@"

abbrev separator_code : ℕ
separator_code = 64

unfoldable pub key_of : String → String → String
key_of topic group = concat topic (concat topic_group_separator group)

-- The topic and the group of a key that has two parts.
unfoldable pub parts_of : String → Option (String × String)
parts_of key = elim (split separator_code key) [
  | topic ∷ (group ∷ []) ↦ some (topic, group)
  | _ ↦ none
]

abbrev pub map_at : OffsetManager → ℕ → Queues
map_at m r = get_or m.maps r []

-- `Get`, by reference, and the map there.
abbrev pub get : String → OffsetManager → Option Queues
get key m = elim (lookup key m.offsets) [ none ↦ none | some r ↦ some (map_at m r) ]

abbrev pub query_key : String → ℕ → OffsetManager → ℤ
query_key key queue m = elim (get key m) [
  | none ↦ negsuc 0
  | some queues ↦ elim (lookup queue queues) [ none ↦ negsuc 0 | some offset ↦ offset ]
]

unfoldable pub query_offset : String → String → ℕ → OffsetManager → ℤ
query_offset group topic queue m = query_key (key_of topic group) queue m

pub query_offset_by_group_and_topic : String → String → OffsetManager → Option Queues
query_offset_by_group_and_topic group topic m = get (key_of topic group) m

unfoldable pub commit_key : String → ℕ → ℤ → OffsetManager → OffsetManager
commit_key key queue offset m = elim (lookup key m.offsets) [
  | none ↦ record {
    offsets = insert key (length m.maps) m.offsets;
    maps = m.maps ++ ((queue, offset) ∷ []) ∷ [];
  }
  | some r ↦ record m { maps = set m.maps r (insert queue offset (map_at m r)) }
]

unfoldable pub commit_offset : String → String → ℕ → ℤ → OffsetManager → OffsetManager
commit_offset group topic queue offset m = commit_key (key_of topic group) queue offset m

unfoldable pub clone_key : String → String → OffsetManager → OffsetManager
clone_key src dest m = elim (lookup src m.offsets) [
  | none ↦ m
  | some r ↦ record m { offsets = insert dest r m.offsets }
]

unfoldable pub clone_offset : String → String → String → OffsetManager → OffsetManager
clone_offset src_group dest_group topic m =
    clone_key (key_of topic src_group) (key_of topic dest_group) m

-- `RemoveByFlag`.
unfoldable pub remove_by_flag : (String → ℕ → Bool) → Dict String ℕ → Dict String ℕ
remove_by_flag flag [] = []
remove_by_flag flag ((k, r) ∷ t) =
    let rest = remove_by_flag flag t in if flag k r then rest else (k, r) ∷ rest

abbrev remove_flagged : (String → ℕ → Bool) → OffsetManager → OffsetManager
remove_flagged flag m = record m { offsets = remove_by_flag flag m.offsets }

pub which_topic_from : String → Dict String ℕ → List String
which_topic_from group [] = []
which_topic_from group ((key, r) ∷ t) =
    let rest = which_topic_from group t in
    elim (parts_of key) [
      | none ↦ rest
      | some (topic, g) ↦ if equal_fold group g then topic ∷ rest else rest
    ]

-- The topics that are added to the set that is returned.
pub which_topic_by_consumer : String → OffsetManager → List String
which_topic_by_consumer group m = which_topic_from group m.offsets

pub which_group_from : String → Dict String ℕ → List String
which_group_from topic [] = []
which_group_from topic ((key, r) ∷ t) =
    let rest = which_group_from topic t in
    elim (parts_of key) [
      | none ↦ rest
      | some (tp, group) ↦ if equal_fold topic tp then group ∷ rest else rest
    ]

pub which_group_by_topic : String → OffsetManager → List String
which_group_by_topic topic m = which_group_from topic m.offsets

-- Of two offsets the smaller one; a new one is compared with the greatest int64.
abbrev pub min_ℤ : ℤ → ℤ → ℤ
min_ℤ a b = if ltb_ℤ a b then a else b

abbrev pub max_value : ℤ
max_value = pos 9223372036854775807

-- A group is filtered out when its name and `group` are equal but for the case of letters.
unfoldable pub is_of_group : String → String → Bool
is_of_group group key = elim (parts_of key) [ none ↦ false | some (topic, g) ↦ equal_fold group g ]

unfoldable pub remove_groups : List String → Dict String ℕ → Dict String ℕ
remove_groups [] t = t
remove_groups (group ∷ gs) t = remove_groups gs (remove_by_flag (λ key r. is_of_group group key) t)

-- `blankReg` is `\S`.
unfoldable pub is_blank : String → Bool
is_blank String.[] = true
is_blank (String.◌∷◌ c s) = is_white (code c) && is_blank s
  where
    is_white : ℕ → Bool
    is_white c = c == 9 || c == 10 || c == 12 || c == 13 || c == 32

module _ (min_offset_in_queue : String → ℕ → ℤ) where
  pub behind_from : String → Queues → Bool
  behind_from topic [] = true
  behind_from topic ((queue, offset) ∷ qs) =
      let rest = behind_from topic qs in
      if ltb_ℤ (min_offset_in_queue topic queue) offset then false else rest

  pub offset_behind_much_than_data : String → Queues → Bool
  offset_behind_much_than_data topic [] = false
  offset_behind_much_than_data topic (q ∷ qs) = behind_from topic (q ∷ qs)

  pub scan_unsubscribed_topic : (String → String → Bool) → OffsetManager → OffsetManager
  scan_unsubscribed_topic has_subscription m =
      remove_flagged
        (λ key r. elim (parts_of key) [
          | none ↦ false
          | some (topic, group) ↦
              not (has_subscription group topic) && offset_behind_much_than_data topic (map_at m r)
        ])
        m

  abbrev pub put_min : ℕ → ℤ → Queues → Queues
  put_min queue v found = elim (lookup queue found) [
    | none ↦ insert queue (min_ℤ max_value v) found
    | some offset ↦ insert queue (min_ℤ v offset) found
  ]

  pub min_of_queues : String → Queues → Queues → Queues
  min_of_queues topic [] found = found
  min_of_queues topic ((queue, v) ∷ qs) found =
      min_of_queues topic qs
        (if ltb_ℤ v (min_offset_in_queue topic queue) then found else put_min queue v found)

  pub min_of_keys : String → OffsetManager → Dict String ℕ → Queues → Queues
  min_of_keys topic m [] found = found
  min_of_keys topic m ((key, r) ∷ t) found = min_of_keys topic m t (elim (parts_of key) [
    | none ↦ found
    | some (tp, group) ↦
        if equal_fold topic tp then min_of_queues topic (map_at m r) found else found
  ])

  abbrev comma : ℕ
  comma = 44

  -- The groups that are filtered out leave the table itself.
  unfoldable pub query_min_offset_in_all_group :
      String → String → OffsetManager → Queues × OffsetManager
  query_min_offset_in_all_group topic filter_groups m =
      let kept : Dict String ℕ =
        if is_blank filter_groups
        then m.offsets
        else remove_groups (split comma filter_groups) m.offsets in
      (min_of_keys topic m kept [], record m { offsets = kept })
