-- ===== src/Registry/RouteInfo/Slice.antt =====
-- The loops `for index, qd := range list { … list = append(list[:index], list[index+1:]...) … }`.
-- The range goes over the slice as it was when the loop began, but the deletions move the elements
-- of the array that both share, and shorten `list`. So the state of a loop is the array, as far as
-- the range reads it, and the length of `list`; `list[index+1:]` panics when it begins past the end.
use ttstringgolangiot.Base.{
  ℕ, zero, suc, ◌+◌, ◌-◌, Bool, true, false, Option, none, some, List, ◌++◌, String, ltb,
  if◌then◌else◌, length, get_elem?, take, drop, string_eq, ◌≟◌,
}
use ttstringgolangiot.Registry.RouteInfo.{QueueData, queue_data_equals}

-- `append(list[:index], list[index+1:]...)`: the array and the new length.
unfoldable pub cut : List QueueData → ℕ → ℕ → Option (List QueueData × ℕ)
cut array len index =
    if ltb index len
    then some
        (take index array ++ (drop (index + 1) (take len array) ++ drop (len - 1) array), len - 1)
    else none

-- How a loop ends: with the list, or by a panic, at which the table has the list as it was then.
pub data Loop : Type 0 where
  finished : List QueueData → Loop
  panicked : List QueueData → Loop

-- The loop that deletes the entries of a broker, for the `r` rounds from `index`.
unfoldable pub remove_from : String → List QueueData → ℕ → ℕ → ℕ → Loop
remove_from name array len index zero = finished (take len array)
remove_from name array len index (suc r) = elim (get_elem? array index) [
  | none ↦ panicked (take len array)
  | some q ↦ elim (q.broker_name ≟ name) [
    | false ↦ remove_from name array len (index + 1) r
    | true ↦ elim (cut array len index) [
      | none ↦ panicked (take len array)
      | some (array', len') ↦ remove_from name array' len' (index + 1) r
    ]
  ]
]

unfoldable pub remove_queues : String → List QueueData → Loop
remove_queues name qs = remove_from name qs (length qs) 0 (length qs)

-- The loop of `createAndUpdateQueueData`: an entry of the broker that equals the new one stays and
-- nothing will be added, any other is deleted. The flag is `addNewOne`.
pub data Update : Type 0 where
  updated : List QueueData → Bool → Update
  update_panicked : List QueueData → Update

unfoldable pub update_from : QueueData → List QueueData → ℕ → Bool → ℕ → ℕ → Update
update_from new array len add_new_one index zero = updated (take len array) add_new_one
update_from new array len add_new_one index (suc r) = elim (get_elem? array index) [
  | none ↦ update_panicked (take len array)
  | some q ↦ elim (q.broker_name ≟ new.broker_name) [
    | false ↦ update_from new array len add_new_one (index + 1) r
    | true ↦ elim (queue_data_equals new q) [
      | true ↦ update_from new array len false (index + 1) r
      | false ↦ elim (cut array len index) [
        | none ↦ update_panicked (take len array)
        | some (array', len') ↦ update_from new array' len' add_new_one (index + 1) r
      ]
    ]
  ]
]

unfoldable pub update_queues : QueueData → List QueueData → Update
update_queues new qs = update_from new qs (length qs) true 0 (length qs)
