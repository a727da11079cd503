-- ===== src/Broker/Lock.antt =====
-- RebalanceLockManager (stgbroker/rebalance_lock_manager.go) with its tables
-- (stgbroker/rebalance/mq_lock_table.go, lock_entry_table.go) and LockEntry
-- (stgcommon/protocol/body/lock_entry.go).
-- A message queue is the address of a `*MessageQueue`, which is the key of the inner map. `now` is
-- the clock in milliseconds, one reading for a call, and `max_live` is lockMaxLiveTime.
-- Sets of golang-set are lists: of what their iterator yields, or of what is added, in order.
pub mod Exclusion
pub mod Batch
pub mod Rivals
pub mod Sequence
pub mod Taken
use ttstringgolangiot.Base.{
  ℕ, ◌+◌, ◌-◌, Bool, true, false, not, ◌&&◌, Option, none, some, List, [], ◌∷◌, ◌++◌, String, ltb,
  if◌then◌else◌, Dict, string_eq, nat_eq, lookup, insert, erase,
}
use ttstringgolangiot.Base.Text.{equal_fold}

pub record LockEntry : Type 0 where
  pub client_id : String
  pub last_update_timestamp : ℕ

abbrev pub MqPointer : Type 0
MqPointer = ℕ

abbrev pub LockEntryTable : Type 0
LockEntryTable = Dict MqPointer LockEntry

abbrev pub MqLockTable : Type 0
MqLockTable = Dict String LockEntryTable

-- LockEntryTable.Remove returns before the deletion when the key is there.
pub remove_entry : MqPointer → LockEntryTable → LockEntryTable
remove_entry key t = elim (lookup key t) [ some v ↦ t | none ↦ erase key t ]

-- MqLockTable.Remove.
pub remove_group : String → MqLockTable → MqLockTable
remove_group key t = elim (lookup key t) [ none ↦ t | some v ↦ erase key t ]

-- What `TryLock` and `TryLockBatch` do with one queue that is not yet locked, on the group's
-- table: the new table, and whether the lock was had by `IsLocked` (or by a new entry), by
-- expiry, or not.
pub data Attempt : Type 0 where
  locked expired refused : Attempt

-- What `TryLockBatch` adds to the set that it returns: a queue, or (after `IsLocked`) the entry.
pub data Item : Type 0 where
  queue : MqPointer → Item
  entry : LockEntry → Item

abbrev pub get_or_create : ℕ → LockEntryTable → MqPointer → String → LockEntry
get_or_create now entries mq client_id = elim (lookup mq entries) [
  | none ↦ record { client_id = client_id; last_update_timestamp = now }
  | some e ↦ e
]

-- A missing entry is put into the table.
abbrev pub with_entry : ℕ → LockEntryTable → MqPointer → String → LockEntryTable
with_entry now entries mq client_id = elim (lookup mq entries) [
  | none ↦ insert mq (get_or_create now entries mq client_id) entries
  | some e ↦ entries
]

abbrev pub group_or_new : MqLockTable → String → LockEntryTable
group_or_new t group = elim (lookup group t) [ none ↦ [] | some entries ↦ entries ]

abbrev pub is_success : Attempt → Bool
is_success refused = false
is_success _ = true

module _ (max_live : ℕ) where
  unfoldable pub is_expired : ℕ → LockEntry → Bool
  is_expired now e = ltb max_live (now - e.last_update_timestamp)

  -- LockEntry.IsLocked.
  unfoldable pub entry_is_locked : ℕ → LockEntry → String → Bool
  unfolding is_expired
  entry_is_locked now e client_id = equal_fold e.client_id client_id && not (is_expired now e)

  -- RebalanceLockManager.isLocked: a lock that is held is renewed.
  unfoldable pub is_locked : ℕ → MqLockTable → String → MqPointer → String → Bool × MqLockTable
  is_locked now t group mq client_id = elim (lookup group t) [
    | none ↦ (false, t)
    | some entries ↦ elim (lookup mq entries) [
      | none ↦ (false, t)
      | some e ↦
          if entry_is_locked now e client_id
          then (true, insert group (insert mq (record e { last_update_timestamp = now }) entries) t)
          else (false, t)
    ]
  ]

  unfoldable pub attempt : ℕ → LockEntryTable → MqPointer → String → Attempt × LockEntryTable
  attempt now entries mq client_id =
      let e = get_or_create now entries mq client_id in
      let entries' = with_entry now entries mq client_id in
      if entry_is_locked now e client_id
      then (locked, insert mq (record e { last_update_timestamp = now }) entries')
      else if is_expired now e
      then (
        expired,
        insert mq (record { client_id = client_id; last_update_timestamp = now }) entries',
      )
      else (refused, entries')

  unfoldable pub try_lock : ℕ → MqLockTable → String → MqPointer → String → Bool × MqLockTable
  try_lock now t group mq client_id =
      let (held, t') = is_locked now t group mq client_id in
      if held
      then (true, t')
      else let (a, entries) = attempt now (group_or_new t' group) mq client_id in
        (is_success a, insert group entries t')

  -- The first loop: the queues that the client holds, and the others.
  unfoldable pub sort_held :
      ℕ → MqLockTable → String → List MqPointer → String → List Item × List MqPointer × MqLockTable
  sort_held now t group [] client_id = ([], [], t)
  sort_held now t group (mq ∷ mqs) client_id =
      let (held, t') = is_locked now t group mq client_id in
      let (yes_, no_, t'') = sort_held now t' group mqs client_id in
      if held then (queue mq ∷ yes_, no_, t'') else (yes_, mq ∷ no_, t'')

  -- The second loop, on the table of the group.
  unfoldable pub attempt_all :
      ℕ → LockEntryTable → List MqPointer → String → List Item × LockEntryTable
  attempt_all now entries [] client_id = ([], entries)
  attempt_all now entries (mq ∷ mqs) client_id =
      let (a, entries') = attempt now entries mq client_id in
      let (items, entries'') = attempt_all now entries' mqs client_id in
      elim a [
        | locked ↦ (
          entry (record (get_or_create now entries mq client_id) { last_update_timestamp = now })
              ∷ items,
          entries'',
        )
        | expired ↦ (queue mq ∷ items, entries'')
        | refused ↦ (items, entries'')
      ]

  unfoldable pub try_lock_batch :
      ℕ → MqLockTable → String → List MqPointer → String → List Item × MqLockTable
  try_lock_batch now t group mqs client_id =
      let (held, others, t') = sort_held now t group mqs client_id in
      elim others [
        | [] ↦ (held, t')
        | mq ∷ rest ↦
            let (items, entries) = attempt_all now (group_or_new t' group) (mq ∷ rest) client_id in
            (held ++ items, insert group entries t')
      ]

-- The loop of `UnlockBatch` on the group's table.
pub unlock_all : LockEntryTable → List MqPointer → String → LockEntryTable
unlock_all entries [] client_id = entries
unlock_all entries (mq ∷ mqs) client_id =
    let entries' : LockEntryTable = elim (lookup mq entries) [
      | none ↦ entries
      | some e ↦ if equal_fold e.client_id client_id then remove_entry mq entries else entries
    ] in
    unlock_all entries' mqs client_id

pub unlock_batch : MqLockTable → String → List MqPointer → String → MqLockTable
unlock_batch t group mqs client_id = elim (lookup group t) [
  | none ↦ t
  | some entries ↦ insert group (unlock_all entries mqs client_id) t
]
