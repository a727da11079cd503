-- ===== src/Tests/BrokerTests.antt =====
-- Two clients and two queues, and the offsets of a group.
use mathlib.Core.List.Memᴰ.{head, tail}
use ttstringgolangiot.Base.{
  ℕ, ◌+◌, ◌<◌, ◌⊎◌, inr, ◌≡◌, refl, true, some, List, [], ◌∷◌, String, arith, string_eq, nat_eq,
}
use ttstringgolangiot.Base.Int.{pos}
use ttstringgolangiot.Base.Text.{equal_fold}
use ttstringgolangiot.Broker.Lock.{LockEntry, MqLockTable, try_lock_batch}
use ttstringgolangiot.Broker.Lock.Exclusion.{entry_of}
use ttstringgolangiot.Broker.Lock.Sequence.{
  Call, tries, tries_batch, unlocks, run, AllRefused, run-exclusive,
}
use ttstringgolangiot.Broker.Lock.Taken.{IsTaken, try_lock_batch-IsTaken}
use ttstringgolangiot.Broker.Offsets.{OffsetManager, query_offset, commit_offset, key_of}
use ttstringgolangiot.Broker.Offsets.Share.{AreIn, IsValid, shares, query_offset-commit_offset}

abbrev held_by : String → ℕ → LockEntry
held_by client now = record { client_id = client; last_update_timestamp = now }

abbrev one_lock : MqLockTable
one_lock = ("g", (1, held_by "x" 10) ∷ []) ∷ []

abbrev rival_calls : List Call
rival_calls = tries_batch 20 "g" (1 ∷ []) "y" ∷ tries 70 "g" 1 "z" ∷ unlocks "g" (1 ∷ []) "y" ∷ []

run-exclusive_example :
    AllRefused "g" 1 rival_calls (run 60 one_lock rival_calls).0
    × (entry_of (run 60 one_lock rival_calls).1 "g" 1 ≡ some (held_by "x" 10))
unfolding equal_fold
run-exclusive_example =
    run-exclusive 60 rival_calls one_lock "g" 1 "x" (held_by "x" 10) refl refl
      ((refl, omega arith), ((refl, omega arith), (refl, tt)))

x_is_over :
    (e : LockEntry)
    → some (held_by "x" 10) ≡ some e
    → (equal_fold e.client_id "y" ≡ true) ⊎ (e.last_update_timestamp + 60 < 80)
x_is_over e h = inr (ground arith)

try_lock_batch-IsTaken_example :
    IsTaken "y" 80 (entry_of (try_lock_batch 60 80 one_lock "g" (2 ∷ 1 ∷ []) "y").1 "g" 1)
try_lock_batch-IsTaken_example =
    try_lock_batch-IsTaken 60 80 "y" one_lock "g" (2 ∷ 1 ∷ []) 1 (tail (head refl)) x_is_over

abbrev offsets_of_g : OffsetManager
offsets_of_g = record { offsets = ("t@g", 0) ∷ []; maps = ((0, pos 4) ∷ []) ∷ [] }

offsets_of_g-IsValid : IsValid offsets_of_g
unfolding IsValid AreIn
offsets_of_g-IsValid = (omega arith, tt)

query_offset-commit_offset_example :
    query_offset "g" "t" 0 (commit_offset "g" "t" 0 (pos 9) offsets_of_g) ≡ pos 9
unfolding shares key_of
query_offset-commit_offset_example =
    query_offset-commit_offset "g" "t" "g" "t" 0 0 (pos 9) offsets_of_g offsets_of_g-IsValid
