-- ===== src/Broker/Lock/Batch.antt =====
-- What `TryLockBatch` reports.
use ttstringgolangiot.Base.{
  ℕ, ◌≡◌, none, some, [], ◌∷◌, String, arith, string_eq, nat_eq, lookup-insert_self,
}
use ttstringgolangiot.Broker.Lock.{
  LockEntry, MqLockTable, MqPointer, entry, sort_held, attempt_all, group_or_new, try_lock_batch,
}
use ttstringgolangiot.Broker.Lock.Exclusion.{
  entry_of, lookup-group_or_new, attempt_fresh, is_locked_free,
}

module _ (max_live : ℕ) where
  -- A queue that nobody has locked is locked for the client, but what the call adds to the set of
  -- locked queues is the lock's entry and not the queue.
  pub try_lock_batch-fresh :
      (now : ℕ) (t : MqLockTable) (group : String) (mq : MqPointer) (client : String)
      → entry_of t group mq ≡ none
      → let mine : LockEntry = record { client_id = client; last_update_timestamp = now } in
        let (items, t') = try_lock_batch max_live now t group (mq ∷ []) client in
        (items ≡ entry mine ∷ []) × (entry_of t' group mq ≡ some mine)
  unfolding try_lock_batch sort_held attempt_all
  try_lock_batch-fresh now t group mq client free = grind (
    arith,
    is_locked_free max_live now t group mq client free,
    attempt_fresh max_live now (group_or_new t group) mq client,
    lookup-group_or_new t group mq,
    lookup-insert_self,
  )
