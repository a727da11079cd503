-- ===== src/Broker/Lock/Taken.antt =====
-- What a client has after TryLockBatch (stgbroker/rebalance_lock_manager.go).
use mathlib.Core.List.{Memᴰ}
use mathlib.Core.List.Memᴰ.{head, tail, not-nil}
use ttstringgolangiot.Base.{
  ℕ, ◌+◌, ◌<◌, subst, ◌≡◌, refl, true, false, Option, none, some, List, [], ◌∷◌, String, arith,
  string_eq, nat_eq, lookup, Bool-cases, Option-cases, ◌⊎◌, inl, inr,
}
use native.Mathlib.Decide.{ℕ_discrete}
use ttstringgolangiot.Base.Text.{equal_fold}
use ttstringgolangiot.Broker.Lock.{
  LockEntry, LockEntryTable, MqLockTable, MqPointer, is_expired, entry_is_locked, is_locked,
  attempt, sort_held, attempt_all, group_or_new, try_lock_batch,
}
use ttstringgolangiot.Broker.Lock.Exclusion.{
  entry_of, entry_of-insert, lookup-group_or_new, granted, entry_after, is_locked_lem,
  is_locked_others, attempt_lem, attempt_others, granted_entry,
}
use ttstringgolangiot.Broker.Lock.Rivals.{Attempt-cases, List-cases}

-- The client's entry, with the time of the call.
pub record IsTaken (client : String) (now : ℕ) (o : Option LockEntry) : Type 0 where
  pub entry : LockEntry
  pub is_there : o ≡ some entry
  pub is_mine : equal_fold entry.client_id client ≡ true
  pub is_fresh : entry.last_update_timestamp ≡ now

module _ (max_live now : ℕ) (client : String) where
  -- A queue that the client can have.
  IsFree : Option LockEntry → Type 0
  IsFree o = granted max_live now o client ≡ true

  free-IsTaken :
      (o : Option LockEntry) → IsFree o → IsTaken client now (entry_after max_live now o client)
  unfolding IsFree
  free-IsTaken o g =
      let (e, there, mine, fresh) = granted_entry max_live now o client g in
      record { entry = e; is_there = there; is_mine = mine; is_fresh = fresh }

  IsTaken-IsFree : (o : Option LockEntry) → IsTaken client now o → IsFree o
  unfolding IsFree entry_is_locked is_expired
  IsTaken-IsFree o h = rw h.is_there (ground (arith, h.is_mine, h.is_fresh))

  none-IsFree : IsFree none
  unfolding IsFree
  none-IsFree = refl

  own-IsFree :
      (e : LockEntry)
      → (equal_fold e.client_id client ≡ true) ⊎ (e.last_update_timestamp + max_live < now)
      → IsFree (some e)
  unfolding IsFree entry_is_locked is_expired
  own-IsFree e h = ground arith

  attempt-IsTaken :
      (entries : LockEntryTable) (mq : MqPointer)
      → IsFree (lookup mq entries)
      → IsTaken client now (lookup mq (attempt max_live now entries mq client).1)
  attempt-IsTaken entries mq free =
      rw (attempt_lem max_live now entries mq client).1 (free-IsTaken (lookup mq entries) free)

  attempt-IsFree :
      (entries : LockEntryTable) (mq q : MqPointer)
      → IsFree (lookup mq entries)
      → IsFree (lookup mq (attempt max_live now entries q client).1)
  attempt-IsFree entries mq q free = elim (ℕ_discrete q mq) [
    | yes same ↦ rw same (IsTaken-IsFree _ (attempt-IsTaken entries mq free))
    | no other ↦ rw (attempt_others max_live now entries q mq client other) free
  ]

  attempt-keeps :
      (entries : LockEntryTable) (mq q : MqPointer)
      → IsTaken client now (lookup mq entries)
      → IsTaken client now (lookup mq (attempt max_live now entries q client).1)
  attempt-keeps entries mq q taken = elim (ℕ_discrete q mq) [
    | yes same ↦ rw same (attempt-IsTaken entries mq (IsTaken-IsFree _ taken))
    | no other ↦ rw (attempt_others max_live now entries q mq client other) taken
  ]

  attempt_all-rest :
      (entries : LockEntryTable) (q : MqPointer) (mqs : List MqPointer)
      → (attempt_all max_live now entries (q ∷ mqs) client).1
        ≡ (attempt_all max_live now (attempt max_live now entries q client).1 mqs client).1
  unfolding attempt_all
  attempt_all-rest entries q mqs = elim (Attempt-cases (attempt max_live now entries q client).0) [
    | inl e ↦ rw (attempt_all, e) refl
    | inr (inl e) ↦ rw (attempt_all, e) refl
    | inr (inr e) ↦ rw (attempt_all, e) refl
  ]

  attempt_all-keeps :
      (entries : LockEntryTable) (mq : MqPointer) (mqs : List MqPointer)
      → IsTaken client now (lookup mq entries)
      → IsTaken client now (lookup mq (attempt_all max_live now entries mqs client).1)
  unfolding attempt_all
  attempt_all-keeps entries mq [] taken = taken
  attempt_all-keeps entries mq (q ∷ mqs) taken = rw (attempt_all-rest entries q mqs) (
      attempt_all-keeps (attempt max_live now entries q client).1 mq mqs
        (attempt-keeps entries mq q taken))

  attempt_all-IsTaken :
      (entries : LockEntryTable) (mq : MqPointer) (mqs : List MqPointer)
      → Memᴰ mq mqs
      → IsFree (lookup mq entries)
      → IsTaken client now (lookup mq (attempt_all max_live now entries mqs client).1)
  attempt_all-IsTaken entries mq [] x free = elim x [ ]
  attempt_all-IsTaken entries mq (q ∷ mqs) (head e) free = rw (attempt_all-rest entries q mqs) (
      attempt_all-keeps (attempt max_live now entries q client).1 mq mqs (
        subst (λ x. IsTaken client now (lookup mq (attempt max_live now entries x client).1)) e
          (attempt-IsTaken entries mq free)))
  attempt_all-IsTaken entries mq (q ∷ mqs) (tail m) free = rw (attempt_all-rest entries q mqs) (
      attempt_all-IsTaken (attempt max_live now entries q client).1 mq mqs m
        (attempt-IsFree entries mq q free))

  module _ (group : String) (mq : MqPointer) where
    is_locked-IsTaken :
        (t : MqLockTable)
        → IsFree (entry_of t group mq)
        → IsTaken client now (entry_of (is_locked max_live now t group mq client).1 group mq)
          ⊎ (is_locked max_live now t group mq client ≡ (false, t))
    is_locked-IsTaken t free = elim (is_locked_lem max_live now t group mq client) [
      | inl (done, yes_, after) ↦ inl (rw after (free-IsTaken (entry_of t group mq) free))
      | inr no_ ↦ inr no_
    ]

    is_locked-IsFree :
        (t : MqLockTable) (q : MqPointer)
        → IsFree (entry_of t group mq)
        → IsFree (entry_of (is_locked max_live now t group q client).1 group mq)
    is_locked-IsFree t q free = elim (ℕ_discrete q mq) [
      | yes same ↦ rw same (elim (is_locked-IsTaken t free) [
        | inl taken ↦ IsTaken-IsFree _ taken
        | inr no_ ↦ rw no_ free
      ])
      | no other ↦ rw (is_locked_others max_live now t group group q mq client (inr other)) free
    ]

    is_locked-keeps :
        (t : MqLockTable) (q : MqPointer)
        → IsTaken client now (entry_of t group mq)
        → IsTaken client now (entry_of (is_locked max_live now t group q client).1 group mq)
    is_locked-keeps t q taken = elim (ℕ_discrete q mq) [
      | yes same ↦ rw same (elim (is_locked-IsTaken t (IsTaken-IsFree _ taken)) [
        | inl again ↦ again
        | inr no_ ↦ rw no_ taken
      ])
      | no other ↦ rw (is_locked_others max_live now t group group q mq client (inr other)) taken
    ]

    sort_held-keeps :
        (t : MqLockTable) (mqs : List MqPointer)
        → IsTaken client now (entry_of t group mq)
        → IsTaken client now (entry_of (sort_held max_live now t group mqs client).2 group mq)
    unfolding sort_held
    sort_held-keeps t [] taken = taken
    sort_held-keeps t (q ∷ mqs) taken =
        let rest =
          sort_held-keeps (is_locked max_live now t group q client).1 mqs
            (is_locked-keeps t q taken) in
        elim (Bool-cases (is_locked max_live now t group q client).0) [
          | inl e ↦ rw (sort_held, e) rest
          | inr e ↦ rw (sort_held, e) rest
        ]

    sort_held-IsFree :
        (t : MqLockTable) (mqs : List MqPointer)
        → IsFree (entry_of t group mq)
        → IsFree (entry_of (sort_held max_live now t group mqs client).2 group mq)
    unfolding sort_held
    sort_held-IsFree t [] free = free
    sort_held-IsFree t (q ∷ mqs) free =
        let rest =
          sort_held-IsFree (is_locked max_live now t group q client).1 mqs
            (is_locked-IsFree t q free) in
        elim (Bool-cases (is_locked max_live now t group q client).0) [
          | inl e ↦ rw (sort_held, e) rest
          | inr e ↦ rw (sort_held, e) rest
        ]

    sort_held-first :
        (t : MqLockTable) (mqs : List MqPointer)
        → IsFree (entry_of t group mq)
        → IsTaken client now
            (entry_of (sort_held max_live now t group (mq ∷ mqs) client).2 group mq)
          ⊎ Memᴰ mq (sort_held max_live now t group (mq ∷ mqs) client).1
    unfolding sort_held
    sort_held-first t mqs free =
        let t' = (is_locked max_live now t group mq client).1 in
        elim (is_locked-IsTaken t free) [
          | inl taken ↦
              let rest = sort_held-keeps t' mqs taken in
              elim (Bool-cases (is_locked max_live now t group mq client).0) [
                | inl e ↦ rw (sort_held, e) (inl rest)
                | inr e ↦ rw (sort_held, e) (inl rest)
              ]
          | inr no_ ↦ rw (sort_held, no_) (inr (head refl))
        ]

    -- A queue of the list is taken in the first loop or left for the second.
    sort_held-cases :
        (t : MqLockTable) (mqs : List MqPointer)
        → Memᴰ mq mqs
        → IsFree (entry_of t group mq)
        → IsTaken client now (entry_of (sort_held max_live now t group mqs client).2 group mq)
          ⊎ Memᴰ mq (sort_held max_live now t group mqs client).1
    unfolding sort_held
    sort_held-cases t [] x free = elim x [ ]
    sort_held-cases t (q ∷ mqs) (head e) free =
        subst
          (λ x.
            IsTaken client now
              (entry_of (sort_held max_live now t group (x ∷ mqs) client).2 group mq)
            ⊎ Memᴰ mq (sort_held max_live now t group (x ∷ mqs) client).1)
          e (sort_held-first t mqs free)
    sort_held-cases t (q ∷ mqs) (tail m) free =
        let rest =
          sort_held-cases (is_locked max_live now t group q client).1 mqs m
            (is_locked-IsFree t q free) in
        elim (Bool-cases (is_locked max_live now t group q client).0) [
          | inl e ↦ rw (sort_held, e) rest
          | inr e ↦ rw (sort_held, e) (elim rest [ inl taken ↦ inl taken | inr m' ↦ inr (tail m') ])
        ]

  -- After TryLockBatch each queue of its list that nobody had, or whose lock was the client's own
  -- or past its life time, has an entry of the client (up to the case of letters) with the time of
  -- the call.
  pub try_lock_batch-IsTaken :
      (t : MqLockTable) (group : String) (mqs : List MqPointer) (mq : MqPointer)
      → Memᴰ mq mqs
      → ((e : LockEntry)
          → entry_of t group mq ≡ some e
          → (equal_fold e.client_id client ≡ true) ⊎ (e.last_update_timestamp + max_live < now))
      → IsTaken client now (entry_of (try_lock_batch max_live now t group mqs client).1 group mq)
  unfolding try_lock_batch
  try_lock_batch-IsTaken t group mqs mq m h =
      let free : IsFree (entry_of t group mq) = elim (Option-cases (entry_of t group mq)) [
        | inl nobody ↦ rw nobody (none-IsFree)
        | inr (e, at) ↦ rw at (own-IsFree e (h e at))
      ] in
      let t' = (sort_held max_live now t group mqs client).2 in
      let sorted = sort_held-cases group mq t mqs m free in
      let had = lookup-group_or_new t' group mq in
      elim (List-cases (sort_held max_live now t group mqs client).1) [
        | inl none_left ↦
            rw (try_lock_batch, none_left)
              (elim sorted [
                | inl taken ↦ taken
                | inr there ↦ absurd (not-nil (subst (λ l. Memᴰ mq l) none_left there))
              ])
        | inr (q, rest, left) ↦
            let entries = (attempt_all max_live now (group_or_new t' group) (q ∷ rest) client).1 in
            let taken : IsTaken client now (lookup mq entries) = elim sorted [
              | inl taken ↦ attempt_all-keeps (group_or_new t' group) mq (q ∷ rest) (rw had taken)
              | inr there ↦
                  attempt_all-IsTaken (group_or_new t' group) mq (q ∷ rest)
                    (subst (λ l. Memᴰ mq l) left there)
                    (rw had (sort_held-IsFree group mq t mqs free))
            ] in
            rw (try_lock_batch, left, entry_of-insert t' group mq entries) taken
      ]
