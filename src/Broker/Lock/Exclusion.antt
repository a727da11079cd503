-- ===== src/Broker/Lock/Exclusion.antt =====
-- What one call does to the lock of a queue: renewal, refusal while the lock is live, and take-over
-- after it has expired.
use ttstringgolangiot.Base.{
  ℕ, ◌+◌, ◌≤◌, ◌≡◌, ◌≢◌, refl, ◌∙◌, ◌≟◌, ≟_eq, Bool, true, false, ◌||◌, if◌then◌else◌, Option, none,
  some, List, [], ◌∷◌, String, arith, string_eq, nat_eq, lookup, insert, lookup-insert,
  lookup-insert_self, lookup-insert_ne, Option-cases, Bool-cases, ◌⊎◌, inl, inr,
}
use native.Mathlib.Decide.{ℕ_discrete}
use text.Mathlib.TextEquality.{eq_iff}
use ttstringgolangiot.Base.Text.{equal_fold, equal_fold_refl, equal_fold_sym, equal_fold_trans}
use ttstringgolangiot.Broker.Lock.{
  LockEntry, LockEntryTable, MqLockTable, MqPointer, is_expired, entry_is_locked, is_locked,
  attempt, locked, is_success, group_or_new, try_lock, remove_entry, unlock_all, unlock_batch,
}

-- The entry of a queue in the table of a group.
abbrev pub entry_of : MqLockTable → String → MqPointer → Option LockEntry
entry_of t group mq = elim (lookup group t) [ none ↦ none | some entries ↦ lookup mq entries ]

pub entry_of-insert :
    (t : MqLockTable) (group : String) (mq : MqPointer) (entries : LockEntryTable)
    → entry_of (insert group entries t) group mq ≡ lookup mq entries
entry_of-insert t group mq entries = rw (lookup-insert_self group entries t, entry_of)

pub lookup-group_or_new :
    (t : MqLockTable) (group : String) (mq : MqPointer)
    → lookup mq (group_or_new t group) ≡ entry_of t group mq
lookup-group_or_new t group mq = ground (arith, Option-cases (lookup group t))

pub entry_of-insert_keep :
    (t : MqLockTable) (group g : String) (other : MqPointer) (entries : LockEntryTable)
    → (group ≢ g) ⊎ (lookup other entries ≡ entry_of t group other)
    → entry_of (insert group entries t) g other ≡ entry_of t g other
entry_of-insert_keep t group g other entries h =
    ground (arith, eq_iff group g, lookup-insert group g entries t)

module _ (max_live : ℕ) where
  -- What a call of `TryLock` does, as one decision on the queue's entry.
  abbrev pub granted : ℕ → Option LockEntry → String → Bool
  granted now none client = true
  granted now (some e) client = entry_is_locked max_live now e client || is_expired max_live now e

  unfoldable pub entry_after : ℕ → Option LockEntry → String → Option LockEntry
  entry_after now none client = some (record { client_id = client; last_update_timestamp = now })
  entry_after now (some e) client =
      if entry_is_locked max_live now e client
      then some (record e { last_update_timestamp = now })
      else if is_expired max_live now e
      then some (record { client_id = client; last_update_timestamp = now })
      else some e

  fresh_is_locked :
      (now : ℕ) (client : String)
      → entry_is_locked max_live now
          (record { client_id = client; last_update_timestamp = now })
          client
        ≡ true
  unfolding entry_is_locked is_expired
  fresh_is_locked now client = ground (arith, equal_fold_refl client)

  -- The part of `TryLock` after the lock was not held, on the table of the group.
  pub attempt_lem :
      (now : ℕ) (entries : LockEntryTable) (mq : MqPointer) (client : String)
      → let (a, entries') = attempt max_live now entries mq client in
        (is_success a ≡ granted now (lookup mq entries) client)
        × (lookup mq entries' ≡ entry_after now (lookup mq entries) client)
  unfolding attempt entry_after
  attempt_lem now entries mq client = elim (Option-cases (lookup mq entries)) [
    | inl missing ↦ grind (arith, missing, fresh_is_locked now client, lookup-insert_self)
    | inr (e, found) ↦ grind (arith, found, lookup-insert_self)
  ]

  pub attempt_fresh :
      (now : ℕ) (entries : LockEntryTable) (mq : MqPointer) (client : String)
      → lookup mq entries ≡ none
      → let mine : LockEntry = record { client_id = client; last_update_timestamp = now } in
        let (a, entries') = attempt max_live now entries mq client in
        (a ≡ locked) × (lookup mq entries' ≡ some mine)
  unfolding attempt
  attempt_fresh now entries mq client free =
      grind (arith, free, fresh_is_locked now client, lookup-insert_self)

  pub is_locked_free :
      (now : ℕ) (t : MqLockTable) (group : String) (mq : MqPointer) (client : String)
      → entry_of t group mq ≡ none
      → is_locked max_live now t group mq client ≡ (false, t)
  unfolding is_locked
  is_locked_free now t group mq client free = elim (Option-cases (lookup group t)) [
    | inl no_group ↦ rw (no_group, is_locked)
    | inr (entries, e) ↦ ground (arith, e)
  ]

  pub attempt_others :
      (now : ℕ) (entries : LockEntryTable) (mq other : MqPointer) (client : String)
      → mq ≢ other
      → lookup other (attempt max_live now entries mq client).1 ≡ lookup other entries
  unfolding attempt
  attempt_others now entries mq other client h = grind (arith, lookup-insert_ne)

  pub is_locked_lem :
      (now : ℕ) (t : MqLockTable) (group : String) (mq : MqPointer) (client : String)
      → ((is_locked max_live now t group mq client).0 ≡ true)
          × (granted now (entry_of t group mq) client ≡ true)
          × (entry_of (is_locked max_live now t group mq client).1 group mq
              ≡ entry_after now (entry_of t group mq) client)
        ⊎ (is_locked max_live now t group mq client ≡ (false, t))
  unfolding is_locked entry_after
  is_locked_lem now t group mq client = elim (Option-cases (lookup group t)) [
    | inl no_group ↦ inr (rw (no_group, is_locked))
    | inr (entries, e) ↦ elim (Option-cases (lookup mq entries)) [
      | inl no_entry ↦ inr (ground (arith, e, no_entry))
      | inr (l, found) ↦ elim (Bool-cases (entry_is_locked max_live now l client)) [
        | inl held ↦ inl (grind (arith, e, found, held, lookup-insert_self))
        | inr free ↦ inr (ground (arith, e, found, free))
      ]
    ]
  ]

  -- `TryLock` succeeds exactly when the queue has no entry, or one that has expired or is the
  -- client's, and the entry afterwards is as `entry_after` says.
  pub try_lock_lem :
      (now : ℕ) (t : MqLockTable) (group : String) (mq : MqPointer) (client : String)
      → let (done, t') = try_lock max_live now t group mq client in
        (done ≡ granted now (entry_of t group mq) client)
        × (entry_of t' group mq ≡ entry_after now (entry_of t group mq) client)
  unfolding try_lock
  try_lock_lem now t group mq client = elim (is_locked_lem now t group mq client) [
    | inl (held, g, e) ↦ ground (arith, held, g, e)
    | inr free ↦ grind (
      arith,
      free,
      attempt_lem now (group_or_new t group) mq client,
      lookup-group_or_new t group mq,
      entry_of-insert,
    )
  ]

  -- A call for one queue leaves the entries of all other queues alone.
  pub is_locked_others :
      (now : ℕ) (t : MqLockTable) (group g : String) (mq other : MqPointer) (client : String)
      → (group ≢ g) ⊎ (mq ≢ other)
      → entry_of (is_locked max_live now t group mq client).1 g other ≡ entry_of t g other
  unfolding is_locked
  is_locked_others now t group g mq other client h = elim (Option-cases (lookup group t)) [
    | inl no_group ↦ ground (arith, no_group)
    | inr (entries, e) ↦ elim (Option-cases (lookup mq entries)) [
      | inl no_entry ↦ ground (arith, e, no_entry)
      | inr (l, found) ↦
          let renewed = insert mq (record l { last_update_timestamp = now }) entries in
          ground (
            arith,
            e,
            found,
            entry_of-insert_keep t group g other renewed,
            lookup-insert_ne mq other (record l { last_update_timestamp = now }) entries,
          )
    ]
  ]

  -- `TryLock` for one queue of a group leaves the entry of every other queue, and of the queues of
  -- every other group, as it was.
  pub try_lock_others :
      (now : ℕ) (t : MqLockTable) (group g : String) (mq other : MqPointer) (client : String)
      → (group ≢ g) ⊎ (mq ≢ other)
      → entry_of (try_lock max_live now t group mq client).1 g other ≡ entry_of t g other
  unfolding try_lock
  try_lock_others now t group g mq other client h =
      let t' = (is_locked max_live now t group mq client).1 in
      let entries' = (attempt max_live now (group_or_new t' group) mq client).1 in
      ground (
        arith,
        is_locked_others now t group g mq other client h,
        entry_of-insert_keep t' group g other entries',
        attempt_others now (group_or_new t' group) mq other client,
        lookup-group_or_new t' group other,
      )

  pub rival_refused :
      (now start : ℕ) (holder client : String) (e : LockEntry)
      → equal_fold e.client_id holder ≡ true
      → e.last_update_timestamp ≡ start
      → equal_fold holder client ≡ false
      → now ≤ start + max_live
      → (granted now (some e) client ≡ false) × (entry_after now (some e) client ≡ some e)
  unfolding entry_after entry_is_locked is_expired
  rival_refused now start holder client e h s r n =
      ground (arith, equal_fold_sym e.client_id holder, equal_fold_trans holder e.client_id client)

  module _ (t : MqLockTable) (group : String) (mq : MqPointer) (holder : String) (e : LockEntry)
      (held : entry_of t group mq ≡ some e) (h : equal_fold e.client_id holder ≡ true) (now : ℕ)
      (g : String) (q : MqPointer) (client : String) (rival : equal_fold holder client ≡ false)
      (early : now ≤ e.last_update_timestamp + max_live) where
    pub rival_answer : g ≡ group → q ≡ mq → (try_lock max_live now t g q client).0 ≡ false
    rival_answer eg eq = ground (
      arith,
      try_lock_lem now t g q client,
      rival_refused now e.last_update_timestamp holder client e h refl rival early,
    )

    pub rival_keeps : entry_of (try_lock max_live now t g q client).1 group mq ≡ some e
    rival_keeps = elim (Bool-cases (g ≟ group)) [
      | inl same ↦ elim (ℕ_discrete q mq) [
        | yes eq ↦
            rw (← ≟_eq g group same, ← eq)
              (ground (
                arith,
                ≟_eq g group same,
                try_lock_lem now t g q client,
                rival_refused now e.last_update_timestamp holder client e h refl rival early,
              ))
        | no ne ↦ try_lock_others now t g group q mq client (inr ne) ∙ held
      ]
      | inr other ↦
          try_lock_others now t g group q mq client (inl (λ eq. ground (arith, eq_iff g group)))
          ∙ held
    ]

  pub granted_entry :
      (now : ℕ) (o : Option LockEntry) (client : String)
      → granted now o client ≡ true
      → (e : LockEntry) × (entry_after now o client ≡ some e)
        × (equal_fold e.client_id client ≡ true)
        × (e.last_update_timestamp ≡ now)
  unfolding entry_after entry_is_locked
  granted_entry now none client g = (
    record { client_id = client; last_update_timestamp = now },
    refl,
    equal_fold_refl client,
    refl,
  )
  granted_entry now (some e) client g = elim (Bool-cases (entry_is_locked max_live now e client)) [
    | inl mine ↦ (record e { last_update_timestamp = now }, ground arith, ground arith, refl)
    | inr lost ↦ (
      record { client_id = client; last_update_timestamp = now },
      ground arith,
      equal_fold_refl client,
      refl,
    )
  ]

remove_entry_absent :
    (mq : MqPointer) (entries : LockEntryTable) (e : LockEntry)
    → lookup mq entries ≡ some e
    → remove_entry mq entries ≡ entries
unfolding remove_entry
remove_entry_absent mq entries e h = ground (arith, h)

unlock_all_same :
    (entries : LockEntryTable) (mqs : List MqPointer) (client : String)
    → unlock_all entries mqs client ≡ entries
unfolding unlock_all
unlock_all_same entries [] client = refl
unlock_all_same entries (mq ∷ mqs) client = elim (Option-cases (lookup mq entries)) [
  | inl none_there ↦ ground (arith, none_there, unlock_all_same entries mqs client)
  | inr (e, found) ↦
      ground
        (arith, found, remove_entry_absent mq entries e found, unlock_all_same entries mqs client)
]

-- `UnlockBatch` releases nothing: the entry of every queue, also of those that it is given by the
-- client that holds them, is what it was before the call.
pub unlock_batch-keeps :
    (t : MqLockTable) (group g : String) (mqs : List MqPointer) (mq : MqPointer) (client : String)
    → entry_of (unlock_batch t group mqs client) g mq ≡ entry_of t g mq
unfolding unlock_batch
unlock_batch-keeps t group g mqs mq client = elim (Option-cases (lookup group t)) [
  | inl no_group ↦ ground (arith, no_group)
  | inr (entries, e) ↦
      ground
        (arith, e, unlock_all_same entries mqs client, entry_of-insert_keep t group g mq entries)
]
