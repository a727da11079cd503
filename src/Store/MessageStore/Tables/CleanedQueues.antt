-- ===== src/Store/MessageStore/Tables/CleanedQueues.antt =====
-- The queues of one topic after the cleaning of the expired ones (CleanExpiredConsumerQueue of
-- stgstorelog/default_message_store.go).
use ttstringgolangiot.Base.{
  ◌≡◌, sym, ap, ◌∙◌, ◌⊎◌, inl, inr, true, false, Option, none, some, [], ◌∷◌, arith, lookup,
  Bool-cases, Option-cases,
}
use ttstringgolangiot.Base.Int.{ℤ, int_eq, same_ℤ}
use ttstringgolangiot.Store.Properties.{bytes_eq}
use ttstringgolangiot.Store.Address.{GoLibrary}
use ttstringgolangiot.Store.CommitLog.{CommitLog}
use ttstringgolangiot.Store.LogReads.{remove_queue_from_topic_queue_table}
use ttstringgolangiot.Store.ConsumeQueue.{ConsumeQueue}
use ttstringgolangiot.Store.MessageStore.{ConsumeQueueTable}
use ttstringgolangiot.Store.MessageStore.Pull.Limits.{IfSome}
use ttstringgolangiot.Store.MessageStore.Tables.{is_expired, clean_queues}

-- What cleaning does to one table of queues.
pub record IsCleaned (min_offset : ℤ) (before after : ConsumeQueueTable) : Type 0 where
  pub kept :
      (id : ℤ) (q : ConsumeQueue)
      → lookup id before ≡ some q
      → is_expired min_offset q ≡ some false
      → lookup id after ≡ some q
  pub clean :
      (id : ℤ) (q : ConsumeQueue) → lookup id after ≡ some q → is_expired min_offset q ≡ some false

abbrev or_queue : ConsumeQueue → Option ConsumeQueue → ConsumeQueue
or_queue d none = d
or_queue d (some q) = q

-- The first entry of a table is the one that is found, or it is not.
head_cases :
    (j id : ℤ) (p q : ConsumeQueue) (queues : ConsumeQueueTable)
    → lookup id ((j, p) ∷ queues) ≡ some q
    → ((same_ℤ j id ≡ true) × (p ≡ q)) ⊎ ((same_ℤ j id ≡ false) × (lookup id queues ≡ some q))
head_cases j id p q queues h = elim (Bool-cases (same_ℤ j id)) [
  | inl m ↦ inl (m, ap (or_queue p) (rw m at h))
  | inr m ↦ inr (m, rw m at h)
]

IsCleaned-drop :
    (min_offset : ℤ) (j : ℤ) (p : ConsumeQueue) (before after : ConsumeQueueTable)
    → is_expired min_offset p ≡ some true
    → IsCleaned min_offset before after
    → IsCleaned min_offset ((j, p) ∷ before) after
IsCleaned-drop min_offset j p before after e cleaned = record {
  kept = λ id q h k. elim (head_cases j id p q before h) [
    | inl (m, same) ↦
        let both : some true ≡ some false = sym e ∙ (ap (is_expired min_offset) same ∙ k) in
        ground arith
    | inr (m, h') ↦ cleaned.kept id q h' k
  ];
  clean = cleaned.clean;
}

IsCleaned-keep :
    (min_offset : ℤ) (j : ℤ) (p : ConsumeQueue) (before after : ConsumeQueueTable)
    → is_expired min_offset p ≡ some false
    → IsCleaned min_offset before after
    → IsCleaned min_offset ((j, p) ∷ before) ((j, p) ∷ after)
IsCleaned-keep min_offset j p before after e cleaned = record {
  kept = λ id q h k. elim (head_cases j id p q before h) [
    | inl (m, same) ↦ rw m (ap some same)
    | inr (m, h') ↦ rw m (cleaned.kept id q h' k)
  ];
  clean = λ id q h. elim (head_cases j id p q after h) [
    | inl (m, same) ↦ sym (ap (is_expired min_offset) same) ∙ e
    | inr (m, h') ↦ cleaned.clean id q h'
  ];
}

module _ (go : GoLibrary) (min_offset : ℤ) where
  pub clean_queues-IsCleaned :
      (queues : ConsumeQueueTable) (log : CommitLog)
      → IfSome
          (λ (after, log'). IsCleaned min_offset queues after)
          (clean_queues go min_offset queues log)
  unfolding clean_queues IfSome
  clean_queues-IsCleaned [] log = record { kept = λ id q h k. h; clean = λ id q h. ground arith }
  clean_queues-IsCleaned ((j, p) ∷ queues) log = elim (Option-cases (is_expired min_offset p)) [
    | inl e ↦ rw (clean_queues, e) tt
    | inr (true, e) ↦
        let log' = remove_queue_from_topic_queue_table go p.topic p.queue_id log in
        let rest = clean_queues-IsCleaned queues log' in
        elim (Option-cases (clean_queues go min_offset queues log')) [
          | inl e' ↦ rw (clean_queues, e, e') tt
          | inr ((after, log''), e') ↦
              rw (clean_queues, e, e')
                (IsCleaned-drop min_offset j p queues after e (rw e' at rest))
        ]
    | inr (false, e) ↦
        let rest = clean_queues-IsCleaned queues log in
        elim (Option-cases (clean_queues go min_offset queues log)) [
          | inl e' ↦ rw (clean_queues, e, e') tt
          | inr ((after, log''), e') ↦
              rw (clean_queues, e, e')
                (IsCleaned-keep min_offset j p queues after e (rw e' at rest))
        ]
  ]
