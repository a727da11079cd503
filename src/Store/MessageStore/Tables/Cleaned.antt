-- ===== src/Store/MessageStore/Tables/Cleaned.antt =====
-- What is left after expired queues were cleaned.
use ttstringgolangiot.Base.{
  ℕ, ◌≡◌, ◌≢◌, refl, sym, ap, subst, ◌∙◌, ◌⊎◌, ◌↔◌, inl, inr, Bool, not, ◌&&◌, true, false, none,
  some, List, [], ◌∷◌, arith, Dict, lookup, Bool-cases, Option-cases,
}
use ttstringgolangiot.Base.Int.{ℤ, negsuc, ltb_ℤ, int_eq, same_ℤ, same_eq}
use ttstringgolangiot.Store.Properties.{bytes_eq, same_bytes, same_bytes_eq}
use ttstringgolangiot.Store.Address.{GoLibrary}
use ttstringgolangiot.Store.CommitLog.{CommitLog}
use ttstringgolangiot.Store.LogReads.{log_min_offset}
use ttstringgolangiot.Store.ConsumeQueue.{ConsumeQueue}
use ttstringgolangiot.Store.ConsumeQueue.Recovery.{get_last_offset}
use ttstringgolangiot.Store.MessageStore.{ConsumeQueueTable, DefaultMessageStore, queues_of}
use ttstringgolangiot.Store.MessageStore.Pull.Limits.{IfSome}
use ttstringgolangiot.Store.MessageStore.Tables.{
  schedule_topic, is_expired, clean_queues, clean_topics, keep_topic, clean_expired_consumer_queue,
}
use ttstringgolangiot.Store.MessageStore.Tables.CleanedQueues.{clean_queues-IsCleaned, IsCleaned}

queues_of-here :
    (topic t : List ℕ) (queues : ConsumeQueueTable) (topics : Dict (List ℕ) ConsumeQueueTable)
    → same_bytes topic t ≡ true
    → queues_of t ((topic, queues) ∷ topics) ≡ queues
unfolding queues_of
queues_of-here topic t queues topics m = rw (queues_of, lookup, m) refl

queues_of-there :
    (topic t : List ℕ) (queues : ConsumeQueueTable) (topics : Dict (List ℕ) ConsumeQueueTable)
    → same_bytes topic t ≡ false
    → queues_of t ((topic, queues) ∷ topics) ≡ queues_of t topics
unfolding queues_of
queues_of-there topic t queues topics m = rw (queues_of, lookup, m) refl

-- What cleaning does to the tables of all topics.
record AreCleaned (min_offset : ℤ) (before after : Dict (List ℕ) ConsumeQueueTable) : Type 0 where
  kept :
      (t : List ℕ) (id : ℤ) (q : ConsumeQueue)
      → lookup id (queues_of t before) ≡ some q
      → is_expired min_offset q ≡ some false
      → lookup id (queues_of t after) ≡ some q
  clean :
      (t : List ℕ) (id : ℤ) (q : ConsumeQueue)
      → t ≢ schedule_topic
      → lookup id (queues_of t after) ≡ some q
      → is_expired min_offset q ≡ some false
  scheduled : queues_of schedule_topic after ≡ queues_of schedule_topic before

AreCleaned-schedule :
    (min_offset : ℤ) (topic : List ℕ) (queues : ConsumeQueueTable)
    (before after : Dict (List ℕ) ConsumeQueueTable)
    → same_bytes topic schedule_topic ≡ true
    → AreCleaned min_offset before after
    → AreCleaned min_offset ((topic, queues) ∷ before) ((topic, queues) ∷ after)
AreCleaned-schedule min_offset topic queues before after e cleaned = record {
  kept = λ t id q h k. elim (Bool-cases (same_bytes topic t)) [
    | inl m ↦
        rw (queues_of-here topic t queues after m)
          (rw (queues_of-here topic t queues before m) at h)
    | inr m ↦
        rw (queues_of-there topic t queues after m)
          (cleaned.kept t id q (rw (queues_of-there topic t queues before m) at h) k)
  ];
  clean = λ t id q other h. elim (Bool-cases (same_bytes topic t)) [
    | inl m ↦ absurd (other (sym (same_bytes_eq topic t m) ∙ same_bytes_eq topic schedule_topic e))
    | inr m ↦ cleaned.clean t id q other (rw (queues_of-there topic t queues after m) at h)
  ];
  scheduled =
      queues_of-here topic schedule_topic queues after e
      ∙ sym (queues_of-here topic schedule_topic queues before e);
}

AreCleaned-topic :
    (min_offset : ℤ) (topic : List ℕ) (queues queues' : ConsumeQueueTable)
    (before after : Dict (List ℕ) ConsumeQueueTable)
    → same_bytes topic schedule_topic ≡ false
    → IsCleaned min_offset queues queues'
    → AreCleaned min_offset before after
    → AreCleaned min_offset ((topic, queues) ∷ before) (keep_topic topic queues' after)
AreCleaned-topic min_offset topic queues [] before after e here cleaned = record {
  kept = λ t id q h k. elim (Bool-cases (same_bytes topic t)) [
    | inl m ↦
        let nothing : none ≡ some q =
          here.kept id q (rw (queues_of-here topic t queues before m) at h) k in
        ground arith
    | inr m ↦ cleaned.kept t id q (rw (queues_of-there topic t queues before m) at h) k
  ];
  clean = cleaned.clean;
  scheduled = cleaned.scheduled ∙ sym (queues_of-there topic schedule_topic queues before e);
}
AreCleaned-topic min_offset topic queues (x ∷ queues') before after e here cleaned = record {
  kept = λ t id q h k. elim (Bool-cases (same_bytes topic t)) [
    | inl m ↦
        rw (queues_of-here topic t (x ∷ queues') after m)
          (here.kept id q (rw (queues_of-here topic t queues before m) at h) k)
    | inr m ↦
        rw (queues_of-there topic t (x ∷ queues') after m)
          (cleaned.kept t id q (rw (queues_of-there topic t queues before m) at h) k)
  ];
  clean = λ t id q other h. elim (Bool-cases (same_bytes topic t)) [
    | inl m ↦ here.clean id q (rw (queues_of-here topic t (x ∷ queues') after m) at h)
    | inr m ↦ cleaned.clean t id q other (rw (queues_of-there topic t (x ∷ queues') after m) at h)
  ];
  scheduled =
      queues_of-there topic schedule_topic (x ∷ queues') after e
      ∙ cleaned.scheduled
      ∙ sym (queues_of-there topic schedule_topic queues before e);
}

module _ (go : GoLibrary) (min_offset : ℤ) where
  clean_topics-AreCleaned :
      (topics : Dict (List ℕ) ConsumeQueueTable) (log : CommitLog)
      → IfSome
          (λ (after, log'). AreCleaned min_offset topics after)
          (clean_topics go min_offset topics log)
  unfolding clean_topics queues_of IfSome
  clean_topics-AreCleaned [] log = record {
    kept = λ t id q h k. h;
    clean = λ t id q other h. ground arith;
    scheduled = refl;
  }
  clean_topics-AreCleaned ((topic, queues) ∷ topics) log =
      elim (Bool-cases (same_bytes topic schedule_topic)) [
        | inl m ↦
            let rest = clean_topics-AreCleaned topics log in
            elim (Option-cases (clean_topics go min_offset topics log)) [
              | inl e ↦ rw (clean_topics, m, e) tt
              | inr ((after, log'), e) ↦
                  rw (clean_topics, m, e)
                    (AreCleaned-schedule min_offset topic queues topics after m (rw e at rest))
            ]
        | inr m ↦
            let here = clean_queues-IsCleaned go min_offset queues log in
            elim (Option-cases (clean_queues go min_offset queues log)) [
              | inl e ↦ rw (clean_topics, m, e) tt
              | inr ((queues', log'), e) ↦
                  let rest = clean_topics-AreCleaned topics log' in
                  elim (Option-cases (clean_topics go min_offset topics log')) [
                    | inl e' ↦ rw (clean_topics, m, e, e') tt
                    | inr ((after, log''), e') ↦
                        rw (clean_topics, m, e, e')
                          (AreCleaned-topic min_offset topic queues queues' topics after m
                            (rw e at here) (rw e' at rest))
                  ]
            ]
      ]

cleaned_tables :
    (go : GoLibrary) (s s' : DefaultMessageStore)
    → clean_expired_consumer_queue go s ≡ some s'
    → AreCleaned (log_min_offset s.commit_log) s.consume_topic_table s'.consume_topic_table
unfolding clean_expired_consumer_queue IfSome
cleaned_tables go s s' e =
    let min_offset = log_min_offset s.commit_log in
    let all = clean_topics-AreCleaned go min_offset s.consume_topic_table s.commit_log in
    elim (Option-cases (clean_topics go min_offset s.consume_topic_table s.commit_log)) [
      | inl e' ↦ let no' = rw (clean_expired_consumer_queue, e') at e in ground arith
      | inr ((after, log'), e') ↦
          let ended = rw (clean_expired_consumer_queue, e') at e in
          let tables : after ≡ s'.consume_topic_table =
            ap (λ o. elim o [ none ↦ after | some r ↦ r.consume_topic_table ]) ended in
          subst (AreCleaned min_offset s.consume_topic_table) tables (rw e' at all)
    ]

not_expired : (a b : Bool) → some (not a && b) ≡ some false → a ≡ false → b ≡ false
not_expired true b h e = ground arith
not_expired false true h e = ground arith
not_expired false false h e = refl

is_late : (a b : Bool) → b ≡ false → some (not a && b) ≡ some false
is_late true b e = refl
is_late false b e = ap some e

live_of_queue :
    (min_offset last : ℤ) (q : ConsumeQueue)
    → get_last_offset q ≡ some last
    → is_expired min_offset q ≡ some (not (same_ℤ last (negsuc 0)) && ltb_ℤ last min_offset)
unfolding is_expired
live_of_queue min_offset last q e = rw (is_expired, e) refl

-- A queue whose last message ends at some offset of the commit log is there after the cleaning of
-- the expired queues, if this ends, exactly when it is of the topic of the schedule, it has no
-- unit yet, or the offset is not before the least one of the log.
pub clean_expired_consumer_queue_lem :
    (go : GoLibrary) (s s' : DefaultMessageStore) (topic : List ℕ) (id last : ℤ) (q : ConsumeQueue)
    → clean_expired_consumer_queue go s ≡ some s'
    → lookup id (queues_of topic s.consume_topic_table) ≡ some q
    → get_last_offset q ≡ some last
    → (lookup id (queues_of topic s'.consume_topic_table) ≡ some q) ↔ (
        (topic ≡ schedule_topic)
        ⊎ ((last ≡ negsuc 0) ⊎ (ltb_ℤ last (log_min_offset s.commit_log) ≡ false)))
clean_expired_consumer_queue_lem go s s' topic id last q e found at_last = (there, back)
  where
    min_offset : ℤ
    min_offset = log_min_offset s.commit_log

    tables : AreCleaned min_offset s.consume_topic_table s'.consume_topic_table
    tables = cleaned_tables go s s' e

    answer : is_expired min_offset q ≡ some (not (same_ℤ last (negsuc 0)) && ltb_ℤ last min_offset)
    answer = live_of_queue min_offset last q at_last

    there :
        lookup id (queues_of topic s'.consume_topic_table) ≡ some q
        → (topic ≡ schedule_topic) ⊎ ((last ≡ negsuc 0) ⊎ (ltb_ℤ last min_offset ≡ false))
    there h = elim (Bool-cases (same_bytes topic schedule_topic)) [
      | inl m ↦ inl (same_bytes_eq topic schedule_topic m)
      | inr m ↦
          let live =
            tables.clean topic id q (λ t. cc (sym m ∙ (bytes_eq.beq_iff topic schedule_topic).1 t))
              h in
          elim (Bool-cases (same_ℤ last (negsuc 0))) [
            | inl none_yet ↦ inr (inl (same_eq last (negsuc 0) none_yet))
            | inr some_unit ↦ inr (
                inr (
                  not_expired (same_ℤ last (negsuc 0)) (ltb_ℤ last min_offset) (sym answer ∙ live)
                    some_unit))
          ]
    ]

    back :
        (topic ≡ schedule_topic) ⊎ ((last ≡ negsuc 0) ⊎ (ltb_ℤ last min_offset ≡ false))
        → lookup id (queues_of topic s'.consume_topic_table) ≡ some q
    back (inl t) =
        ap (λ x. lookup id (queues_of x s'.consume_topic_table)) t
        ∙ ap (lookup id) tables.scheduled
        ∙ ap (λ x. lookup id (queues_of x s.consume_topic_table)) (sym t)
        ∙ found
    back (inr (inl none_yet)) =
        tables.kept topic id q found
          (answer ∙ ap (λ x. some (not (same_ℤ x (negsuc 0)) && ltb_ℤ x min_offset)) none_yet)
    back (inr (inr late)) =
        tables.kept topic id q found
          (answer ∙ is_late (same_ℤ last (negsuc 0)) (ltb_ℤ last min_offset) late)
