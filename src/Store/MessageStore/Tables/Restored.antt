-- ===== src/Store/MessageStore/Tables/Restored.antt =====
-- The offsets of queues after the table of the commit log was restored (recoverTopicQueueTable).
use mathlib.Core.List.{Memᴰ}
use mathlib.Core.List.Memᴰ.{head, tail}
use ttstringgolangiot.Base.{
  ℕ, ◌≡◌, refl, sym, ap, ap₂, subst, ◌∙◌, inl, inr, none, some, List, [], ◌∷◌, ◌++◌, arith, Dict,
  lookup, insert, lookup-insert, lookup-insert_self, Bool-cases, Option-cases,
}
use ttstringgolangiot.Store.Properties.{bytes_eq, same_bytes, same_bytes_eq}
use ttstringgolangiot.Store.Address.{GoLibrary}
use ttstringgolangiot.Store.Append.{MessageExtBrokerInner, query_offset_of, queue_key, or_zero}
use ttstringgolangiot.Store.LogReads.{log_min_offset}
use ttstringgolangiot.Store.ConsumeQueue.{ConsumeQueue, get_max_offset_in_queue}
use ttstringgolangiot.Store.ConsumeQueue.Recovery.{correct_min_offset}
use ttstringgolangiot.Store.MessageStore.{ConsumeQueueTable, DefaultMessageStore}
use ttstringgolangiot.Store.MessageStore.Tables.{
  logic_key, offsets_of_queues, offsets_of_topics, recover_topic_queue_table, change_store,
}

-- The queues of a table, and of all tables.
unfoldable pub queues_in : ConsumeQueueTable → List ConsumeQueue
queues_in [] = []
queues_in ((id, q) ∷ queues) = q ∷ queues_in queues

unfoldable pub all_queues : Dict (List ℕ) ConsumeQueueTable → List ConsumeQueue
all_queues [] = []
all_queues ((topic, queues) ∷ topics) = queues_in queues ++ all_queues topics

module _ (go : GoLibrary) where
  offsets_of : List ConsumeQueue → Dict (List ℕ) ℕ → Dict (List ℕ) ℕ
  offsets_of [] table = table
  offsets_of (q ∷ qs) table =
      offsets_of qs (insert (logic_key go q) (get_max_offset_in_queue q) table)

  offsets_of_queues-eq :
      (queues : ConsumeQueueTable) (rest : List ConsumeQueue) (table : Dict (List ℕ) ℕ)
      → offsets_of rest (offsets_of_queues go queues table)
        ≡ offsets_of (queues_in queues ++ rest) table
  unfolding offsets_of offsets_of_queues queues_in
  offsets_of_queues-eq [] rest table = refl
  offsets_of_queues-eq ((id, q) ∷ queues) rest table =
      offsets_of_queues-eq queues rest (insert (logic_key go q) (get_max_offset_in_queue q) table)

  offsets_of_topics-eq :
      (topics : Dict (List ℕ) ConsumeQueueTable) (table : Dict (List ℕ) ℕ)
      → offsets_of_topics go topics table ≡ offsets_of (all_queues topics) table
  unfolding offsets_of offsets_of_topics all_queues
  offsets_of_topics-eq [] table = refl
  offsets_of_topics-eq ((topic, queues) ∷ topics) table =
      offsets_of_topics-eq topics (offsets_of_queues go queues table)
      ∙ offsets_of_queues-eq queues (all_queues topics) table

  -- Queues with the key end at the same offset.
  Agree : List ℕ → ℕ → List ConsumeQueue → Type 0
  Agree k n qs = (p : ConsumeQueue) → Memᴰ p qs → logic_key go p ≡ k → get_max_offset_in_queue p ≡ n

  lookup-offsets_of_kept :
      (k : List ℕ) (n : ℕ) (qs : List ConsumeQueue) (table : Dict (List ℕ) ℕ)
      → lookup k table ≡ some n
      → Agree k n qs
      → lookup k (offsets_of qs table) ≡ some n
  unfolding offsets_of Agree
  lookup-offsets_of_kept k n [] table h all = h
  lookup-offsets_of_kept k n (q ∷ qs) table h all =
      let here : lookup k (insert (logic_key go q) (get_max_offset_in_queue q) table) ≡ some n =
        elim (Bool-cases (same_bytes (logic_key go q) k)) [
          | inl m ↦
              rw (lookup-insert (logic_key go q) k (get_max_offset_in_queue q) table, m)
                (ap some (all q (head refl) (same_bytes_eq (logic_key go q) k m)))
          | inr m ↦ rw (lookup-insert (logic_key go q) k (get_max_offset_in_queue q) table, m) h
        ] in
      lookup-offsets_of_kept k n qs (insert (logic_key go q) (get_max_offset_in_queue q) table) here
        (λ p m. all p (tail m))

  lookup-offsets_of :
      (q : ConsumeQueue) (qs : List ConsumeQueue) (table : Dict (List ℕ) ℕ)
      → Memᴰ q qs
      → Agree (logic_key go q) (get_max_offset_in_queue q) qs
      → lookup (logic_key go q) (offsets_of qs table) ≡ some (get_max_offset_in_queue q)
  unfolding offsets_of Agree
  lookup-offsets_of q [] table h all = elim h [ ]
  lookup-offsets_of q (x ∷ qs) table (head e) all =
      lookup-offsets_of_kept (logic_key go q) (get_max_offset_in_queue q) qs
        (insert (logic_key go x) (get_max_offset_in_queue x) table)
        (subst
          (λ y.
            lookup (logic_key go q) (insert (logic_key go y) (get_max_offset_in_queue y) table)
            ≡ some (get_max_offset_in_queue q))
          e (lookup-insert_self (logic_key go q) (get_max_offset_in_queue q) table))
        (λ p m. all p (tail m))
  lookup-offsets_of q (x ∷ qs) table (tail m) all =
      lookup-offsets_of q qs (insert (logic_key go x) (get_max_offset_in_queue x) table) m
        (λ p m'. all p (tail m'))

  -- When the tables were restored, a message for a queue of the store takes the offset behind the
  -- last unit of the queue, if all queues with the same key end there.
  pub query_offset_of-recover_topic_queue_table :
      (s s' : DefaultMessageStore) (q : ConsumeQueue) (msg : MessageExtBrokerInner)
      → recover_topic_queue_table go s ≡ some s'
      → Memᴰ q (all_queues s.consume_topic_table)
      → ((p : ConsumeQueue)
          → Memᴰ p (all_queues s.consume_topic_table)
          → logic_key go p ≡ logic_key go q
          → get_max_offset_in_queue p ≡ get_max_offset_in_queue q)
      → msg.topic ≡ q.topic
      → msg.queue_id ≡ q.queue_id
      → query_offset_of go msg s'.commit_log.append_state ≡ get_max_offset_in_queue q
  unfolding recover_topic_queue_table Agree
  query_offset_of-recover_topic_queue_table s s' q msg e h all topic id =
      let found = lookup-offsets_of q (all_queues s.consume_topic_table) [] h all in
      let corrected = change_store (correct_min_offset (log_min_offset s.commit_log)) s in
      elim (Option-cases corrected) [
        | inl e' ↦ let e'' = rw (recover_topic_queue_table, e') at e in ground arith
        | inr (r, e') ↦
            let ended = rw (recover_topic_queue_table, e') at e in
            let table : offsets_of (all_queues s.consume_topic_table) []
                ≡ s'.commit_log.append_state.topic_queue_table =
              sym (offsets_of_topics-eq s.consume_topic_table [])
              ∙ ap
                  (λ o. elim o [ none ↦ [] | some x ↦ x.commit_log.append_state.topic_queue_table ])
                  ended in
            let key : logic_key go q ≡ queue_key go msg =
              ap₂ (λ t i. t ++ (b'-' ∷ go.itoa i)) (sym topic) (sym id) in
            ap₂ (λ k t. or_zero (lookup k t)) (sym key) (sym table) ∙ ap or_zero found
      ]
