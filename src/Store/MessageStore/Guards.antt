-- ===== src/Store/MessageStore/Guards.antt =====
-- Which messages PutMessage of the store hands to the commit log.
use ttstringgolangiot.Base.{
  ℕ, ◌≡◌, refl, ◌⊎◌, ◌≤◌, inl, inr, true, false, List, arith, ltb, length, Bool-cases,
}
use ttstringgolangiot.Common.Flags.{is_writeable}
use ttstringgolangiot.Store.Append.{MessageExtBrokerInner}
use ttstringgolangiot.Store.CommitLog.{
  CommitLog, Put, returned, blocked, panicked, PutContext, put_message as log_put_message,
}
use ttstringgolangiot.Store.MessageStore.{
  MessageStoreConfig, DefaultMessageStore, StorePut, answered, waits, crashed, after_put,
  put_message,
}

-- A store that takes messages, and a message that it takes.
pub record Takes (config : MessageStoreConfig) (msg : MessageExtBrokerInner)
    (s : DefaultMessageStore) : Type 0 where
  pub is_running : s.shutdown_flag ≡ false
  pub is_master : config.is_slave ≡ false
  pub can_write : is_writeable s.running_flags ≡ true
  pub topic_fits : length msg.topic ≤ 127
  pub properties_fit : length msg.properties_string ≤ 32767

abbrev pub log_of : StorePut → CommitLog → CommitLog
log_of (answered r s) log = s.commit_log
log_of waits log = log
log_of crashed log = log

abbrev pub put_of : StorePut → Put
put_of (answered r s) = returned r s.commit_log
put_of waits = blocked
put_of crashed = panicked

put_of-after_put :
    (topic : List ℕ) (p : Put) (s : DefaultMessageStore) → put_of (after_put topic p s) ≡ p
unfolding after_put
put_of-after_put topic (returned r log) s = refl
put_of-after_put topic blocked s = refl
put_of-after_put topic panicked s = refl

-- PutMessage of the store leaves the commit log as it is, or the store runs as a master that can
-- be written, the topic has at most 127 bytes and the properties at most 32767, and the answer and
-- the log are those of putMessage of the commit log.
pub put_message-Takes :
    (ctx : PutContext) (config : MessageStoreConfig) (now locked_at : ℕ)
    (msg : MessageExtBrokerInner) (s : DefaultMessageStore)
    → (log_of (put_message ctx config now locked_at msg s) s.commit_log ≡ s.commit_log)
      ⊎ (Takes config msg s
          × (put_of (put_message ctx config now locked_at msg s)
              ≡ log_put_message ctx now locked_at msg s.commit_log))
unfolding put_message
put_message-Takes ctx config now locked_at msg s = elim (Bool-cases s.shutdown_flag) [
  | inl e ↦ inl (rw (put_message, e) refl)
  | inr up ↦ elim (Bool-cases config.is_slave) [
    | inl e ↦ inl (rw (put_message, up, e) refl)
    | inr master ↦ elim (Bool-cases (is_writeable s.running_flags)) [
      | inr e ↦ inl (rw (put_message, e, up, master) refl)
      | inl writeable ↦ elim (Bool-cases (ltb 127 (length msg.topic))) [
        | inl e ↦ inl (rw (put_message, e, writeable, up, master) refl)
        | inr topic ↦ elim (Bool-cases (ltb 32767 (length msg.properties_string))) [
          | inl e ↦ inl (rw (put_message, e, topic, writeable, up, master) refl)
          | inr properties ↦ inr (
            record {
              is_running = up;
              is_master = master;
              can_write = writeable;
              topic_fits = ground arith;
              properties_fit = ground arith;
            },
            rw (put_message, topic, properties, writeable, up, master)
                (put_of-after_put msg.topic (log_put_message ctx now locked_at msg s.commit_log) _),
          )
        ]
      ]
    ]
  ]
]
