-- ===== src/Store/MessageStore/Recover.antt =====
-- The recovery of the store at its start (recover and recoverConsumeQueue of
-- stgstorelog/default_message_store.go): the queues, then the log, then the offsets of the queues.
use ttstringgolangiot.Base.{ℕ, Bool, true, false, Option, none, some}
use ttstringgolangiot.Base.Int.{pos}
use ttstringgolangiot.Store.MapedFile.{MapedFile}
use ttstringgolangiot.Store.Address.{GoLibrary}
use ttstringgolangiot.Store.Check.{CheckContext}
use ttstringgolangiot.Store.Recovery.{Checkpoint, recover_normally}
use ttstringgolangiot.Store.Recovery.Abnormal.{recover_abnormally}
use ttstringgolangiot.Store.ConsumeQueue.Recovery.{recover}
use ttstringgolangiot.Store.MessageStore.{DefaultMessageStore}
use ttstringgolangiot.Store.MessageStore.Queues.{with_log}
use ttstringgolangiot.Store.MessageStore.Tables.{
  change_store, truncate_store_files, recover_topic_queue_table,
}

module _ (removed : MapedFile → Bool) (now : ℕ) (ctx : CheckContext) (checkpoint : Checkpoint)
    (check_crc : Bool) where
  pub recover_consume_queue : DefaultMessageStore → Option DefaultMessageStore
  recover_consume_queue s = change_store (λ q. some (recover removed now q)) s

  -- The queues are cut after the log was cut in the second way only.
  pub recover_log : Bool → DefaultMessageStore → Option DefaultMessageStore
  recover_log true s = elim (recover_normally removed now ctx check_crc s.commit_log) [
    | none ↦ none
    | some log ↦ some (with_log log s)
  ]
  recover_log false s =
      elim (recover_abnormally removed now ctx checkpoint check_crc s.commit_log) [
        | none ↦ none
        | some (log, none) ↦ some (with_log log s)
        | some (log, some offset) ↦ truncate_store_files removed now (pos offset) (with_log log s)
      ]

  pub recover_store : GoLibrary → Bool → DefaultMessageStore → Option DefaultMessageStore
  recover_store go last_exit_ok s = elim (recover_consume_queue s) [
    | none ↦ none
    | some queues ↦ elim (recover_log last_exit_ok queues) [
      | none ↦ none
      | some logged ↦ recover_topic_queue_table go logged
    ]
  ]
