-- ===== src/Tests/TableTests.antt =====
-- The tables of a store with one queue and the files of a log.
use mathlib.Core.List.{Memᴰ}
use mathlib.Core.List.Memᴰ.{head, tail}
use ttstringgolangiot.Base.{
  ℕ, ◌⊎◌, ◌↔◌, ◌≡◌, ◌≢◌, refl, ap, true, false, Option, none, some, List, [], ◌∷◌, lookup, drop,
}
use ttstringgolangiot.Base.Int.{pos, negsuc, int_eq, ltb_ℤ, ◌+ℤ◌, ◌-ℤ◌}
use ttstringgolangiot.Store.Buffer.{read, read_int, bytes_to_int, new_mapped_byte_buffer}
use ttstringgolangiot.Store.MapedFile.{hold, is_held, select_maped_buffer}
use ttstringgolangiot.Store.ConsumeQueue.Recovery.{
  get_last_offset, last_offset_in, correct_min_offset, first_unit_from,
}
use ttstringgolangiot.Store.Append.{query_offset_of}
use ttstringgolangiot.Store.LogReads.{log_min_offset}
use ttstringgolangiot.Store.ConsumeQueue.{ConsumeQueue, get_max_offset_in_queue, read_unit}
use ttstringgolangiot.Store.Recovery.Abnormal.{
  no_fuel, abnormal_files, abnormal_fuel, abnormal_files-drop,
}
use ttstringgolangiot.Store.MessageStore.{DefaultMessageStore, queues_of}
use ttstringgolangiot.Store.MessageStore.Tables.{
  schedule_topic, is_expired, clean_topics, clean_queues, change_topics, change_queues,
  clean_expired_consumer_queue, recover_topic_queue_table, logic_key,
}
use ttstringgolangiot.Store.MessageStore.Tables.Cleaned.{clean_expired_consumer_queue_lem}
use ttstringgolangiot.Store.MessageStore.Tables.Restored.{
  all_queues, queues_in, query_offset_of-recover_topic_queue_table,
}
use ttstringgolangiot.Tests.LogTests.{go_library, short_message, check_context, open_file}
use ttstringgolangiot.Tests.StoreTests.{unit_queue, unit_store}

abbrev store_after : Option DefaultMessageStore → DefaultMessageStore
store_after none = unit_store
store_after (some s) = s

abbrev cleaned : Option DefaultMessageStore
cleaned = clean_expired_consumer_queue go_library unit_store

abbrev restored : Option DefaultMessageStore
restored = recover_topic_queue_table go_library unit_store

cleaned_fact : cleaned ≡ some (store_after cleaned)
unfolding clean_expired_consumer_queue clean_topics clean_queues is_expired get_last_offset
    last_offset_in read_unit read_int read new_mapped_byte_buffer bytes_to_int ◌+ℤ◌ ◌-ℤ◌
    log_min_offset queues_of
cleaned_fact = refl

last_of_unit_queue : get_last_offset unit_queue ≡ some (pos 40)
unfolding get_last_offset last_offset_in read_unit read_int read new_mapped_byte_buffer bytes_to_int
    ◌+ℤ◌ ◌-ℤ◌
last_of_unit_queue = refl

clean_expired_consumer_queue_lem_example :
    (lookup (pos 0) (queues_of (b'T' ∷ []) (store_after cleaned).consume_topic_table)
      ≡ some unit_queue)
    ↔ ((◌≡◌ {A = List ℕ} (b'T' ∷ []) schedule_topic)
        ⊎ ((pos 40 ≡ negsuc 0) ⊎ (ltb_ℤ (pos 40) (log_min_offset unit_store.commit_log) ≡ false)))
unfolding queues_of
clean_expired_consumer_queue_lem_example =
    clean_expired_consumer_queue_lem go_library unit_store (store_after cleaned) (b'T' ∷ []) (pos 0)
      (pos 40) unit_queue cleaned_fact refl last_of_unit_queue

restored_fact : restored ≡ some (store_after restored)
unfolding recover_topic_queue_table change_topics change_queues correct_min_offset
    select_maped_buffer hold is_held ◌+ℤ◌ first_unit_from ◌-ℤ◌ read_unit read_int read bytes_to_int
    log_min_offset
restored_fact = refl

queue_in_store : Memᴰ unit_queue (all_queues unit_store.consume_topic_table)
unfolding all_queues queues_in
queue_in_store = head refl

the_only_queue :
    (p : ConsumeQueue)
    → Memᴰ p (all_queues unit_store.consume_topic_table)
    → logic_key go_library p ≡ logic_key go_library unit_queue
    → get_max_offset_in_queue p ≡ get_max_offset_in_queue unit_queue
unfolding all_queues queues_in
the_only_queue p (head e) same = ap get_max_offset_in_queue e
the_only_queue p (tail x) same = elim x [ ]

query_offset_of-recover_topic_queue_table_example :
    query_offset_of go_library short_message (store_after restored).commit_log.append_state
    ≡ get_max_offset_in_queue unit_queue
query_offset_of-recover_topic_queue_table_example =
    query_offset_of-recover_topic_queue_table go_library unit_store (store_after restored)
      unit_queue short_message restored_fact queue_in_store the_only_queue refl refl

abnormal_files-drop_example :
    abnormal_files check_context true
      (abnormal_fuel (open_file ∷ open_file ∷ []))
      (drop 1 (open_file ∷ open_file ∷ []))
    ≢ no_fuel
abnormal_files-drop_example = abnormal_files-drop check_context true 1 (open_file ∷ open_file ∷ [])
