-- ===== src/Store/MessageStore/Dispatch.antt =====
-- What the dispatch service does to the queues of the store.
use ttstringgolangiot.Base.{
  ℕ, ◌+◌, ◌-◌, ◌^◌, ◌<◌, ◌≡◌, refl, inl, inr, true, false, Option, some, List, length, set, lookup,
  insert, lookup-insert_self, Bool-cases, Option-cases,
}
use ttstringgolangiot.Base.Int.{ℤ, pos, ltb_ℤ, ◌-ℤ◌, int_eq}
use ttstringgolangiot.Store.Buffer.{MappedByteBuffer}
use ttstringgolangiot.Store.Buffer.Roundtrip.{FitsIn}
use ttstringgolangiot.Store.Properties.{bytes_eq}
use ttstringgolangiot.Store.MapedFile.{MapedFile}
use ttstringgolangiot.Store.Check.{DispatchRequest}
use ttstringgolangiot.Store.Check.Appended.{reader_at}
use ttstringgolangiot.Store.ConsumeQueue.{
  ConsumeQueue, starts_late, read_unit, put_message_postion_info_wrapper, put_with_retries,
  put_message_postion_info as put_unit,
}
use ttstringgolangiot.Store.ConsumeQueue.Recovery.{as_length}
use ttstringgolangiot.Store.ConsumeQueue.Unit.{HasUnitRoom, read_unit-put_message_postion_info}
use ttstringgolangiot.Store.MessageStore.{
  MessageStoreConfig, DefaultMessageStore, queues_of, set_queue, find_consume_queue, goes_to_queue,
  put_message_postion_info, put_index_request, do_dispatch,
}

queues_of-set_queue :
    (topic : List ℕ) (queue_id : ℤ) (q : ConsumeQueue) (s : DefaultMessageStore)
    → lookup queue_id (queues_of topic (set_queue topic queue_id q s).consume_topic_table) ≡ some q
unfolding queues_of set_queue
queues_of-set_queue topic queue_id q s =
    rw
      (
        queues_of,
        set_queue,
        lookup-insert_self topic (insert queue_id q (queues_of topic s.consume_topic_table))
            s.consume_topic_table,
      )
      (lookup-insert_self queue_id q (queues_of topic s.consume_topic_table))

module _ (create : ℕ → ℕ → Option MapedFile) (config : MessageStoreConfig) where
  tables-put_index_request :
      (r : DispatchRequest) (s : DefaultMessageStore)
      → (put_index_request config r s).consume_topic_table ≡ s.consume_topic_table
  tables-put_index_request r s = elim (Bool-cases config.message_index_enable) [
    | inl e ↦ rw e refl
    | inr e ↦ rw e refl
  ]

  -- The dispatch of a message that prepares a transaction or rolls one back changes no queue.
  pub do_dispatch-prepared :
      (r : DispatchRequest) (s : DefaultMessageStore)
      → goes_to_queue r.sys_flag ≡ false
      → (s' : DefaultMessageStore) × (do_dispatch create config r s ≡ some s')
        × (s'.consume_topic_table ≡ s.consume_topic_table)
  unfolding do_dispatch
  do_dispatch-prepared r s e =
      let taken : DefaultMessageStore = record s { request_size = s.request_size -ℤ pos 1 } in
      (put_index_request config r taken, rw (do_dispatch, e) refl, tables-put_index_request r taken)

  -- The queue that is found does not depend on the number of requests.
  find-taken :
      (topic : List ℕ) (queue_id n : ℤ) (s : DefaultMessageStore)
      → (find_consume_queue config topic queue_id (record s { request_size = n })).0
        ≡ (find_consume_queue config topic queue_id s).0
  unfolding find_consume_queue
  find-taken topic queue_id n s =
      elim (Option-cases (lookup queue_id (queues_of topic s.consume_topic_table))) [
        | inl e ↦ rw (find_consume_queue, e) refl
        | inr (q, e) ↦ rw (find_consume_queue, e) refl
      ]

  -- Putting a unit that goes in at the first try.
  put_message_postion_info-done :
      (r : DispatchRequest) (s : DefaultMessageStore) (q' : ConsumeQueue)
      → put_unit create
          (as_length r.commit_log_offset)
          r.msg_size
          r.tags_code
          (as_length r.consume_queue_offset)
          (find_consume_queue config r.topic r.queue_id s).0
        ≡ some (true, q')
      → (s' : DefaultMessageStore) × (put_message_postion_info create config r s ≡ some s')
        × (lookup r.queue_id (queues_of r.topic s'.consume_topic_table) ≡ some q')
  unfolding put_message_postion_info put_message_postion_info_wrapper put_with_retries
  put_message_postion_info-done r s q' e =
      let found = (find_consume_queue config r.topic r.queue_id s).1 in
      let put : DefaultMessageStore = record found { logics_msg_timestamp = r.store_timestamp } in
      (
        set_queue r.topic r.queue_id q' put,
        rw (put_message_postion_info, put_message_postion_info_wrapper, put_with_retries, e) refl,
        queues_of-set_queue r.topic r.queue_id q' put,
      )

  -- When a message takes part in no transaction or commits one, its queue has a last file with
  -- room for a unit and no blanks to come, and the offset of the message is the greatest of the
  -- queue so far, then the dispatch ends with a unit at the end of that file, and a read of the
  -- unit gives the offset, the size and the code of the tags of the request.
  pub read_unit-do_dispatch :
      (r : DispatchRequest) (s : DefaultMessageStore) (f : MapedFile)
      → goes_to_queue r.sys_flag ≡ true
      → HasUnitRoom f (find_consume_queue config r.topic r.queue_id s).0
      → starts_late (as_length r.consume_queue_offset) f ≡ false
      → ltb_ℤ
          (find_consume_queue config r.topic r.queue_id s).0.max_physic_offset
          (pos (as_length r.commit_log_offset))
        ≡ true
      → as_length r.commit_log_offset < 2 ^ 63
      → FitsIn 32 r.msg_size
      → FitsIn 64 r.tags_code
      → (s' : DefaultMessageStore) × (q' : ConsumeQueue) × (b b' : MappedByteBuffer) × (do_dispatch
            create config r s
          ≡ some s')
        × (lookup r.queue_id (queues_of r.topic s'.consume_topic_table) ≡ some q')
        × (q'.maped_file_queue.maped_files
            ≡ set
                (find_consume_queue config r.topic r.queue_id s).0.maped_file_queue.maped_files
                (length
                    (find_consume_queue config r.topic r.queue_id s).0.maped_file_queue.maped_files
                  - 1)
                (record f { mapped_byte_buffer = b; wrote_position = f.wrote_position + 20 }))
        × (q'.max_physic_offset ≡ pos (as_length r.commit_log_offset))
        × (read_unit (reader_at f.mapped_byte_buffer.write_pos b)
            ≡ some (((pos (as_length r.commit_log_offset), r.msg_size), r.tags_code), b'))
  unfolding do_dispatch
  read_unit-do_dispatch r s f goes room late new o size tags =
      let taken : DefaultMessageStore = record s { request_size = s.request_size -ℤ pos 1 } in
      let (b, q', b', e, files, greatest, unit) =
        read_unit-put_message_postion_info create (as_length r.commit_log_offset) r.msg_size
          r.tags_code (as_length r.consume_queue_offset) f
          (find_consume_queue config r.topic r.queue_id s).0 room late new o size tags in
      let same = find-taken r.topic r.queue_id (s.request_size -ℤ pos 1) s in
      let (put, e', found) = put_message_postion_info-done r taken q' (rw same e) in
      (
        put_index_request config r put,
        q',
        b,
        b',
        rw (do_dispatch, goes, e') refl,
        rw (tables-put_index_request r put) found,
        files,
        greatest,
        unit,
      )
