-- ===== src/Store/CommitLog/Illegal.antt =====
-- A message that is too long for the log.
use ttstringgolangiot.Base.{
  ℕ, ◌+◌, ◌-◌, ◌^◌, ◌<◌, ◌≡◌, refl, true, false, some, List, arith, ltb, length, set,
}
use ttstringgolangiot.Store.MapedFile.{MapedFile}
use ttstringgolangiot.Store.FileQueue.{last_file}
use ttstringgolangiot.Store.FileQueue.Last.{get_last_maped_file_open}
use ttstringgolangiot.Store.Append.{
  AppendState, MessageExtBrokerInner, message_size_exceeded, failed_append, record_length,
  do_append, append_message_with_callback, with_key,
}
use ttstringgolangiot.Store.Address.{GoLibrary, create_message_id}
use ttstringgolangiot.Store.Append.Put.{record_length_kept}
use ttstringgolangiot.Store.CommitLog.{
  CommitLog, returned, blocked, PutContext, message_illegal, put_message, put_locked, stamped,
  by_append_status, appended,
}

append_too_long :
    (go : GoLibrary) (msg : MessageExtBrokerInner) (s : AppendState) (f : MapedFile) (id : List ℕ)
    → f.wrote_position < f.file_size
    → create_message_id go msg.store_host (f.file_from_offset + f.mapped_byte_buffer.write_pos)
      ≡ some id
    → record_length msg < 2 ^ 31
    → s.max_message_size < record_length msg
    → append_message_with_callback go msg s f
      ≡ some (
        failed_append message_size_exceeded,
        with_key go msg s,
        record f { store_timestamp = 0; wrote_position = f.wrote_position + 0 },
      )
unfolding append_message_with_callback do_append
append_too_long go msg s f id room made int32 long =
    let left : ltb f.wrote_position f.file_size ≡ true = ground arith in
    let over : ltb s.max_message_size (record_length msg) ≡ true = ground arith in
    rw (append_message_with_callback, left, do_append, made, record_length_kept msg int32, over)
      refl

-- The log after the refusal.
abbrev refused_log : PutContext → ℕ → ℕ → MessageExtBrokerInner → MapedFile → CommitLog → CommitLog
refused_log ctx now locked_at msg f log =
    let closed : CommitLog = record log { locked = true } in
    appended log.maped_file_queue closed
      (with_key ctx.go (stamped ctx now locked_at msg) log.append_state)
      (record f { store_timestamp = 0; wrote_position = f.wrote_position + 0 })

-- When the mutex is free, the last file has room, the identifier can be made and the record of the
-- message is longer than the limit, then the message is refused as illegal, no byte is written
-- and nothing is dispatched; but the mutex stays taken, so that each later call waits for ever.
pub put_message-illegal :
    (ctx : PutContext) (now locked_at : ℕ) (msg : MessageExtBrokerInner) (log : CommitLog)
    (f : MapedFile) (id : List ℕ)
    → log.locked ≡ false
    → last_file log.maped_file_queue.maped_files ≡ some f
    → f.wrote_position < f.file_size
    → create_message_id ctx.go msg.store_host (f.file_from_offset + f.mapped_byte_buffer.write_pos)
      ≡ some id
    → record_length msg < 2 ^ 31
    → log.append_state.max_message_size < record_length msg
    → (log' : CommitLog) × (put_message ctx now locked_at msg log
        ≡ returned
            (record {
              status = message_illegal;
              append_result = some (failed_append message_size_exceeded);
            })
            log')
      × (log'.maped_file_queue.maped_files
          ≡ set log.maped_file_queue.maped_files
              (length log.maped_file_queue.maped_files - 1)
              (record f { store_timestamp = 0; wrote_position = f.wrote_position + 0 }))
      × (log'.dispatched ≡ log.dispatched)
      × ((ctx' : PutContext) (now' locked_at' : ℕ) (msg' : MessageExtBrokerInner)
          → put_message ctx' now' locked_at' msg' log' ≡ blocked)
unfolding put_message put_locked by_append_status stamped record_length
put_message-illegal ctx now locked_at msg log f id free last room made int32 long =
    let opened = get_last_maped_file_open ctx.create 0 log.maped_file_queue f last room in
    let appended_none =
      append_too_long ctx.go (stamped ctx now locked_at msg) log.append_state f id room made int32
        long in
    (
      refused_log ctx now locked_at msg f log,
      rw (put_message, free, put_locked, opened, appended_none, opened) refl,
      refl,
      refl,
      λ ctx' now' locked_at' msg'. refl,
    )
