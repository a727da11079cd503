-- ===== src/Store/MessageStore/Ids.antt =====
-- GetMessageIds (stgstorelog/default_message_store.go): the identifiers of the messages of a range
-- of offsets, each with the offset behind it. Offsets are natural numbers below 2^53, so that the
-- greatest of two is exact with floating point numbers. `panicked` is also the answer for a unit
-- with a negative offset, which no put writes.
use ttstringgolangiot.Base.{
  ℕ, zero, suc, ◌≤◌, ◌<◌, ◌≡◌, refl, ap, ◌∙◌, true, false, none, some, List, [], arith, leb, ltb,
  ◌==◌, if◌then◌else◌, Dict, insert, max,
}
use ttstringgolangiot.Base.Int.{ℤ, pos, negsuc}
use ttstringgolangiot.Store.Properties.{bytes_eq}
use ttstringgolangiot.Store.Buffer.{MappedByteBuffer, read_int}
use ttstringgolangiot.Store.Address.{GoLibrary, split_host_port, create_message_id}
use ttstringgolangiot.Store.ConsumeQueue.{
  ConsumeQueue, get_index_buffer, get_min_offset_in_queue, get_max_offset_in_queue,
}
use ttstringgolangiot.Store.ConsumeQueue.Recovery.{as_length, units_of}
use ttstringgolangiot.Store.MessageStore.{
  MessageStoreConfig, DefaultMessageStore, find_consume_queue,
}
use ttstringgolangiot.Store.MessageStore.Pull.{release_index_buffer}

-- `comes_to_end`: the buffer is read, or an identifier cannot be made; `returns`: the offset went
-- beyond the greatest that was asked for. Both have the next offset.
pub data Ids : Type 0 where
  comes_to_end : ℕ → Dict (List ℕ) ℕ → Ids
  returns : Dict (List ℕ) ℕ → Ids
  unit_panics : Ids

-- `out_of_fuel`: the loop needs more rounds.
pub data Answer : Type 0 where
  gives : Dict (List ℕ) ℕ → ConsumeQueue → Answer
  panicked : Answer
  out_of_fuel : Answer

module _ (go : GoLibrary) (store_host : List ℕ) (max_offset : ℕ) where
  -- The code reads eight bytes for each unit of twenty, so that the second offset it takes is one
  -- of the size and the code of the tags.
  pub ids_of_units : ℕ → ℕ → MappedByteBuffer → Dict (List ℕ) ℕ → Ids
  ids_of_units zero next buffer ids = comes_to_end next ids
  ids_of_units (suc left) next buffer ids = elim (read_int 8 buffer) [
    | none ↦ unit_panics
    | some (negsuc offset, buffer') ↦ unit_panics
    | some (pos offset, buffer') ↦ elim (split_host_port go store_host) [
      | none ↦ comes_to_end (suc next) ids
      | some address ↦ elim (create_message_id go store_host offset) [
        | none ↦ unit_panics
        | some id ↦
            let ids' = insert id (suc next) ids in
            let rest = ids_of_units left (suc next) buffer' ids' in
            if ltb max_offset (suc next) then returns ids' else rest
      ]
    ]
  ]

  -- The outer loop, below the greater of the greatest offset asked for and that of the queue.
  unfoldable pub ids_loop : ℕ → ℕ → ℕ → ConsumeQueue → Dict (List ℕ) ℕ → Answer
  ids_loop zero upper next q ids = out_of_fuel
  ids_loop (suc fuel) upper next q ids = elim (leb upper next) [
    | true ↦ gives ids q
    | false ↦
        let selected = get_index_buffer next q in
        elim (selected.0) [
          | none ↦ ids_loop fuel upper next selected.1 ids
          | some buffer ↦
              elim (ids_of_units (units_of (as_length buffer.size)) next buffer.mapped_byte_buffer
                ids) [
                  | unit_panics ↦ panicked
                  | returns ids' ↦ gives ids' (release_index_buffer next selected.1)
                  | comes_to_end next' ids' ↦
                      ids_loop fuel upper next' (release_index_buffer next selected.1) ids'
                ]
        ]
  ]

  unfoldable pub get_message_ids :
      MessageStoreConfig → ℕ → List ℕ → ℤ → ℕ → DefaultMessageStore → Answer
  get_message_ids config fuel topic queue_id min_offset s =
      let q = (find_consume_queue config topic queue_id s).0 in
      let upper = max max_offset (get_max_offset_in_queue q) in
      let looped = ids_loop fuel upper (max min_offset (get_min_offset_in_queue q)) q [] in
      if s.shutdown_flag then gives [] q else if upper == 0 then gives [] q else looped

  ids_loop-stuck :
      (fuel upper next : ℕ) (q : ConsumeQueue) (ids : Dict (List ℕ) ℕ)
      → next < upper
      → get_index_buffer next q ≡ (none, q)
      → ids_loop fuel upper next q ids ≡ out_of_fuel
  unfolding ids_loop
  ids_loop-stuck zero upper next q ids below nothing = refl
  ids_loop-stuck (suc fuel) upper next q ids below nothing =
      let more : leb upper next ≡ false = ground arith in
      rw (ids_loop, more, ap (λ x. x.0) nothing, ap (λ x. x.1) nothing)
        (ids_loop-stuck fuel upper next q ids below nothing)

  -- When the store runs and has no unit at an offset, which is not before the least of the queue
  -- and is below the greatest that is asked for, then GetMessageIds from that offset never ends:
  -- it looks for the unit again and again.
  pub get_message_ids-diverges :
      (config : MessageStoreConfig) (fuel : ℕ) (topic : List ℕ) (queue_id : ℤ) (min_offset : ℕ)
      (s : DefaultMessageStore)
      → s.shutdown_flag ≡ false
      → get_min_offset_in_queue (find_consume_queue config topic queue_id s).0 ≤ min_offset
      → min_offset < max_offset
      → get_index_buffer min_offset (find_consume_queue config topic queue_id s).0
        ≡ (none, (find_consume_queue config topic queue_id s).0)
      → get_message_ids config fuel topic queue_id min_offset s ≡ out_of_fuel
  unfolding get_message_ids
  get_message_ids-diverges config fuel topic queue_id min_offset s runs least below nothing =
      let q = (find_consume_queue config topic queue_id s).0 in
      let upper = max max_offset (get_max_offset_in_queue q) in
      let start : max min_offset (get_min_offset_in_queue q) ≡ min_offset = omega arith in
      let some_upper : (upper == 0) ≡ false = ground arith in
      let opened : get_message_ids config fuel topic queue_id min_offset s ≡ (
          if upper == 0
          then gives [] q
          else ids_loop fuel upper (max min_offset (get_min_offset_in_queue q)) q []) =
        rw (get_message_ids, runs) refl in
      let stuck = ids_loop-stuck fuel upper min_offset q [] (omega arith) nothing in
      opened ∙ rw (some_upper, start) stuck
