-- ===== src/Tests/ClientTests.antt =====
-- Five queues for two consumers, and a process queue that is filled and emptied.
use ttstringgolangiot.Base.{
  ℕ, suc, ◌≡◌, ◌≢◌, refl, ◌⊎◌, false, some, List, [], ◌∷◌, arith, length, nat_eq,
}
use ttstringgolangiot.Base.Int.{pos, negsuc}
use ttstringgolangiot.Base.Text.{equal_fold}
use ttstringgolangiot.Client.Allocate.Partition.{allocate_all, allocate_partition}
use ttstringgolangiot.Client.ProcessQueue.{MessageExt, ProcessQueue, put_message, remove_message}
use ttstringgolangiot.Client.ProcessQueue.Invariant.{
  IsValid, put_message-IsValid, remove_message-IsValid,
}
use ttstringgolangiot.Client.ProcessQueue.Commit.{IsFirst, remove_message_commit}

abbrev five : List ℕ
five = 1 ∷ 2 ∷ 3 ∷ 4 ∷ 5 ∷ []

allocate_partition_example : allocate_all five ("x" ∷ "y" ∷ []) ("x" ∷ "y" ∷ []) ≡ some five
unfolding equal_fold
allocate_partition_example =
    allocate_partition five ("x" ∷ "y" ∷ []) (omega arith) (omega arith)
      (refl, (refl, tt), (refl, tt, tt))

abbrev empty_queue : ProcessQueue
empty_queue = record {
  msg_count = pos 0;
  msg_tree_map = record { keys = []; inner_map = [] };
  queue_offset_max = 0;
  consuming = false;
  msg_acc_cnt = pos 0;
}

abbrev message : ℕ → MessageExt
message offset = record { queue_offset = offset; max_offset_property = "9" }

abbrev batch : List MessageExt
batch = message 5 ∷ message 3 ∷ []

empty_queue-IsValid : IsValid empty_queue
empty_queue-IsValid = record {
  tree = record { sorted = tt; unique = tt; same_keys = λ k. refl };
  counted = refl;
}

abbrev filled_queue : ProcessQueue
filled_queue = (put_message empty_queue batch).1

put_message-IsValid_example : IsValid filled_queue
put_message-IsValid_example = put_message-IsValid empty_queue batch empty_queue-IsValid

filled_queue-IsValid : IsValid filled_queue
filled_queue-IsValid = put_message-IsValid empty_queue batch empty_queue-IsValid

remove_message-IsValid_example : IsValid (remove_message filled_queue (message 3 ∷ [])).1
remove_message-IsValid_example =
    remove_message-IsValid filled_queue (message 3 ∷ []) filled_queue-IsValid

remove_message_commit_example :
    let (r, pq') = remove_message filled_queue (message 3 ∷ []) in
    ((length filled_queue.msg_tree_map.inner_map ≡ 0)
      × (r ≡ some (negsuc 0))
      × (pq' ≡ filled_queue))
    ⊎ ((length filled_queue.msg_tree_map.inner_map ≢ 0)
        × (((length pq'.msg_tree_map.inner_map ≡ 0)
              × (r ≡ some (pos (suc filled_queue.queue_offset_max))))
            ⊎ ((k : ℕ) × (r ≡ some (pos k)) × IsFirst pq'.msg_tree_map.inner_map k)))
remove_message_commit_example =
    remove_message_commit filled_queue (message 3 ∷ []) filled_queue-IsValid
