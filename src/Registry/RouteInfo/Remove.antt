-- ===== src/Registry/RouteInfo/Remove.antt =====
-- `unRegisterBroker`, `removeTopicByBrokerName`, `wipeWritePermOfBroker` and `deleteTopic`.
use Prim.Native.Nat.{bit_and, bit_xor}
use ttstringgolangiot.Base.{
  ℕ, suc, ◌+◌, ◌==◌, none, some, List, [], ◌∷◌, String, if◌then◌else◌, Dict, nat_eq, string_eq, ◌≟◌,
  lookup, insert, erase,
}
use ttstringgolangiot.Registry.RouteInfo.{NameSet, QueueData, RouteInfo}
use ttstringgolangiot.Registry.RouteInfo.Slice.{Loop, finished, panicked, remove_queues}

-- The loop over the topics that deletes the queues of a broker, and the topics that have none left.
-- A panic ends it: the flag, with the table as it is then.
pub data Topics : Type 0 where
  cleaned : Dict String (List QueueData) → Topics
  aborted : Dict String (List QueueData) → Topics

abbrev pub keep_topic : String → List QueueData → Topics → Topics
keep_topic topic qs (cleaned t) = cleaned ((topic, qs) ∷ t)
keep_topic topic qs (aborted t) = aborted ((topic, qs) ∷ t)

abbrev pub end_topic : String → Loop → Dict String (List QueueData) → Topics → Topics
end_topic topic (finished []) t rest = rest
end_topic topic (finished (q ∷ qs)) t rest = keep_topic topic (q ∷ qs) rest
end_topic topic (panicked qs) t rest = aborted ((topic, qs) ∷ t)

unfoldable pub remove_topics : String → Dict String (List QueueData) → Topics
remove_topics name [] = cleaned []
remove_topics name ((topic, qs) ∷ t) =
    let rest = remove_topics name t in end_topic topic (remove_queues name qs) t rest

abbrev pub table_after : Topics → Dict String (List QueueData)
table_after (cleaned t) = t
table_after (aborted t) = t

-- It recovers from the panic itself.
unfoldable pub remove_topic_by_broker_name :
    String → Dict String (List QueueData) → Dict String (List QueueData)
remove_topic_by_broker_name name t = table_after (remove_topics name t)

-- `perm &= 0xFFFFFFFF ^ PERM_WRITE` for the queues of a broker, and how many they are.
pub perm_write : ℕ
perm_write = 2

abbrev wipe_queue : QueueData → QueueData
wipe_queue q = record q { perm = bit_and q.perm (bit_xor 4294967295 perm_write) }

pub wipe_queues : String → List QueueData → ℕ × List QueueData
wipe_queues name [] = (0, [])
wipe_queues name (q ∷ qs) =
    let rest : ℕ × List QueueData = wipe_queues name qs in
    if q.broker_name ≟ name then (suc (rest.0), wipe_queue q ∷ rest.1) else (rest.0, q ∷ rest.1)

pub wipe_table : String → Dict String (List QueueData) → ℕ × Dict String (List QueueData)
wipe_table name [] = (0, [])
wipe_table name ((topic, qs) ∷ t) =
    let wiped : ℕ × List QueueData = wipe_queues name qs in
    let rest : ℕ × Dict String (List QueueData) = wipe_table name t in
    (wiped.0 + rest.0, (topic, wiped.1) ∷ rest.1)

module _ (s : NameSet) where
  pub wipe_write_perm_of_broker : String → RouteInfo s → ℕ × RouteInfo s
  wipe_write_perm_of_broker name r =
      let wiped : ℕ × Dict String (List QueueData) = wipe_table name r.topic_queue_table in
      (wiped.0, record r { topic_queue_table = wiped.1 })

  pub delete_topic : String → RouteInfo s → RouteInfo s
  delete_topic topic r = record r { topic_queue_table = erase topic r.topic_queue_table }

  -- The broker's name leaves its cluster, and the cluster goes with its last broker.
  unfoldable pub leave_cluster : String → String → Dict String s.Names → Dict String s.Names
  leave_cluster cluster name t = elim (lookup cluster t) [
    | none ↦ t
    | some names ↦
        if s.cardinality (s.remove name names) == 0
        then erase cluster t
        else insert cluster (s.remove name names) t
  ]

  -- What follows when the last address of a broker is gone.
  unfoldable pub remove_broker : String → String → RouteInfo s → RouteInfo s
  remove_broker cluster name r = record r {
    broker_addr_table = erase name r.broker_addr_table;
    cluster_addr_table = leave_cluster cluster name r.cluster_addr_table;
    topic_queue_table = remove_topic_by_broker_name name r.topic_queue_table;
  }

  unfoldable pub remove_addr : String → String → ℕ → RouteInfo s → RouteInfo s
  remove_addr cluster name id r = elim (lookup name r.broker_addr_table) [
    | none ↦ r
    | some d ↦ elim (erase id d.broker_addrs) [
      | [] ↦ remove_broker cluster name r
      | a ∷ rest ↦ record r {
        broker_addr_table = insert name (record d { broker_addrs = a ∷ rest }) r.broker_addr_table;
      }
    ]
  ]

  unfoldable pub un_register_broker : String → String → String → ℕ → RouteInfo s → RouteInfo s
  un_register_broker cluster addr name id r = remove_addr cluster name id (record r {
    broker_live_table = erase addr r.broker_live_table;
    filter_server_table = erase addr r.filter_server_table;
  })
