-- ===== src/Registry/RouteInfo/Unregister.antt =====
-- What `unRegisterBroker` leaves of a broker.
use ttstringgolangiot.Base.{
  ℕ, ◌≡◌, refl, Bool, false, ◌||◌, ◌==◌, none, some, List, [], ◌∷◌, String, if◌then◌else◌, Dict,
  string_eq, nat_eq, ◌≟◌, ≟_refl, lookup, erase, lookup-erase_self, lookup-insert_self, arith,
  Bool-cases, Option-cases, inl, inr,
}
use ttstringgolangiot.Registry.RouteInfo.{NameSet, QueueData, BrokerData, RouteInfo}
use ttstringgolangiot.Registry.RouteInfo.Slice.{finished}
use ttstringgolangiot.Registry.RouteInfo.Queues.{
  OneEach, has_broker, without, remove_queues-OneEach,
}
use ttstringgolangiot.Registry.RouteInfo.Remove.{
  cleaned, end_topic, remove_topics, remove_topic_by_broker_name, leave_cluster, remove_broker,
  remove_addr, un_register_broker,
}

-- No topic's list has two entries of one broker.
unfoldable pub AllOneEach : Dict String (List QueueData) → Type 0
AllOneEach [] = Unit
AllOneEach ((topic, qs) ∷ t) = OneEach qs × AllOneEach t

-- The table without the broker's queues and without the topics that have no other.
unfoldable pub with_queues :
    String → List QueueData → Dict String (List QueueData) → Dict String (List QueueData)
with_queues topic [] t = t
with_queues topic (q ∷ qs) t = (topic, q ∷ qs) ∷ t

unfoldable pub table_without : String → Dict String (List QueueData) → Dict String (List QueueData)
table_without name [] = []
table_without name ((topic, qs) ∷ t) = with_queues topic (without name qs) (table_without name t)

-- Does a topic have a queue of the broker.
unfoldable pub has_queue : String → Dict String (List QueueData) → Bool
has_queue name [] = false
has_queue name ((topic, qs) ∷ t) = has_broker name qs || has_queue name t

has_broker-without :
    (n name : String) (qs : List QueueData)
    → has_broker n (without name qs) ≡ (if name ≟ n then false else has_broker n qs)
unfolding has_broker without
has_broker-without n name [] = ground arith
has_broker-without n name (q ∷ qs) = ground (
  arith,
  has_broker-without n name qs,
  string_eq.beq_iff q.broker_name name,
  string_eq.beq_iff q.broker_name n,
  string_eq.beq_iff name n,
)

has_queue-with_queues :
    (n topic : String) (qs : List QueueData) (t : Dict String (List QueueData))
    → has_queue n (with_queues topic qs t) ≡ (has_broker n qs || has_queue n t)
unfolding has_queue with_queues has_broker
has_queue-with_queues n topic [] t = refl
has_queue-with_queues n topic (q ∷ qs) t = refl

has_queue-table_without :
    (n name : String) (t : Dict String (List QueueData))
    → has_queue n (table_without name t) ≡ (if name ≟ n then false else has_queue n t)
unfolding has_queue table_without
has_queue-table_without n name [] = ground arith
has_queue-table_without n name ((topic, qs) ∷ t) = ground (
  arith,
  has_queue-with_queues n topic (without name qs) (table_without name t),
  has_broker-without n name qs,
  has_queue-table_without n name t,
)

end_topic-finished :
    (topic : String) (qs : List QueueData) (t u : Dict String (List QueueData))
    → end_topic topic (finished qs) t (cleaned u) ≡ cleaned (with_queues topic qs u)
unfolding with_queues
end_topic-finished topic [] t u = refl
end_topic-finished topic (q ∷ qs) t u = refl

pub remove_topics-AllOneEach :
    (name : String) (t : Dict String (List QueueData))
    → AllOneEach t
    → remove_topics name t ≡ cleaned (table_without name t)
unfolding remove_topics table_without AllOneEach
remove_topics-AllOneEach name [] one = refl
remove_topics-AllOneEach name ((topic, qs) ∷ t) one = rw (
  remove_queues-OneEach name qs one.0,
  remove_topics-AllOneEach name t one.1,
  end_topic-finished topic (without name qs) t (table_without name t),
)

-- When no topic has two entries of one broker, `removeTopicByBrokerName` leaves no queue of the
-- broker in any topic, and leaves the queues of every other broker.
pub remove_topic_by_broker_name_lem :
    (n name : String) (t : Dict String (List QueueData))
    → AllOneEach t
    → has_queue n (remove_topic_by_broker_name name t) ≡ (if name ≟ n then false else has_queue n t)
unfolding remove_topic_by_broker_name
remove_topic_by_broker_name_lem n name t one =
    rw (remove_topics-AllOneEach name t one, has_queue-table_without n name t)

module _ (s : NameSet) where
  -- Does the cluster list the broker.
  unfoldable pub in_cluster : String → String → Dict String s.Names → Bool
  in_cluster cluster name t = elim (lookup cluster t) [
    | none ↦ false
    | some names ↦ s.contains name names
  ]

  leave_cluster_lem :
      (cluster name : String) (t : Dict String s.Names)
      → in_cluster cluster name (leave_cluster s cluster name t) ≡ false
  unfolding in_cluster leave_cluster
  leave_cluster_lem cluster name t = elim (Option-cases (lookup cluster t)) [
    | inl none_there ↦ rw (in_cluster, leave_cluster, none_there, none_there)
    | inr (names, there) ↦ elim (Bool-cases (s.cardinality (s.remove name names) == 0)) [
      | inl empty ↦ rw (in_cluster, leave_cluster, there, empty, lookup-erase_self cluster t)
      | inr filled ↦ rw (
        in_cluster,
        leave_cluster,
        there,
        filled,
        lookup-insert_self cluster (s.remove name names) t,
        s.contains-remove name name names,
        ≟_refl name,
      )
    ]
  ]

  cleared : String → RouteInfo s → RouteInfo s
  cleared addr r = record r {
    broker_live_table = erase addr r.broker_live_table;
    filter_server_table = erase addr r.filter_server_table;
  }

  un_register_broker-remove_broker :
      (cluster addr name : String) (id : ℕ) (r : RouteInfo s) (d : BrokerData)
      → lookup name r.broker_addr_table ≡ some d
      → erase id d.broker_addrs ≡ []
      → un_register_broker s cluster addr name id r ≡ remove_broker s cluster name (cleared addr r)
  unfolding un_register_broker remove_addr cleared
  un_register_broker-remove_broker cluster addr name id r d there last =
      rw (remove_addr, there, last)

  -- A broker whose last address is unregistered is gone: its address from the live brokers and the
  -- filter servers, its name from the brokers and from the cluster that the request names, and every
  -- queue of it, when no topic has two entries of one broker. The queues of another broker stay.
  pub un_register_broker-last :
      (cluster addr name : String) (id : ℕ) (r : RouteInfo s) (d : BrokerData)
      → lookup name r.broker_addr_table ≡ some d
      → erase id d.broker_addrs ≡ []
      → AllOneEach r.topic_queue_table
      → let r' = un_register_broker s cluster addr name id r in
        (lookup addr r'.broker_live_table ≡ none)
        × (lookup addr r'.filter_server_table ≡ none)
        × (lookup name r'.broker_addr_table ≡ none)
        × (in_cluster cluster name r'.cluster_addr_table ≡ false)
        × ((n : String)
            → has_queue n r'.topic_queue_table
              ≡ (if name ≟ n then false else has_queue n r.topic_queue_table))
  unfolding remove_broker cleared
  un_register_broker-last cluster addr name id r d there last one =
      rw (un_register_broker-remove_broker cluster addr name id r d there last) (
        lookup-erase_self addr r.broker_live_table,
        lookup-erase_self addr r.filter_server_table,
        lookup-erase_self name r.broker_addr_table,
        leave_cluster_lem cluster name r.cluster_addr_table,
        λ n. remove_topic_by_broker_name_lem n name r.topic_queue_table one,
      )
