-- ===== src/Registry/RouteInfo/Pickup.antt =====
-- Questions to the name server (stgregistry/registry/route_info_manager.go): the route of a topic
-- (pickupTopicRouteData), the topics of a cluster and those of units. The code writes the answers
-- as JSON. The set of the names of brokers is visited in the order of the first queue of each.
pub mod Finds
use ttstringgolangiot.Base.{
  ℕ, Bool, false, not, ◌&&◌, ◌||◌, Option, none, some, List, [], ◌∷◌, ◌++◌, String, if◌then◌else◌,
  Dict, string_eq, ◌≟◌, lookup, insert,
}
use ttstringgolangiot.Common.Flags.{has_unit_flag, has_unit_sub_flag}
use ttstringgolangiot.Registry.RouteInfo.{NameSet, QueueData, BrokerData, RouteInfo}

pub record TopicRouteData : Type 0 where
  pub queue_datas : List QueueData
  pub broker_datas : List BrokerData
  pub filter_server_table : Dict String (List String)

abbrev pub is_name_in : String → List String → Bool
is_name_in name [] = false
is_name_in name (n ∷ ns) = (n ≟ name) || is_name_in name ns

-- The names of the brokers, each once, beside those that were seen.
unfoldable pub broker_names : List String → List QueueData → List String
broker_names seen [] = []
broker_names seen (q ∷ qs) =
    let fresh = q.broker_name ∷ broker_names (q.broker_name ∷ seen) qs in
    let known = broker_names seen qs in if is_name_in q.broker_name seen then known else fresh

-- The brokers that have addresses.
unfoldable pub brokers_of : Dict String BrokerData → List String → List BrokerData
brokers_of table [] = []
brokers_of table (n ∷ ns) = elim (lookup n table) [
  | none ↦ brokers_of table ns
  | some d ↦ d ∷ brokers_of table ns
]

-- The filter servers of the addresses of a broker, and of all brokers.
pub add_filters :
    Dict String (List String)
    → Dict ℕ String
    → Dict String (List String)
    → Dict String (List String)
add_filters table [] found = found
add_filters table ((id, addr) ∷ addrs) found = elim (lookup addr table) [
  | none ↦ add_filters table addrs found
  | some servers ↦ add_filters table addrs (insert addr servers found)
]

pub filters_of :
    Dict String (List String)
    → List BrokerData
    → Dict String (List String)
    → Dict String (List String)
filters_of table [] found = found
filters_of table (d ∷ ds) found = filters_of table ds (add_filters table d.broker_addrs found)

abbrev pub unless_no_broker : TopicRouteData → Option TopicRouteData
unless_no_broker route = elim (route.broker_datas) [ [] ↦ none | d ∷ ds ↦ some route ]

module _ (s : NameSet) where
  unfoldable pub pickup_topic_route_data : String → RouteInfo s → Option TopicRouteData
  pickup_topic_route_data topic r = elim (lookup topic r.topic_queue_table) [
    | none ↦ none
    | some queues ↦
        let brokers = brokers_of r.broker_addr_table (broker_names [] queues) in
        unless_no_broker (record {
          queue_datas = queues;
          broker_datas = brokers;
          filter_server_table = filters_of r.filter_server_table brokers [];
        })
  ]

-- The topics that have a queue of the broker.
abbrev pub has_queue_of : String → List QueueData → Bool
has_queue_of name [] = false
has_queue_of name (q ∷ qs) = (q.broker_name ≟ name) || has_queue_of name qs

pub topics_of_broker : String → Dict String (List QueueData) → List String
topics_of_broker name [] = []
topics_of_broker name ((topic, queues) ∷ table) =
    let rest = topics_of_broker name table in
    if has_queue_of name queues then topic ∷ rest else rest

-- `getTopicsByCluster`, by the names of the brokers of the cluster: a topic stands once for each.
pub topics_by_cluster : List String → Dict String (List QueueData) → List String
topics_by_cluster [] table = []
topics_by_cluster (n ∷ ns) table = topics_of_broker n table ++ topics_by_cluster ns table

-- The topics whose first queue has the flags.
pub topics_with : (ℕ → Bool) → Dict String (List QueueData) → List String
topics_with p [] = []
topics_with p ((topic, []) ∷ table) = topics_with p table
topics_with p ((topic, q ∷ qs) ∷ table) =
    let rest = topics_with p table in if p q.topic_syn_flag then topic ∷ rest else rest

pub get_unit_topic_list : Dict String (List QueueData) → List String
get_unit_topic_list table = topics_with has_unit_flag table

pub get_has_unit_sub_topic_list : Dict String (List QueueData) → List String
get_has_unit_sub_topic_list table = topics_with has_unit_sub_flag table

pub get_has_unit_sub_un_unit_topic_list : Dict String (List QueueData) → List String
get_has_unit_sub_un_unit_topic_list table =
    topics_with (λ flag. not (has_unit_flag flag) && has_unit_sub_flag flag) table
