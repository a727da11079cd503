-- ===== src/Registry/RouteInfo/Pickup/Finds.antt =====
-- The route of a topic has the brokers of its queues.
use mathlib.Core.List.{Memᴰ}
use mathlib.Core.List.Memᴰ.{head, tail}
use ttstringgolangiot.Base.{
  ◌≡◌, refl, sym, ap, ◌∙◌, inl, inr, false, some, List, [], ◌∷◌, String, Dict, string_eq, ◌≟◌, ≟_eq,
  lookup, Bool-cases, Option-cases,
}
use ttstringgolangiot.Registry.RouteInfo.{NameSet, QueueData, BrokerData, RouteInfo}
use ttstringgolangiot.Registry.RouteInfo.Pickup.{
  TopicRouteData, is_name_in, broker_names, brokers_of, filters_of, unless_no_broker,
  pickup_topic_route_data,
}

broker_names-all :
    (seen : List String) (queues : List QueueData) (q : QueueData)
    → Memᴰ q queues
    → is_name_in q.broker_name seen ≡ false
    → Memᴰ q.broker_name (broker_names seen queues)
unfolding broker_names
broker_names-all seen [] q m h = elim m [ ]
broker_names-all seen (x ∷ queues) q (head e) h =
    let name = ap (λ y. y.broker_name) e in
    let new : is_name_in x.broker_name seen ≡ false = ap (λ n. is_name_in n seen) (sym name) ∙ h in
    rw new (head name)
broker_names-all seen (x ∷ queues) q (tail m) h =
    elim (Bool-cases (is_name_in x.broker_name seen)) [
      | inl known ↦ rw known (broker_names-all seen queues q m h)
      | inr new ↦ elim (Bool-cases (x.broker_name ≟ q.broker_name)) [
        | inl same ↦ rw new (head (sym (≟_eq x.broker_name q.broker_name same)))
        | inr other ↦
            rw new (tail (broker_names-all (x.broker_name ∷ seen) queues q m (rw (other, h) refl)))
      ]
    ]

brokers_of-all :
    (table : Dict String BrokerData) (names : List String) (name : String) (d : BrokerData)
    → Memᴰ name names
    → lookup name table ≡ some d
    → Memᴰ d (brokers_of table names)
unfolding brokers_of
brokers_of-all table [] name d m h = elim m [ ]
brokers_of-all table (n ∷ names) name d (head e) h =
    let found : lookup n table ≡ some d = ap (λ x. lookup x table) (sym e) ∙ h in
    rw (brokers_of, found) (head refl)
brokers_of-all table (n ∷ names) name d (tail m) h = elim (Option-cases (lookup n table)) [
  | inl e ↦ rw (brokers_of, e) (brokers_of-all table names name d m h)
  | inr (x, e) ↦ rw (brokers_of, e) (tail (brokers_of-all table names name d m h))
]

unless_no_broker-some :
    (queues : List QueueData) (brokers : List BrokerData) (filters : Dict String (List String))
    (d : BrokerData)
    → Memᴰ d brokers
    → unless_no_broker
        (record { queue_datas = queues; broker_datas = brokers; filter_server_table = filters })
      ≡ some
          (record { queue_datas = queues; broker_datas = brokers; filter_server_table = filters })
unless_no_broker-some queues [] filters d m = elim m [ ]
unless_no_broker-some queues (b ∷ brokers) filters d m = refl

-- When a topic has a queue of a broker whose addresses are known, then the topic has a route, with
-- all its queues and with that broker.
pub pickup_topic_route_data-finds :
    (s : NameSet) (topic : String) (r : RouteInfo s) (queues : List QueueData) (q : QueueData)
    (d : BrokerData)
    → lookup topic r.topic_queue_table ≡ some queues
    → Memᴰ q queues
    → lookup q.broker_name r.broker_addr_table ≡ some d
    → (route : TopicRouteData) × (pickup_topic_route_data s topic r ≡ some route)
      × (route.queue_datas ≡ queues)
      × Memᴰ d route.broker_datas
unfolding pickup_topic_route_data
pickup_topic_route_data-finds s topic r queues q d e m found =
    let brokers = brokers_of r.broker_addr_table (broker_names [] queues) in
    let filters = filters_of r.filter_server_table brokers [] in
    let there =
      brokers_of-all r.broker_addr_table (broker_names [] queues) q.broker_name d
        (broker_names-all [] queues q m refl) found in
    (
      record { queue_datas = queues; broker_datas = brokers; filter_server_table = filters },
      rw (pickup_topic_route_data, e) (unless_no_broker-some queues brokers filters d there),
      refl,
      there,
    )
