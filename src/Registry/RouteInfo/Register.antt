-- ===== src/Registry/RouteInfo/Register.antt =====
-- `registerBroker`, `createAndUpdateQueueData` and `isBrokerTopicConfigChanged`.

use Prim.Native.Char.{code}
use ttstringgolangiot.Base.{
  ℕ, Bool, true, false, not, ◌&&◌, ◌||◌, Option, none, some, List, [], ◌∷◌, ◌++◌, String, leb, ◌==◌,
  if◌then◌else◌, Dict, nat_eq, string_eq, ◌≟◌, lookup, insert, erase,
}
use ttstringgolangiot.Registry.RouteInfo.{
  NameSet, QueueData, BrokerData, DataVersion, TopicConfig, TopicConfigWrapper, RouteInfo,
  master_id, data_version_equals, new_queue_data,
}
use ttstringgolangiot.Registry.RouteInfo.Slice.{Update, updated, update_panicked, update_queues}

-- `strings.TrimSpace` on ASCII text.
abbrev is_space : ℕ → Bool
is_space c = (leb 9 c && leb c 13) || (c == 32)

abbrev trim_left : String → String
trim_left String.[] = String.[]
trim_left (String.◌∷◌ c s) =
    let rest = trim_left s in if is_space (code c) then rest else String.◌∷◌ c s

abbrev cons_trimmed : Bool → String → String → String
cons_trimmed true String.[] short = String.[]
cons_trimmed true (String.◌∷◌ c s) short = short
cons_trimmed false rest short = short

abbrev trim_right : String → String
trim_right String.[] = String.[]
trim_right (String.◌∷◌ c s) =
    cons_trimmed (is_space (code c)) (trim_right s) (String.◌∷◌ c (trim_right s))

unfoldable pub trim_space : String → String
trim_space s = trim_right (trim_left s)

-- A panic in the loop is recovered: the table has the list as the loop left it, nothing is added.
abbrev pub finish_update :
    String → QueueData → Dict String (List QueueData) → Update → Dict String (List QueueData)
finish_update topic new t (updated qs true) = insert topic (qs ++ new ∷ []) t
finish_update topic new t (updated qs false) = insert topic qs t
finish_update topic new t (update_panicked qs) = insert topic qs t

pub create_and_update_queue_data :
    String → TopicConfig → Dict String (List QueueData) → Dict String (List QueueData)
create_and_update_queue_data broker_name c t =
    let topic = trim_space c.topic_name in
    let new = new_queue_data broker_name c in
    if topic ≟ "" then t else elim (lookup topic t) [
      | none ↦ insert topic (new ∷ []) t
      | some qs ↦ finish_update topic new t (update_queues new qs)
    ]

pub create_and_update_all :
    String → List TopicConfig → Dict String (List QueueData) → Dict String (List QueueData)
create_and_update_all broker_name [] t = t
create_and_update_all broker_name (c ∷ cs) t =
    create_and_update_all broker_name cs (create_and_update_queue_data broker_name c t)

pub record RegisterBrokerResult : Type 0 where
  pub ha_server_addr : String
  pub master_addr : String

-- The arguments of `registerBroker`; `now` is the clock.
pub record Registration : Type 0 where
  pub cluster_name : String
  pub broker_addr : String
  pub broker_name : String
  pub broker_id : ℕ
  pub ha_server_addr : String
  pub topic_config_wrapper : Option TopicConfigWrapper
  pub filter_server_list : Option (List String)
  pub context : String
  pub now : ℕ

module _ (s : NameSet) where
  pub is_broker_topic_config_changed : RouteInfo s → String → Option DataVersion → Bool
  is_broker_topic_config_changed r addr version = elim (lookup addr r.broker_live_table) [
    | none ↦ true
    | some prev ↦ not (data_version_equals prev.data_version version)
  ]

  abbrev pub names_of : RouteInfo s → String → s.Names
  names_of r cluster = elim (lookup cluster r.cluster_addr_table) [ none ↦ s.new_set | some n ↦ n ]

  abbrev pub broker_data_of : RouteInfo s → String → BrokerData
  broker_data_of r name = elim (lookup name r.broker_addr_table) [
    | none ↦ record { broker_name = name; broker_addrs = [] }
    | some d ↦ d
  ]

  -- `registerFirst || ok || oldAddr == ""`, where `oldAddr` is "" when the id is missing.
  pub register_first : RouteInfo s → Registration → Bool
  register_first r g = elim (lookup g.broker_name r.broker_addr_table) [
    | none ↦ true
    | some d ↦ elim (lookup g.broker_id d.broker_addrs) [
      | none ↦ false || (◌≟◌ {A = String} "" "")
      | some old ↦ true || (old ≟ "")
    ]
  ]

  -- The cluster's set and the broker's addresses.
  unfoldable pub register_addr : RouteInfo s → Registration → RouteInfo s
  register_addr r g =
      let d = broker_data_of r g.broker_name in
      record r {
        cluster_addr_table =
            insert g.cluster_name (s.add g.broker_name (names_of r g.cluster_name))
              r.cluster_addr_table;
        broker_addr_table =
            insert g.broker_name
              (record d { broker_addrs = insert g.broker_id g.broker_addr d.broker_addrs })
              r.broker_addr_table;
      }

  -- The queues of the topics, of a master whose configs are new.
  unfoldable pub register_topics : Bool → RouteInfo s → Registration → RouteInfo s
  register_topics first r g = elim (g.topic_config_wrapper) [
    | none ↦ r
    | some w ↦
        if (g.broker_id == master_id)
          && (is_broker_topic_config_changed r g.broker_addr w.data_version || first)
        then record r {
          topic_queue_table =
              create_and_update_all g.broker_name w.topic_configs r.topic_queue_table;
        }
        else r
  ]

  unfoldable pub register_live : RouteInfo s → Registration → RouteInfo s
  register_live r g = elim (g.topic_config_wrapper) [
    | none ↦ r
    | some w ↦ record r {
      broker_live_table =
          insert g.broker_addr
            (record {
              last_update_timestamp = g.now;
              data_version = w.data_version;
              context = g.context;
              ha_server_addr = g.ha_server_addr;
            })
            r.broker_live_table;
    }
  ]

  unfoldable pub register_filters : RouteInfo s → Registration → RouteInfo s
  register_filters r g = elim (g.filter_server_list) [
    | none ↦ r
    | some [] ↦ record r { filter_server_table = erase g.broker_addr r.filter_server_table }
    | some (f ∷ fs) ↦ record r {
      filter_server_table = insert g.broker_addr (f ∷ fs) r.filter_server_table;
    }
  ]

  -- What a slave learns of its master.
  pub find_master : RouteInfo s → Registration → RegisterBrokerResult
  find_master r g =
      let unknown : RegisterBrokerResult = record { ha_server_addr = ""; master_addr = "" } in
      if g.broker_id == master_id
      then unknown
      else elim (lookup master_id (broker_data_of r g.broker_name).broker_addrs) [
        | none ↦ unknown
        | some addr ↦ if addr ≟ "" then unknown else elim (lookup addr r.broker_live_table) [
          | none ↦ unknown
          | some live ↦ record { ha_server_addr = live.ha_server_addr; master_addr = addr }
        ]
      ]

  unfoldable pub register_broker : RouteInfo s → Registration → RegisterBrokerResult × RouteInfo s
  register_broker r g =
      let first = register_first r g in
      let r' = register_filters (register_live (register_topics first (register_addr r g) g) g) g in
      (find_master r' g, r')
