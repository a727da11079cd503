-- ===== src/Broker/TopicConfig.antt =====
-- TopicConfigManager (stgbroker/topic_config_manager.go) with TopicConfigTable
-- (stgbroker/table/topic_config_table.go) and the version of the table (stgcommon/data_version.go):
-- the configurations of the topics of a broker. Writing the file and registering with the name
-- servers are counted. The clock is a parameter.
pub mod Check
pub mod Versions
pub mod Given
pub mod Laws
use Prim.Native.Nat.{bit_or}
use ttstringgolangiot.Base.{
  ℕ, suc, Bool, true, false, not, ◌||◌, Option, none, some, [], ◌∷◌, String, if◌then◌else◌, Dict,
  string_eq, ◌≟◌, lookup, insert, erase,
}
use ttstringgolangiot.Base.Int.{ℤ, pos, ltb_ℤ}
use ttstringgolangiot.Common.Flags.{is_inherited_perm}
use ttstringgolangiot.Store.Properties.{TopicFilterType, single_tag}

pub record TopicConfig : Type 0 where
  pub topic_name : String
  pub read_queue_nums : ℤ
  pub write_queue_nums : ℤ
  pub perm : ℕ
  pub topic_filter_type : TopicFilterType
  pub topic_sys_flag : ℕ
  pub order : Bool

-- `NewTopicConfig`: it can be read and written.
unfoldable pub new_topic_config : String → TopicConfig
new_topic_config name = record {
  topic_name = name;
  read_queue_nums = pos 16;
  write_queue_nums = pos 16;
  perm = 6;
  topic_filter_type = single_tag;
  topic_sys_flag = 0;
  order = false;
}

-- What the manager reads of the configuration of the broker.
pub record BrokerConfig : Type 0 where
  pub auto_create_topic_enable : Bool
  pub auto_create_subscription_group : Bool
  pub default_topic_queue_nums : ℤ
  pub broker_cluster_name : String
  pub cluster_topic_enable : Bool
  pub broker_name : String
  pub broker_topic_enable : Bool

-- `counter` and `timestamp` are the version of the table.
pub record TopicConfigManager : Type 0 where
  pub topic_config_table : Dict String TopicConfig
  pub counter : ℕ
  pub timestamp : ℕ
  pub persisted : ℕ
  pub registered : ℕ

abbrev default_topic : String
default_topic = "MY_DEFAULT_TOPIC"

abbrev with_queues : ℤ → TopicConfig → TopicConfig
with_queues n c = record c { read_queue_nums = n; write_queue_nums = n }

-- The permissions of the topics of the cluster and of the broker.
abbrev perm_if : Bool → ℕ
perm_if true = bit_or 1 (bit_or 4 2)
perm_if false = 1

abbrev put_config : TopicConfig → Dict String TopicConfig → Dict String TopicConfig
put_config c table = insert c.topic_name c table

-- `init`: the topics of the system.
pub init_topics : BrokerConfig → Dict String TopicConfig
init_topics config =
    let self_test = put_config (with_queues (pos 1) (new_topic_config "SELF_TEST_TOPIC")) [] in
    let default : TopicConfig =
      record (with_queues config.default_topic_queue_nums (new_topic_config default_topic)) {
        perm = perm_if true;
      } in
    let with_default =
      if config.auto_create_topic_enable then put_config default self_test else self_test in
    let with_benchmark =
      put_config (with_queues (pos 1024) (new_topic_config "BenchmarkTest")) with_default in
    let with_cluster =
      put_config
        (record (new_topic_config config.broker_cluster_name) {
          perm = perm_if config.cluster_topic_enable;
        })
        with_benchmark in
    let with_broker =
      put_config
        (record (with_queues (pos 1) (new_topic_config config.broker_name)) {
          perm = perm_if config.broker_topic_enable;
        })
        with_cluster in
    put_config (with_queues (pos 1) (new_topic_config "OFFSET_MOVED_EVENT")) with_broker

unfoldable pub is_topic_can_send_message : BrokerConfig → String → Bool
is_topic_can_send_message config topic =
    not (topic ≟ default_topic || topic ≟ config.broker_cluster_name)

unfoldable pub select_topic_config : String → TopicConfigManager → Option TopicConfig
select_topic_config topic m = lookup topic m.topic_config_table

-- A changed table: the next version (`NextVersion`) and the file.
unfoldable pub changed : ℕ → Dict String TopicConfig → TopicConfigManager → TopicConfigManager
changed now table m = record m {
  topic_config_table = table;
  counter = suc m.counter;
  timestamp = now;
  persisted = suc m.persisted;
}

-- A new topic is told to the name servers.
unfoldable pub created : ℕ → TopicConfig → TopicConfigManager → TopicConfigManager
created now c m = record (changed now (insert c.topic_name c m.topic_config_table) m) {
  registered = suc m.registered;
}

pub data CreateError : Type 0 where
  no_permissions : CreateError
  no_default_topic : CreateError

pub data Created : Type 0 where
  config_of : TopicConfig → Created
  fails : CreateError → Created

-- The queues that a client asks for, at most those of the default topic and not less than 0.
abbrev pub queue_nums : ℤ → TopicConfig → ℤ
queue_nums asked default =
    let n = if ltb_ℤ default.write_queue_nums asked then default.write_queue_nums else asked in
    if ltb_ℤ n (pos 0) then pos 0 else n

-- The permissions are computed from those of the default topic, and not given to the new topic.
abbrev pub from_default : String → ℤ → ℕ → TopicConfig → TopicConfig
from_default topic asked sys_flag default = record {
  topic_name = topic;
  read_queue_nums = queue_nums asked default;
  write_queue_nums = queue_nums asked default;
  perm = 0;
  topic_filter_type = default.topic_filter_type;
  topic_sys_flag = sys_flag;
  order = false;
}

unfoldable pub create_from :
    ℕ → String → ℤ → ℕ → Option TopicConfig → TopicConfigManager → Created × TopicConfigManager
create_from now topic asked sys_flag none m = (fails no_default_topic, m)
create_from now topic asked sys_flag (some default) m =
    let c = from_default topic asked sys_flag default in
    if is_inherited_perm default.perm
    then (config_of c, created now c m)
    else (fails no_permissions, m)

unfoldable pub create_topic_in_send_message_method :
    BrokerConfig → ℕ → String → String → ℤ → ℕ → TopicConfigManager → Created × TopicConfigManager
create_topic_in_send_message_method config now topic default asked sys_flag m =
    let create = create_from now topic asked sys_flag (lookup default m.topic_config_table) m in
    elim (lookup topic m.topic_config_table) [
      | some c ↦ (config_of c, m)
      | none ↦ if config.auto_create_topic_enable then create else (fails no_permissions, m)
    ]

unfoldable pub create_topic_in_send_message_back_method :
    ℕ → String → ℤ → ℕ → ℕ → TopicConfigManager → TopicConfig × TopicConfigManager
create_topic_in_send_message_back_method now topic asked perm sys_flag m =
    let c : TopicConfig = record {
      topic_name = topic;
      read_queue_nums = asked;
      write_queue_nums = asked;
      perm = perm;
      topic_filter_type = single_tag;
      topic_sys_flag = sys_flag;
      order = false;
    } in
    elim (lookup topic m.topic_config_table) [ some old ↦ (old, m) | none ↦ (c, created now c m) ]

unfoldable pub update_topic_config : ℕ → TopicConfig → TopicConfigManager → TopicConfigManager
update_topic_config now c m = changed now (insert c.topic_name c m.topic_config_table) m

unfoldable pub delete_topic_config : ℕ → String → TopicConfigManager → TopicConfigManager
delete_topic_config now topic m = elim (lookup topic m.topic_config_table) [
  | none ↦ m
  | some c ↦ changed now (erase topic m.topic_config_table) m
]

pub is_order_topic : String → TopicConfigManager → Bool
is_order_topic topic m = elim (lookup topic m.topic_config_table) [
  | none ↦ false
  | some c ↦ c.order
]

-- Whether a topic is a key of the table of ordered topics.
abbrev pub is_key : String → Dict String String → Bool
is_key topic orders = elim (lookup topic orders) [ none ↦ false | some v ↦ true ]

-- The two loops of `updateOrderTopicConfig`, with whether a configuration changed.
unfoldable pub update_orders :
    Dict String String → Dict String TopicConfig → Bool × Dict String TopicConfig
update_orders orders [] = (false, [])
update_orders orders ((topic, c) ∷ table) =
    let rest = update_orders orders table in
    let ordered = is_key topic orders in
    (
      (if ordered then not c.order else c.order) || rest.0,
      (topic, record c { order = ordered }) ∷ rest.1,
    )

unfoldable pub update_order_topic_config :
    ℕ → Option (Dict String String) → TopicConfigManager → TopicConfigManager
update_order_topic_config now none m = m
update_order_topic_config now (some orders) m =
    let updated = update_orders orders m.topic_config_table in
    if updated.0 then changed now updated.1 m else m
