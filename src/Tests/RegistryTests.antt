-- ===== src/Tests/RegistryTests.antt =====
-- A configuration with two keys, and a name server with one broker that has one queue.
use ttstringgolangiot.Base.{
  ◌≢◌, true, ℕ, ◌≡◌, refl, Bool, false, ◌||◌, none, some, List, [], ◌∷◌, String, arith, string_eq,
  nat_eq, lookup, if◌then◌else◌, ◌≟◌, length,
}
use ttstringgolangiot.Registry.KvConfig.{
  ConfigTable, KvConfig, put_kv_config, delete_kv_config, delete_kv_config_by_value, get_kv_config,
}
use ttstringgolangiot.Registry.KvConfig.Leaks.{get_kv_config-leaks}
use ttstringgolangiot.Registry.RouteInfo.{BrokerData, NameSet, QueueData, RouteInfo}
use ttstringgolangiot.Registry.RouteInfo.Slice.{finished, remove_queues}
use ttstringgolangiot.Registry.RouteInfo.Queues.{
  OneEach, has_broker, without, remove_queues-OneEach,
}
use ttstringgolangiot.Registry.RouteInfo.Remove.{un_register_broker}
use ttstringgolangiot.Registry.RouteInfo.Unregister.{
  AllOneEach, has_queue, in_cluster, un_register_broker-last,
}
use ttstringgolangiot.Registry.RouteInfo.Register.{Registration, register_broker, broker_data_of}
use ttstringgolangiot.Registry.RouteInfo.Registered.{register_broker_lem}

abbrev no_bytes : ConfigTable → List ℕ
no_bytes t = []

abbrev two_keys : KvConfig
two_keys = record {
  config_table = ("n", ("a", "1") ∷ ("b", "2") ∷ []) ∷ [];
  readers = 0;
  file = [];
}

get_kv_config-leaks_example :
    let (answer, m') = get_kv_config "n" "a" two_keys in
    (answer ≡ "1")
    × ((ns k w : String) → put_kv_config no_bytes ns k w m' ≡ none)
    × ((ns k : String) → delete_kv_config no_bytes ns k m' ≡ none)
    × ((ns w : String) → delete_kv_config_by_value no_bytes ns w m' ≡ none)
get_kv_config-leaks_example = get_kv_config-leaks no_bytes "n" "a" "1" two_keys refl

-- A set of names as a list.
abbrev list_contains : String → List String → Bool
list_contains n [] = false
list_contains n (m ∷ ms) = (m ≟ n) || list_contains n ms

abbrev list_remove : String → List String → List String
list_remove n [] = []
list_remove n (m ∷ ms) = let rest = list_remove n ms in if m ≟ n then rest else m ∷ rest

pub contains-list_remove :
    (m n : String) (s : List String)
    → list_contains n (list_remove m s) ≡ (if m ≟ n then false else list_contains n s)
contains-list_remove m n [] = ground arith
contains-list_remove m n (k ∷ s) = ground (
  arith,
  contains-list_remove m n s,
  string_eq.beq_iff k m,
  string_eq.beq_iff k n,
  string_eq.beq_iff m n,
)

abbrev pub list_set : NameSet
list_set = record {
  Names = List String;
  new_set = [];
  add = λ n s. n ∷ s;
  remove = list_remove;
  contains = list_contains;
  cardinality = length;
  contains-new_set = λ n. refl;
  contains-add = λ m n s. refl;
  contains-remove = contains-list_remove;
}

abbrev pub queue_of : String → QueueData
queue_of name = record {
  broker_name = name;
  read_queue_nums = 4;
  write_queue_nums = 4;
  perm = 6;
  topic_syn_flag = 0;
}

abbrev pub two_queues : List QueueData
two_queues = queue_of "b" ∷ queue_of "c" ∷ []

abbrev pub names_b_c : RouteInfo list_set
names_b_c = record {
  topic_queue_table = ("t", two_queues) ∷ [];
  broker_addr_table = ("b", record { broker_name = "b"; broker_addrs = (0, "ip:1") ∷ [] }) ∷ [];
  cluster_addr_table = ("cl", "b" ∷ "c" ∷ []) ∷ [];
  broker_live_table = [];
  filter_server_table = [];
}

two_queues-OneEach : OneEach two_queues
unfolding OneEach has_broker
two_queues-OneEach = (refl, (refl, tt))

topics-AllOneEach : AllOneEach names_b_c.topic_queue_table
unfolding AllOneEach
topics-AllOneEach = (two_queues-OneEach, tt)

remove_queues-OneEach_example : remove_queues "b" two_queues ≡ finished (queue_of "c" ∷ [])
unfolding without
remove_queues-OneEach_example = remove_queues-OneEach "b" two_queues two_queues-OneEach

un_register_broker-last_example :
    let r' : RouteInfo list_set = un_register_broker list_set "cl" "ip:1" "b" 0 names_b_c in
    (lookup "ip:1" r'.broker_live_table ≡ none)
    × (lookup "ip:1" r'.filter_server_table ≡ none)
    × (lookup "b" r'.broker_addr_table ≡ none)
    × (in_cluster list_set "cl" "b" r'.cluster_addr_table ≡ false)
    × ((n : String)
        → has_queue n r'.topic_queue_table
          ≡ (if "b" ≟ n then false else has_queue n names_b_c.topic_queue_table))
un_register_broker-last_example =
    un_register_broker-last list_set "cl" "ip:1" "b" 0 names_b_c
      (record { broker_name = "b"; broker_addrs = (0, "ip:1") ∷ [] }) refl refl topics-AllOneEach

abbrev slave_registration : Registration
slave_registration = record {
  cluster_name = "cl";
  broker_addr = "ip:2";
  broker_name = "b";
  broker_id = 1;
  ha_server_addr = "ip:3";
  topic_config_wrapper = none;
  filter_server_list = none;
  context = "ip:4";
  now = 5;
}

register_broker_lem_example :
    let r' : RouteInfo list_set = (register_broker list_set names_b_c slave_registration).1 in
    ((d : BrokerData) × (lookup "b" r'.broker_addr_table ≡ some d)
      × (lookup 1 d.broker_addrs ≡ some "ip:2")
      × ((id : ℕ)
          → 1 ≢ id
          → lookup id d.broker_addrs
            ≡ lookup id (broker_data_of list_set names_b_c "b").broker_addrs))
    × (in_cluster list_set "cl" "b" r'.cluster_addr_table ≡ true)
    × ((name : String)
        → "b" ≢ name
        → lookup name r'.broker_addr_table ≡ lookup name names_b_c.broker_addr_table)
register_broker_lem_example = register_broker_lem list_set slave_registration names_b_c
