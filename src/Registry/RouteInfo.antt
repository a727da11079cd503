-- ===== src/Registry/RouteInfo.antt =====
-- RouteInfoManager (stgregistry/registry/route_info_manager.go) with QueueData and BrokerData
-- (stgcommon/protocol/route/topic_route_data.go): what the name server knows of the brokers.
-- A call is modelled when nobody else changes the tables meanwhile, so it is a function of the
-- state. The tables hold no nil slice, pointer or map. Go visits a map in any order: the order is that of the list. The sets
-- of broker names are golang-set's, and a parameter of the operations (`NameSet`).
pub mod Slice
pub mod Register
pub mod Remove
pub mod Destroy
pub mod Queues
pub mod Unregister
pub mod Dangling
pub mod Registered
pub mod Pickup
use ttstringgolangiot.Base.{
  ℕ, ◌≡◌, ◌↔◌, Bool, true, false, ◌&&◌, ◌||◌, Option, none, some, List, String, ◌==◌, if◌then◌else◌,
  Dict, string_eq, ◌≟◌,
}
use ttstringgolangiot.Base.Text.{equal_fold}

-- What the manager uses of a set of golang-set, and how those calls behave.
pub record NameSet : Type 1 where
  pub Names : Type 0
  pub new_set : Names
  pub add : String → Names → Names
  pub remove : String → Names → Names
  pub contains : String → Names → Bool
  pub cardinality : Names → ℕ
  pub contains-new_set : (n : String) → contains n new_set ≡ false
  pub contains-add : (m n : String) (s : Names) → contains n (add m s) ≡ ((m ≟ n) || contains n s)
  pub contains-remove :
      (m n : String) (s : Names) → contains n (remove m s) ≡ (if m ≟ n then false else contains n s)

pub record QueueData : Type 0 where
  pub broker_name : String
  pub read_queue_nums : ℕ
  pub write_queue_nums : ℕ
  pub perm : ℕ
  pub topic_syn_flag : ℕ

pub record BrokerData : Type 0 where
  pub broker_name : String
  pub broker_addrs : Dict ℕ String

pub record DataVersion : Type 0 where
  pub timestamp : ℕ
  pub counter : ℕ

-- The connection is known by its remote address.
pub record BrokerLiveInfo : Type 0 where
  pub last_update_timestamp : ℕ
  pub data_version : Option DataVersion
  pub context : String
  pub ha_server_addr : String

pub record TopicConfig : Type 0 where
  pub topic_name : String
  pub read_queue_nums : ℕ
  pub write_queue_nums : ℕ
  pub perm : ℕ
  pub topic_sys_flag : ℕ

-- TopicConfigSerializeWrapper, its table as the list of its configs in the order of `Foreach`.
pub record TopicConfigWrapper : Type 0 where
  pub data_version : Option DataVersion
  pub topic_configs : List TopicConfig

pub record RouteInfo (s : NameSet) : Type 0 where
  pub topic_queue_table : Dict String (List QueueData)
  pub broker_addr_table : Dict String BrokerData
  pub cluster_addr_table : Dict String s.Names
  pub broker_live_table : Dict String BrokerLiveInfo
  pub filter_server_table : Dict String (List String)

abbrev pub master_id : ℕ
master_id = 0

-- `DataVersion.Equals`, with its tests for nil.
pub data_version_equals : Option DataVersion → Option DataVersion → Bool
data_version_equals none none = true
data_version_equals none (some w) = false
data_version_equals (some v) none = false
data_version_equals (some v) (some w) = v.timestamp == w.timestamp && v.counter == w.counter

-- `NewQueueData`.
pub new_queue_data : String → TopicConfig → QueueData
new_queue_data broker_name c = record {
  broker_name = broker_name;
  read_queue_nums = c.read_queue_nums;
  write_queue_nums = c.write_queue_nums;
  perm = c.perm;
  topic_syn_flag = c.topic_sys_flag;
}

-- `QueueData.Equals`.
pub queue_data_equals : QueueData → QueueData → Bool
queue_data_equals q r =
    equal_fold q.broker_name r.broker_name
    && q.perm == r.perm
    && q.write_queue_nums == r.write_queue_nums
    && q.read_queue_nums == r.read_queue_nums
    && q.topic_syn_flag == r.topic_syn_flag
