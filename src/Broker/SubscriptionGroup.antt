-- ===== src/Broker/SubscriptionGroup.antt =====
-- SubscriptionGroupManager (stgbroker/subscription_group_manager.go) with the configuration of a
-- group (stgcommon/subscription/subscription_group_config.go). Writing the file is counted; the
-- clock is a parameter.
use ttstringgolangiot.Base.{
  ℕ, suc, ◌≡◌, refl, inl, inr, Bool, true, Option, none, some, [], String, if◌then◌else◌, Dict,
  string_eq, lookup, insert, erase, lookup-insert_self, Bool-cases, Option-cases,
}
use ttstringgolangiot.Base.Int.{ℤ, pos}

pub record SubscriptionGroupConfig : Type 0 where
  pub group_name : String
  pub consume_enable : Bool
  pub consume_from_min_enable : Bool
  pub consume_broadcast_enable : Bool
  pub retry_queue_nums : ℤ
  pub retry_max_times : ℤ
  pub broker_id : ℤ
  pub which_broker_when_consume_slowly : ℤ

-- `NewSubscriptionGroupConfig`, with the name that it is given after.
unfoldable pub new_subscription_group_config : String → SubscriptionGroupConfig
new_subscription_group_config name = record {
  group_name = name;
  consume_enable = true;
  consume_from_min_enable = true;
  consume_broadcast_enable = true;
  retry_queue_nums = pos 1;
  retry_max_times = pos 16;
  broker_id = pos 0;
  which_broker_when_consume_slowly = pos 0;
}

pub record SubscriptionGroupManager : Type 0 where
  pub subscription_group_table : Dict String SubscriptionGroupConfig
  pub counter : ℕ
  pub timestamp : ℕ
  pub persisted : ℕ

abbrev put_new : String → Dict String SubscriptionGroupConfig → Dict String SubscriptionGroupConfig
put_new name table = insert name (new_subscription_group_config name) table

-- `init`.
pub init_groups : Dict String SubscriptionGroupConfig
init_groups =
    put_new "SELF_TEST_C_GROUP" (put_new "FILTERSRV_CONSUMER" (put_new "TOOLS_CONSUMER" []))

unfoldable pub changed :
    ℕ → Dict String SubscriptionGroupConfig → SubscriptionGroupManager → SubscriptionGroupManager
changed now table m = record m {
  subscription_group_table = table;
  counter = suc m.counter;
  timestamp = now;
  persisted = suc m.persisted;
}

unfoldable pub find_subscription_group_config :
    Bool
    → ℕ
    → String
    → SubscriptionGroupManager
    → Option SubscriptionGroupConfig × SubscriptionGroupManager
find_subscription_group_config auto_create now group m =
    let new = new_subscription_group_config group in
    elim (lookup group m.subscription_group_table) [
      | some c ↦ (some c, m)
      | none ↦
          if auto_create
          then (some new, changed now (insert group new m.subscription_group_table) m)
          else (none, m)
    ]

unfoldable pub update_subscription_group_config :
    ℕ → SubscriptionGroupConfig → SubscriptionGroupManager → SubscriptionGroupManager
update_subscription_group_config now c m =
    changed now (insert c.group_name c m.subscription_group_table) m

unfoldable pub delete_subscription_group_config :
    ℕ → String → SubscriptionGroupManager → SubscriptionGroupManager
delete_subscription_group_config now group m = elim (lookup group m.subscription_group_table) [
  | none ↦ m
  | some c ↦ changed now (erase group m.subscription_group_table) m
]

find_known :
    (auto_create : Bool) (now : ℕ) (group : String) (m : SubscriptionGroupManager)
    (c : SubscriptionGroupConfig)
    → lookup group m.subscription_group_table ≡ some c
    → find_subscription_group_config auto_create now group m ≡ (some c, m)
unfolding find_subscription_group_config
find_known auto_create now group m c e = rw (find_subscription_group_config, e) refl

-- Looking for a group twice gives the same as looking for it once, whether it is made or not.
pub find_subscription_group_config-twice :
    (auto_create : Bool) (now later : ℕ) (group : String) (m : SubscriptionGroupManager)
    → find_subscription_group_config auto_create later group
        (find_subscription_group_config auto_create now group m).1
      ≡ find_subscription_group_config auto_create now group m
unfolding find_subscription_group_config changed
find_subscription_group_config-twice auto_create now later group m =
    let new = new_subscription_group_config group in
    let made = changed now (insert group new m.subscription_group_table) m in
    elim (Option-cases (lookup group m.subscription_group_table)) [
      | inr (c, e) ↦
          rw (find_known auto_create now group m c e) (find_known auto_create later group m c e)
      | inl e ↦ elim (Bool-cases auto_create) [
        | inl a ↦
            let first : find_subscription_group_config auto_create now group m ≡ (some new, made) =
              rw (find_subscription_group_config, e, a) refl in
            rw first (
              find_known auto_create later group made new
                (lookup-insert_self group new m.subscription_group_table))
        | inr a ↦
            let first : find_subscription_group_config auto_create now group m ≡ (none, m) =
              rw (find_subscription_group_config, e, a) refl in
            rw first (rw (find_subscription_group_config, e, a) refl)
      ]
    ]
