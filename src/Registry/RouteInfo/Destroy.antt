-- ===== src/Registry/RouteInfo/Destroy.antt =====
-- `onChannelDestroy` and `scanNotActiveBroker`.
use ttstringgolangiot.Base.{
  ℕ, ◌+◌, ◌*◌, Bool, true, false, ◌&&◌, ◌==◌, Option, none, some, [], ◌∷◌, String, ltb,
  if◌then◌else◌, Dict, string_eq, ◌≟◌, lookup, erase,
}
use ttstringgolangiot.Registry.RouteInfo.{NameSet, BrokerData, BrokerLiveInfo, RouteInfo}
use ttstringgolangiot.Registry.RouteInfo.Remove.{Topics, cleaned, aborted, remove_topics}

-- The address whose connection was closed: of several, the last one visited.
pub find_addr : String → Option String → Dict String BrokerLiveInfo → Option String
find_addr context found [] = found
find_addr context found ((addr, live) ∷ t) =
    find_addr context (if live.context ≟ context then some addr else found) t

-- The first id of the address goes; the flag tells whether there was one.
unfoldable pub drop_addr : String → Dict ℕ String → Dict ℕ String × Bool
drop_addr addr [] = ([], false)
drop_addr addr ((id, a) ∷ addrs) =
    let rest : Dict ℕ String × Bool = drop_addr addr addrs in
    if a ≟ addr then (addrs, true) else ((id, a) ∷ rest.0, rest.1)

-- The loop over the brokers: its table, `brokerNameFound` and `removeBrokerName`.
pub record Found : Type 0 where
  pub table : Dict String BrokerData
  pub broker_name_found : String
  pub remove_broker_name : Bool

unfoldable pub destroy_addrs : String → String → Bool → Dict String BrokerData → Found
destroy_addrs addr found gone [] = record {
  table = [];
  broker_name_found = found;
  remove_broker_name = gone;
}
destroy_addrs addr found gone ((bn, d) ∷ t) =
    let dropped : Dict ℕ String × Bool = drop_addr addr d.broker_addrs in
    let name : String = if dropped.1 then d.broker_name else found in
    let kept : Found = destroy_addrs addr name gone t in
    let cut : Found = destroy_addrs addr name true t in
    if found ≟ ""
    then elim (dropped.0) [
      | [] ↦ cut
      | a ∷ left ↦ record kept { table = (bn, record d { broker_addrs = a ∷ left }) ∷ kept.table }
    ]
    else record { table = (bn, d) ∷ t; broker_name_found = found; remove_broker_name = gone }

module _ (s : NameSet) where
  -- The first cluster that has the broker's name.
  pub destroy_clusters : String → Dict String s.Names → Dict String s.Names
  destroy_clusters name [] = []
  destroy_clusters name ((cluster, names) ∷ t) =
      let rest = destroy_clusters name t in
      if ltb 0 (s.cardinality names) && s.contains name names
      then if s.cardinality (s.remove name names) == 0
        then t
        else (cluster, s.remove name names) ∷ t
      else (cluster, names) ∷ rest

  -- A panic is recovered where the lock is held, and nothing releases it.
  pub data Destroyed : Type 0 where
    unlocked : RouteInfo s → Destroyed
    left_locked : RouteInfo s → Destroyed

  abbrev with_topics : RouteInfo s → Topics → Destroyed
  with_topics r (cleaned t) = unlocked (record r { topic_queue_table = t })
  with_topics r (aborted t) = left_locked (record r { topic_queue_table = t })

  -- All but the topics.
  unfoldable pub destroy_but_topics : String → RouteInfo s → RouteInfo s
  destroy_but_topics addr r =
      let f = destroy_addrs addr "" false r.broker_addr_table in
      record r {
        broker_live_table = erase addr r.broker_live_table;
        filter_server_table = erase addr r.filter_server_table;
        broker_addr_table = f.table;
        cluster_addr_table =
            if f.remove_broker_name
            then if f.broker_name_found ≟ ""
              then r.cluster_addr_table
              else destroy_clusters f.broker_name_found r.cluster_addr_table
            else r.cluster_addr_table;
      }

  -- The queues are compared with the address, as the source does.
  unfoldable pub destroy : String → RouteInfo s → Destroyed
  destroy addr r =
      if (destroy_addrs addr "" false r.broker_addr_table).remove_broker_name
      then with_topics (destroy_but_topics addr r) (remove_topics addr r.topic_queue_table)
      else unlocked (destroy_but_topics addr r)

  pub addr_of : String → Option String → RouteInfo s → String
  addr_of remote none r = remote
  addr_of remote (some context) r = elim (find_addr context none r.broker_live_table) [
    | none ↦ remote
    | some addr ↦ addr
  ]

  unfoldable pub on_channel_destroy : String → Option String → RouteInfo s → Destroyed
  on_channel_destroy remote context r =
      let addr = addr_of remote context r in if addr ≟ "" then unlocked r else destroy addr r

  abbrev pub broker_channel_expired_time : ℕ
  broker_channel_expired_time = 1000 * 60 * 2

  -- The range is over the entries as they were, and passes over those deleted meanwhile.
  pub is_expired : ℕ → BrokerLiveInfo → Bool
  is_expired now live = ltb (live.last_update_timestamp + broker_channel_expired_time) now

  unfoldable pub scan_from : ℕ → Dict String BrokerLiveInfo → RouteInfo s → Destroyed
  scan_from now [] r = unlocked r
  scan_from now ((addr, live) ∷ t) r = elim (lookup addr r.broker_live_table) [
    | none ↦ scan_from now t r
    | some present ↦ elim (is_expired now live) [
      | false ↦ scan_from now t r
      | true ↦
          elim (on_channel_destroy addr (some live.context)
            (record r { broker_live_table = erase addr r.broker_live_table })) [
              | unlocked r' ↦ scan_from now t r'
              | left_locked r' ↦ left_locked r'
            ]
    ]
  ]

  pub scan_not_active_broker : ℕ → RouteInfo s → Destroyed
  scan_not_active_broker now r = scan_from now r.broker_live_table r
