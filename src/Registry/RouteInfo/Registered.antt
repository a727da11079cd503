-- ===== src/Registry/RouteInfo/Registered.antt =====
-- What the name server knows of a broker that has registered.
use ttstringgolangiot.Base.{
  ℕ, ◌≡◌, refl, ◌∙◌, Bool, true, some, List, [], ◌∷◌, String, nat_eq, string_eq, ≟_refl, lookup,
  insert, lookup-insert_self, lookup-insert_ne, ◌≢◌, Option-cases, inl, inr, arith,
}
use ttstringgolangiot.Registry.RouteInfo.{NameSet, BrokerData, RouteInfo}
use ttstringgolangiot.Registry.RouteInfo.Register.{
  Registration, register_first, register_addr, register_topics, register_live, register_filters,
  register_broker, names_of, broker_data_of,
}
use ttstringgolangiot.Registry.RouteInfo.Unregister.{in_cluster}

module _ (s : NameSet) (g : Registration) where
  topics-kept :
      (first : Bool) (r : RouteInfo s)
      → ((register_topics s first r g).broker_addr_table ≡ r.broker_addr_table)
        × ((register_topics s first r g).cluster_addr_table ≡ r.cluster_addr_table)
  unfolding register_topics
  topics-kept first r = ground (arith, Option-cases g.topic_config_wrapper)

  live-kept :
      (r : RouteInfo s)
      → ((register_live s r g).broker_addr_table ≡ r.broker_addr_table)
        × ((register_live s r g).cluster_addr_table ≡ r.cluster_addr_table)
  unfolding register_live
  live-kept r = ground (arith, Option-cases g.topic_config_wrapper)

  filters-kept :
      (r : RouteInfo s)
      → ((register_filters s r g).broker_addr_table ≡ r.broker_addr_table)
        × ((register_filters s r g).cluster_addr_table ≡ r.cluster_addr_table)
  unfolding register_filters
  filters-kept r = elim (Option-cases g.filter_server_list) [
    | inl no_list ↦ ground (arith, no_list)
    | inr (fs, e) ↦ go fs e
  ]
    where
      go :
          (fs : List String)
          → g.filter_server_list ≡ some fs
          → ((register_filters s r g).broker_addr_table ≡ r.broker_addr_table)
            × ((register_filters s r g).cluster_addr_table ≡ r.cluster_addr_table)
      go [] e = ground (arith, e)
      go (f ∷ fs) e = ground (arith, e)

  register_broker-tables :
      (r : RouteInfo s)
      → ((register_broker s r g).1.broker_addr_table ≡ (register_addr s r g).broker_addr_table)
        × ((register_broker s r g).1.cluster_addr_table ≡ (register_addr s r g).cluster_addr_table)
  unfolding register_broker
  register_broker-tables r =
      let r1 = register_addr s r g in
      let r2 = register_topics s (register_first s r g) r1 g in
      let r3 = register_live s r2 g in
      (
        (filters-kept r3).0 ∙ (live-kept r2).0 ∙ (topics-kept (register_first s r g) r1).0,
        (filters-kept r3).1 ∙ (live-kept r2).1 ∙ (topics-kept (register_first s r g) r1).1,
      )

  -- After a registration, whatever it brings, the broker's entry has the address under the id and
  -- every other id as before, the cluster lists the broker, and the entries of other brokers are
  -- as they were.
  pub register_broker_lem :
      (r : RouteInfo s)
      → let r' : RouteInfo s = (register_broker s r g).1 in
        ((d : BrokerData) × (lookup g.broker_name r'.broker_addr_table ≡ some d)
          × (lookup g.broker_id d.broker_addrs ≡ some g.broker_addr)
          × ((id : ℕ)
              → g.broker_id ≢ id
              → lookup id d.broker_addrs
                ≡ lookup id (broker_data_of s r g.broker_name).broker_addrs))
        × (in_cluster s g.cluster_name g.broker_name r'.cluster_addr_table ≡ true)
        × ((name : String)
            → g.broker_name ≢ name
            → lookup name r'.broker_addr_table ≡ lookup name r.broker_addr_table)
  unfolding register_addr in_cluster
  register_broker_lem r =
      let d = broker_data_of s r g.broker_name in
      let d' : BrokerData = record d {
        broker_addrs = insert g.broker_id g.broker_addr d.broker_addrs;
      } in
      let names = s.add g.broker_name (names_of s r g.cluster_name) in
      let (addrs, clusters) = register_broker-tables r in
      (
        (
          d',
          rw (addrs, lookup-insert_self g.broker_name d' r.broker_addr_table) refl,
          lookup-insert_self g.broker_id g.broker_addr d.broker_addrs,
          λ id ne. lookup-insert_ne g.broker_id id g.broker_addr d.broker_addrs ne,
        ),
        rw
            (
              clusters,
              in_cluster,
              lookup-insert_self g.cluster_name names r.cluster_addr_table,
              s.contains-add g.broker_name g.broker_name (names_of s r g.cluster_name),
              ≟_refl g.broker_name,
            )
            refl,
        λ name ne. rw addrs (lookup-insert_ne g.broker_name name d' r.broker_addr_table ne),
      )
