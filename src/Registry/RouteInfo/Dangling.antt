-- ===== src/Registry/RouteInfo/Dangling.antt =====
-- `onChannelDestroy` compares the queues' broker names with the address of the broker.
use ttstringgolangiot.Base.{
  ◌≡◌, refl, ap, ◌∙◌, false, List, [], ◌∷◌, String, Dict, string_eq, lookup, none,
  lookup-erase_self, arith, Bool-cases, inl, inr,
}
use ttstringgolangiot.Registry.RouteInfo.{NameSet, QueueData, RouteInfo}
use ttstringgolangiot.Registry.RouteInfo.Queues.{has_broker, without}
use ttstringgolangiot.Registry.RouteInfo.Remove.{remove_topics, cleaned}
use ttstringgolangiot.Registry.RouteInfo.Unregister.{
  AllOneEach, with_queues, table_without, has_queue, remove_topics-AllOneEach,
}
use ttstringgolangiot.Registry.RouteInfo.Destroy.{
  destroy_addrs, unlocked, destroy, destroy_but_topics,
}

-- Every topic has a queue.
unfoldable pub NoneEmpty : Dict String (List QueueData) → Type 0
NoneEmpty [] = Unit
NoneEmpty ((topic, []) ∷ t) = ⊥
NoneEmpty ((topic, q ∷ qs) ∷ t) = NoneEmpty t

without-none :
    (name : String) (qs : List QueueData) → has_broker name qs ≡ false → without name qs ≡ qs
unfolding has_broker without
without-none name [] h = refl
without-none name (q ∷ qs) h = ground (arith, without-none name qs (ground arith))

table_without-none :
    (name : String) (t : Dict String (List QueueData))
    → has_queue name t ≡ false
    → NoneEmpty t
    → table_without name t ≡ t
unfolding table_without has_queue NoneEmpty with_queues
table_without-none name [] h filled = refl
table_without-none name ((topic, []) ∷ t) h filled = absurd filled
table_without-none name ((topic, q ∷ qs) ∷ t) h filled =
    rw (without-none name (q ∷ qs) (ground arith), table_without-none name t (ground arith) filled)

module _ (s : NameSet) where
  destroy-unlocked :
      (addr : String) (r : RouteInfo s)
      → has_queue addr r.topic_queue_table ≡ false
      → NoneEmpty r.topic_queue_table
      → AllOneEach r.topic_queue_table
      → destroy s addr r ≡ unlocked (destroy_but_topics s addr r)
  unfolding destroy destroy_but_topics
  destroy-unlocked addr r absent filled one =
      let topics : remove_topics addr r.topic_queue_table ≡ cleaned r.topic_queue_table =
        remove_topics-AllOneEach addr r.topic_queue_table one
        ∙ ap cleaned (table_without-none addr r.topic_queue_table absent filled) in
      elim (Bool-cases (destroy_addrs addr "" false r.broker_addr_table).remove_broker_name) [
        | inl gone ↦ rw (gone, topics) refl
        | inr stays ↦ rw stays refl
      ]

  -- When no queue has the address as its broker's name, no topic is without queues and none has two
  -- entries of one broker, the loss of a broker's connection releases the lock and leaves the queues
  -- of every topic as they are, also those of a broker whose last address it was; the address itself
  -- leaves the live brokers and the filter servers.
  pub destroy-dangling :
      (addr : String) (r : RouteInfo s)
      → has_queue addr r.topic_queue_table ≡ false
      → NoneEmpty r.topic_queue_table
      → AllOneEach r.topic_queue_table
      → (r' : RouteInfo s) × (destroy s addr r ≡ unlocked r')
        × (r'.topic_queue_table ≡ r.topic_queue_table)
        × (r'.broker_addr_table ≡ (destroy_addrs addr "" false r.broker_addr_table).table)
        × (lookup addr r'.broker_live_table ≡ none)
        × (lookup addr r'.filter_server_table ≡ none)
  unfolding destroy_but_topics
  destroy-dangling addr r absent filled one = (
    destroy_but_topics s addr r,
    destroy-unlocked addr r absent filled one,
    refl,
    refl,
    lookup-erase_self addr r.broker_live_table,
    lookup-erase_self addr r.filter_server_table,
  )
