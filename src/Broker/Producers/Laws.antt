-- ===== src/Broker/Producers/Laws.antt =====
-- What is left of a producer that goes.
use ttstringgolangiot.Base.{
  ℕ, ◌≡◌, refl, ap, ◌∙◌, inl, inr, Option, none, some, List, [], ◌∷◌, String, arith, ◌%◌, ◌<◌,
  length, Dict, string_eq, ≟_refl, lookup, insert, erase, lookup-insert_self, lookup-erase_self,
  Bool-cases,
}
use ttstringgolangiot.Base.Int.{ℤ, int_eq}
use ttstringgolangiot.Store.Properties.{bytes_eq, hash_code, same_bytes}
use ttstringgolangiot.Broker.Producers.{
  ChannelInfo, Channels, ProducerManager, contains, register_channel, register_producer,
  unregister_producer, drop_group, keep_group, change_groups, do_channel_close_event,
  pick_producer_channel_randomly,
}

-- A group that is found has channels, and none of the address.
IsFree : String → Option Channels → Type 0
IsFree context_addr none = Unit
IsFree context_addr (some channels) = (lookup context_addr channels ≡ none) × (0 < length channels)

keep_group-IsFree :
    (context_addr : String) (group g : List ℕ) (channels : Channels)
    (table : Dict (List ℕ) Channels)
    → lookup context_addr channels ≡ none
    → IsFree context_addr (lookup group table)
    → IsFree context_addr (lookup group (keep_group g channels table))
unfolding IsFree
keep_group-IsFree context_addr group g [] table gone rest = rest
keep_group-IsFree context_addr group g (c ∷ channels) table gone rest =
    elim (Bool-cases (same_bytes g group)) [
      | inl e ↦ rw (lookup, e) (gone, omega arith)
      | inr e ↦ rw (lookup, e) rest
    ]

change_groups-IsFree :
    (context_addr : String) (group : List ℕ) (table : Dict (List ℕ) Channels)
    → IsFree context_addr (lookup group (change_groups (erase context_addr) table))
unfolding change_groups IsFree
change_groups-IsFree context_addr group [] = tt
change_groups-IsFree context_addr group ((g, channels) ∷ table) =
    keep_group-IsFree context_addr group g (erase context_addr channels)
      (change_groups (erase context_addr) table) (lookup-erase_self context_addr channels)
      (change_groups-IsFree context_addr group table)

-- After a connection was closed, every group that is found has channels and none of it.
pub do_channel_close_event_lem :
    (context_addr : String) (m : ProducerManager) (group : List ℕ) (channels : Channels)
    → lookup group (do_channel_close_event context_addr m).group_channel_table ≡ some channels
    → (lookup context_addr channels ≡ none) × (0 < length channels)
unfolding do_channel_close_event IsFree
do_channel_close_event_lem context_addr m group channels e =
    let free = change_groups-IsFree context_addr group m.group_channel_table in rw e at free

-- A producer of a group that has no other is still picked after its connection was closed.
pub pick_producer_channel_randomly-closed :
    (now : ℤ) (random : ℕ) (group : List ℕ) (info : ChannelInfo) (m : ProducerManager)
    → lookup (hash_code group) m.hashcode_channel_table ≡ none
    → pick_producer_channel_randomly random
        (hash_code group)
        (do_channel_close_event info.context_addr (register_producer now group info m))
      ≡ some info
unfolding pick_producer_channel_randomly do_channel_close_event register_producer contains
pick_producer_channel_randomly-closed now random group info m none_before =
    let listed : lookup (hash_code group)
          (do_channel_close_event info.context_addr
            (register_producer now group info m)).hashcode_channel_table
        ≡ some (info ∷ []) =
      rw none_before (lookup-insert_self (hash_code group) (info ∷ []) m.hashcode_channel_table) in
    let first : random % 1 ≡ 0 = omega arith in
    rw (pick_producer_channel_randomly, listed, first) refl

drop_group-some :
    (group : List ℕ) (channels : Channels) (table : Dict (List ℕ) Channels)
    → lookup group table ≡ some channels
    → lookup group (drop_group group table) ≡ some channels
drop_group-some group channels [] e = e
drop_group-some group channels (x ∷ table) e = e

unregister_producer-known :
    (group : List ℕ) (info : ChannelInfo) (m : ProducerManager) (channels : Channels)
    → lookup group m.group_channel_table ≡ some channels
    → lookup group (unregister_producer group info m).group_channel_table
      ≡ some (erase info.context_addr channels)
unfolding unregister_producer
unregister_producer-known group info m channels found =
    let left = erase info.context_addr channels in
    rw (unregister_producer, found)
      (drop_group-some group left (insert group left m.group_channel_table)
        (lookup-insert_self group left m.group_channel_table))

-- A group whose only producer registers and unregisters stays in the table, without channels.
pub unregister_producer-empty_group :
    (now : ℤ) (group : List ℕ) (info : ChannelInfo) (m : ProducerManager)
    → lookup group m.group_channel_table ≡ none
    → lookup group
        (unregister_producer group info (register_producer now group info m)).group_channel_table
      ≡ some []
unfolding register_producer register_channel
unregister_producer-empty_group now group info m new =
    let registered = (register_producer now group info m).group_channel_table in
    let found : lookup group registered ≡ some ((info.context_addr, info) ∷ []) =
      rw new (lookup-insert_self group ((info.context_addr, info) ∷ []) m.group_channel_table) in
    let nothing : erase info.context_addr ((info.context_addr, info) ∷ []) ≡ [] =
      rw (≟_refl info.context_addr) refl in
    unregister_producer-known group info (register_producer now group info m)
      ((info.context_addr, info) ∷ []) found
    ∙ ap some nothing
