-- ===== src/Broker/Producers.antt =====
-- ProducerManager (stgbroker/client/producer_manager.go) with ProducerGroupConnTable
-- (stgbroker/client/producer_group_conn_table.go): the connections of the producers of each group,
-- by group and by the hash code of its name. The two tables share the channels, whose times are
-- read in the first only. The clock and the random numbers are parameters; closing a connection is
-- not in the state.
pub mod Laws
use ttstringgolangiot.Base.{
  ℕ, ◌+◌, ◌-◌, ◌%◌, Bool, true, false, Option, none, some, List, [], ◌∷◌, ◌++◌, String,
  if◌then◌else◌, length, get_elem?, Dict, string_eq, ◌≟◌, lookup, insert, erase,
}
use ttstringgolangiot.Base.Int.{ℤ, pos, ◌-ℤ◌, ltb_ℤ, int_eq}
use ttstringgolangiot.Store.Properties.{bytes_eq, hash_code}

-- `context_addr` is the address of the connection, `addr` that which the client names.
pub record ChannelInfo : Type 0 where
  pub context_addr : String
  pub client_id : String
  pub addr : String
  pub last_update_timestamp : ℤ

abbrev pub Channels : Type 0
Channels = Dict String ChannelInfo

pub record ProducerManager : Type 0 where
  pub group_channel_table : Dict (List ℕ) Channels
  pub hashcode_channel_table : Dict ℤ (List ChannelInfo)

abbrev pub channel_expired_timeout : ℤ
channel_expired_timeout = pos 120000

abbrev pub or_no_channels : Option Channels → Channels
or_no_channels none = []
or_no_channels (some channels) = channels

abbrev pub or_no_list : Option (List ChannelInfo) → List ChannelInfo
or_no_list none = []
or_no_list (some channels) = channels

unfoldable pub contains : ChannelInfo → List ChannelInfo → Bool
contains info [] = false
contains info (c ∷ cs) = let rest = contains info cs in if c.addr ≟ info.addr then true else rest

-- `remove` takes the first channel with the address.
unfoldable pub remove : ChannelInfo → List ChannelInfo → List ChannelInfo
remove info [] = []
remove info (c ∷ cs) = let rest = remove info cs in if c.addr ≟ info.addr then cs else c ∷ rest

-- The channel of a connection that is known is only seen again.
unfoldable pub register_channel : ℤ → ChannelInfo → Channels → Channels
register_channel now info channels = elim (lookup info.context_addr channels) [
  | none ↦ insert info.context_addr info channels
  | some c ↦ insert info.context_addr (record c { last_update_timestamp = now }) channels
]

abbrev pub add_channel : ChannelInfo → List ChannelInfo → List ChannelInfo
add_channel info cs = if contains info cs then cs else cs ++ (info ∷ [])

unfoldable pub register_producer : ℤ → List ℕ → ChannelInfo → ProducerManager → ProducerManager
register_producer now group info m = record m {
  group_channel_table =
      insert group (register_channel now info (or_no_channels (lookup group m.group_channel_table)))
        m.group_channel_table;
  hashcode_channel_table =
      insert (hash_code group)
        (add_channel info (or_no_list (lookup (hash_code group) m.hashcode_channel_table)))
        m.hashcode_channel_table;
}

-- The code asks whether the table of all groups is empty, not that of the group.
abbrev pub drop_group : List ℕ → Dict (List ℕ) Channels → Dict (List ℕ) Channels
drop_group group [] = erase group []
drop_group group (e ∷ table) = e ∷ table

abbrev pub set_list : ℤ → List ChannelInfo → Dict ℤ (List ChannelInfo) → Dict ℤ (List ChannelInfo)
set_list hash [] table = erase hash table
set_list hash (c ∷ cs) table = insert hash (c ∷ cs) table

abbrev pub remove_from_list :
    ℤ
    → ChannelInfo
    → Option (List ChannelInfo)
    → Dict ℤ (List ChannelInfo)
    → Dict ℤ (List ChannelInfo)
remove_from_list hash info none table = table
remove_from_list hash info (some []) table = table
remove_from_list hash info (some (c ∷ cs)) table = set_list hash (remove info (c ∷ cs)) table

unfoldable pub unregister_producer : List ℕ → ChannelInfo → ProducerManager → ProducerManager
unregister_producer group info m =
    let hash = hash_code group in
    record m {
      group_channel_table = elim (lookup group m.group_channel_table) [
        | none ↦ m.group_channel_table
        | some channels ↦
            drop_group group (insert group (erase info.context_addr channels) m.group_channel_table)
      ];
      hashcode_channel_table =
          remove_from_list hash info (lookup hash m.hashcode_channel_table)
            m.hashcode_channel_table;
    }

-- A group without channels goes.
abbrev pub keep_group : List ℕ → Channels → Dict (List ℕ) Channels → Dict (List ℕ) Channels
keep_group group [] table = table
keep_group group (c ∷ channels) table = (group, c ∷ channels) ∷ table

abbrev pub is_expired : ℤ → ChannelInfo → Bool
is_expired now c = ltb_ℤ channel_expired_timeout (now -ℤ c.last_update_timestamp)

unfoldable pub live_channels : ℤ → Channels → Channels
live_channels now [] = []
live_channels now ((addr, c) ∷ channels) =
    let rest = live_channels now channels in if is_expired now c then rest else (addr, c) ∷ rest

unfoldable pub change_groups :
    (Channels → Channels) → Dict (List ℕ) Channels → Dict (List ℕ) Channels
change_groups f [] = []
change_groups f ((group, channels) ∷ table) = keep_group group (f channels) (change_groups f table)

unfoldable pub scan_not_active_channel : ℤ → ProducerManager → ProducerManager
scan_not_active_channel now m = record m {
  group_channel_table = change_groups (live_channels now) m.group_channel_table;
}

unfoldable pub do_channel_close_event : String → ProducerManager → ProducerManager
do_channel_close_event context_addr m = record m {
  group_channel_table = change_groups (erase context_addr) m.group_channel_table;
}

-- `PickProducerChannelRandomly`.
unfoldable pub pick_producer_channel_randomly : ℕ → ℤ → ProducerManager → Option ChannelInfo
pick_producer_channel_randomly random hash m = elim (lookup hash m.hashcode_channel_table) [
  | none ↦ none
  | some [] ↦ none
  | some (c ∷ cs) ↦ get_elem? (c ∷ cs) (random % length (c ∷ cs))
]
