-- ===== src/Registry/KvConfig.antt =====
-- KVConfigManager (stgregistry/registry/kv_config_manager.go): the name server's key-value table,
-- its read-write lock and the file that it is persisted to.
-- `none` is a call that waits for the lock for ever. A call is modelled when nobody else holds or
-- waits for the lock meanwhile, so what is left of the lock is the number of readers that have not
-- unlocked; a writer waits while there is one. The encoding of the table (ffjson) is a parameter.
pub mod Laws
pub mod Leaks
use ttstringgolangiot.Base.{
  ℕ, suc, ◌+◌, Bool, true, false, Option, none, some, List, [], ◌∷◌, ◌++◌, String, ◌==◌,
  if◌then◌else◌, ◌≟◌, Dict, string_eq, lookup, insert, erase,
}

abbrev pub KvTable : Type 0
KvTable = Dict String String

abbrev pub ConfigTable : Type 0
ConfigTable = Dict String KvTable

pub record KvConfig : Type 0 where
  pub config_table : ConfigTable
  pub readers : ℕ
  pub file : List ℕ

abbrev pub table_of : ConfigTable → String → KvTable
table_of t namespace = elim (lookup namespace t) [ none ↦ [] | some kv ↦ kv ]

-- What a section under the write lock does with the table.
abbrev pub write : KvConfig → (ConfigTable → ConfigTable) → Option KvConfig
write m f = if m.readers == 0 then some (record m { config_table = f m.config_table }) else none

-- The entries of a table that `deleteKVConfigByValue` deletes.
pub delete_value : String → KvTable → KvTable → KvTable
delete_value value [] kv = kv
delete_value value ((k, v) ∷ clone) kv =
    delete_value value clone (if v ≟ value then erase k kv else kv)

-- The keys of the value, joined by `;`.
pub keys_of : String → KvTable → List String
keys_of value [] = []
keys_of value ((k, v) ∷ kv) = let rest = keys_of value kv in if v ≟ value then k ∷ rest else rest

module _ (encode : ConfigTable → List ℕ) where
  -- `persist`: with nothing to write it returns with the read lock held.
  pub persist : KvConfig → KvConfig
  persist m = elim (encode m.config_table) [
    | [] ↦ record m { readers = suc m.readers }
    | b ∷ bs ↦ record m { file = b ∷ bs }
  ]

  abbrev then_persist : Option KvConfig → Option KvConfig
  then_persist none = none
  then_persist (some m) = some (persist m)

  pub put_kv_config : String → String → String → KvConfig → Option KvConfig
  put_kv_config namespace key value m =
      then_persist (write m (λ t. insert namespace (insert key value (table_of t namespace)) t))

  pub delete_kv_config : String → String → KvConfig → Option KvConfig
  delete_kv_config namespace key m = then_persist (
      write m
        (λ t. elim (lookup namespace t) [ none ↦ t | some kv ↦ insert namespace (erase key kv) t ]))

  pub delete_kv_config_by_value : String → String → KvConfig → Option KvConfig
  delete_kv_config_by_value namespace value m = then_persist (
      write m (λ t. elim (lookup namespace t) [
        | none ↦ t
        | some kv ↦ insert namespace (delete_value value kv kv) t
      ]))

-- The three readers return from inside the branch that has found something, without unlocking.
pub get_kv_config : String → String → KvConfig → String × KvConfig
get_kv_config namespace key m = elim (lookup namespace m.config_table) [
  | none ↦ ("", m)
  | some kv ↦ elim (lookup key kv) [
    | none ↦ ("", m)
    | some value ↦ (value, record m { readers = suc m.readers })
  ]
]

-- The text is the keys joined by `;`.
pub get_kv_config_by_value : String → String → KvConfig → List String × KvConfig
get_kv_config_by_value namespace value m = elim (lookup namespace m.config_table) [
  | none ↦ ([], m)
  | some kv ↦ (keys_of value kv, record m { readers = suc m.readers })
]

pub get_kv_list_by_namespace : String → KvConfig → KvTable × KvConfig
get_kv_list_by_namespace namespace m = elim (lookup namespace m.config_table) [
  | none ↦ ([], m)
  | some kv ↦ (kv, record m { readers = suc m.readers })
]
