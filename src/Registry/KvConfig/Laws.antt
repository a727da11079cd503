-- ===== src/Registry/KvConfig/Laws.antt =====
-- What a write of the table does to later reads.
use ttstringgolangiot.Base.{
  ℕ, ◌≡◌, inl, inr, refl, ◌&&◌, Option, none, some, List, [], ◌∷◌, String, arith, ◌≟◌,
  if◌then◌else◌, string_eq, lookup, insert, erase, lookup-insert, lookup-erase, Option-cases,
}
use text.Mathlib.TextEquality.{eq_iff}
use ttstringgolangiot.Registry.KvConfig.{
  KvTable, ConfigTable, KvConfig, table_of, delete_value, persist, put_kv_config, delete_kv_config,
  delete_kv_config_by_value,
}

-- The value of a key of a namespace.
abbrev pub value_of : KvConfig → String → String → Option String
value_of m namespace key = lookup key (table_of m.config_table namespace)

lookup-table_of-insert :
    (t : ConfigTable) (namespace ns k : String) (kv : KvTable)
    → lookup k (table_of (insert namespace kv t) ns)
      ≡ (if namespace ≟ ns then lookup k kv else lookup k (table_of t ns))
lookup-table_of-insert t namespace ns k kv = ground (arith, lookup-insert namespace ns kv t)

-- A Go map has each key once.
abbrev pub HasUniqueKeys : KvTable → Type 0
HasUniqueKeys [] = Unit
HasUniqueKeys ((k, v) ∷ kv) = (lookup k kv ≡ none) × HasUniqueKeys kv

-- What is left of a value when `value` is deleted.
abbrev pub unless : String → Option String → Option String
unless value none = none
unless value (some v) = if v ≟ value then none else some v

lookup-delete_value_from :
    (value k : String) (clone kv : KvTable)
    → HasUniqueKeys clone
    → lookup k (delete_value value clone kv) ≡ elim (lookup k clone) [
      | none ↦ lookup k kv
      | some v ↦ if v ≟ value then none else lookup k kv
    ]
unfolding delete_value
lookup-delete_value_from value k [] kv u = refl
lookup-delete_value_from value k ((j, v) ∷ clone) kv u = ground (
  arith,
  eq_iff j k,
  lookup-erase j k kv,
  lookup-delete_value_from value k clone (if v ≟ value then erase j kv else kv) u.1,
)

lookup-delete_value :
    (value k : String) (kv : KvTable)
    → HasUniqueKeys kv
    → lookup k (delete_value value kv kv) ≡ unless value (lookup k kv)
lookup-delete_value value k kv u =
    ground (arith, lookup-delete_value_from value k kv kv u, Option-cases (lookup k kv))

module _ (encode : ConfigTable → List ℕ) where
  table-persist : (m : KvConfig) → (persist encode m).config_table ≡ m.config_table
  unfolding persist
  table-persist m = ground arith

  -- A section under the write lock, with the table that it leaves.
  module _ (m : KvConfig) (t : ConfigTable) where
    stored : KvConfig
    stored = persist encode (record m { config_table = t })

    value_of-stored : (ns k : String) → value_of stored ns k ≡ lookup k (table_of t ns)
    unfolding stored
    value_of-stored ns k = ground (arith, table-persist (record m { config_table = t }))

  -- Without a reader that keeps the lock, a put returns, and afterwards exactly this key of this
  -- namespace reads differently: it has the value that was put.
  pub put_kv_config_lem :
      (namespace key value : String) (m : KvConfig)
      → m.readers ≡ 0
      → (m' : KvConfig) × (put_kv_config encode namespace key value m ≡ some m')
        × ((ns k : String)
            → value_of m' ns k
              ≡ (if (namespace ≟ ns) && (key ≟ k) then some value else value_of m ns k))
  unfolding put_kv_config stored
  put_kv_config_lem namespace key value m h =
      let kv = insert key value (table_of m.config_table namespace) in
      let t = insert namespace kv m.config_table in
      (
        stored m t,
        ground arith,
        λ ns k. ground (
          arith,
          value_of-stored m t ns k,
          eq_iff namespace ns,
          lookup-table_of-insert m.config_table namespace ns k kv,
          lookup-insert key k value (table_of m.config_table namespace),
        ),
      )

  -- Without a reader that keeps the lock, a delete returns, and afterwards exactly this key of
  -- this namespace reads differently: it has no value.
  pub delete_kv_config_lem :
      (namespace key : String) (m : KvConfig)
      → m.readers ≡ 0
      → (m' : KvConfig) × (delete_kv_config encode namespace key m ≡ some m')
        × ((ns k : String)
            → value_of m' ns k ≡ (if (namespace ≟ ns) && (key ≟ k) then none else value_of m ns k))
  unfolding delete_kv_config stored
  delete_kv_config_lem namespace key m h = elim (Option-cases (lookup namespace m.config_table)) [
    | inl absent ↦ (
      stored m m.config_table,
      ground (arith, absent),
      λ ns k. ground (arith, absent, value_of-stored m m.config_table ns k, eq_iff namespace ns),
    )
    | inr (kv, e) ↦
        let t = insert namespace (erase key kv) m.config_table in
        (
          stored m t,
          ground (arith, e),
          λ ns k. ground (
            arith,
            e,
            value_of-stored m t ns k,
            eq_iff namespace ns,
            lookup-table_of-insert m.config_table namespace ns k (erase key kv),
            lookup-erase key k kv,
          ),
        )
  ]

  -- Without a reader that keeps the lock, deleting by value returns, and afterwards exactly the
  -- keys of this namespace that had the value have none.
  pub delete_kv_config_by_value_lem :
      (namespace value : String) (m : KvConfig)
      → m.readers ≡ 0
      → HasUniqueKeys (table_of m.config_table namespace)
      → (m' : KvConfig) × (delete_kv_config_by_value encode namespace value m ≡ some m')
        × ((ns k : String)
            → value_of m' ns k
              ≡ (if namespace ≟ ns then unless value (value_of m ns k) else value_of m ns k))
  unfolding delete_kv_config_by_value stored
  delete_kv_config_by_value_lem namespace value m h u =
      elim (Option-cases (lookup namespace m.config_table)) [
        | inl absent ↦ (
          stored m m.config_table,
          ground (arith, absent),
          λ ns k.
              ground (arith, absent, value_of-stored m m.config_table ns k, eq_iff namespace ns),
        )
        | inr (kv, e) ↦
            let t = insert namespace (delete_value value kv kv) m.config_table in
            (
              stored m t,
              ground (arith, e),
              λ ns k. ground (
                arith,
                e,
                u,
                value_of-stored m t ns k,
                eq_iff namespace ns,
                lookup-table_of-insert m.config_table namespace ns k (delete_value value kv kv),
                lookup-delete_value value k kv,
              ),
            )
      ]
