-- ===== src/Registry/KvConfig/Leaks.antt =====
-- The calls that return without giving the read lock back.
use ttstringgolangiot.Base.{ℕ, ◌≡◌, none, some, List, String, arith, string_eq}
use ttstringgolangiot.Registry.KvConfig.{
  ConfigTable, KvConfig, put_kv_config, delete_kv_config, delete_kv_config_by_value, get_kv_config,
}
use ttstringgolangiot.Registry.KvConfig.Laws.{value_of}

module _ (encode : ConfigTable → List ℕ) where
  -- After a lookup that finds its key, which it answers with the value, the next call waits for
  -- the write lock for ever if it is a put, a delete or a delete by value.
  pub get_kv_config-leaks :
      (namespace key v : String) (m : KvConfig)
      → value_of m namespace key ≡ some v
      → let (answer, m') = get_kv_config namespace key m in
        (answer ≡ v)
        × ((ns k w : String) → put_kv_config encode ns k w m' ≡ none)
        × ((ns k : String) → delete_kv_config encode ns k m' ≡ none)
        × ((ns w : String) → delete_kv_config_by_value encode ns w m' ≡ none)
  unfolding get_kv_config put_kv_config delete_kv_config delete_kv_config_by_value
  get_kv_config-leaks namespace key v m h =
      (ground arith, λ ns k w. ground arith, λ ns k. ground arith, λ ns w. ground arith)
