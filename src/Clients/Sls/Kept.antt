-- ===== src/Clients/Sls/Kept.antt =====
-- What pkg/clients/sls relies on of the log stores, the Logtail configs and the indexes that the log
-- service keeps. Any call may fail; the laws are about the calls that succeed.
use provider_alibaba.Base.{String, ◌≡◌, Option, some}
use provider_alibaba.Base.Int.{ℤ}
use provider_alibaba.Go.{ok}
use provider_alibaba.Clients.Sls.Sdk.{SdkClient, LogStore, LogConfig, Index}

-- `store` shows the log stores by project and name. An update sets the retention time of a store.
pub record KeepsStores {W : Type 0} (c : SdkClient W) : Type 0 where
  pub store : W → String → String → Option LogStore
  pub found :
      (p n : String) (w : W) {r : Option LogStore}
      → (c.get_log_store p n w).0 ≡ ok r
      → store w p n ≡ r
  pub named : (p n : String) (w : W) {s : LogStore} → store w p n ≡ some s → s.name ≡ n
  pub updated :
      (p n : String) (ttl shards : ℤ) (w : W) {old : LogStore}
      → store w p n ≡ some old
      → (c.update_log_store p n ttl shards w).0 ≡ ok tt
      → (new : LogStore)
        × (store (c.update_log_store p n ttl shards w).1 p n ≡ some new)
        × (new.ttl ≡ ttl)

-- `config` shows the configs by project and name. A config is kept as it was sent.
pub record KeepsConfigs {W : Type 0} (c : SdkClient W) : Type 0 where
  pub config : W → String → String → Option LogConfig
  pub found :
      (p n : String) (w : W) {r : Option LogConfig}
      → (c.get_config p n w).0 ≡ ok r
      → config w p n ≡ r
  pub created :
      (p : String) (made : LogConfig) (w : W)
      → (c.create_config p made w).0 ≡ ok tt
      → config (c.create_config p made w).1 p made.name ≡ some made

-- `index` shows the indexes by project and log store. An index is kept as it was sent.
pub record KeepsIndexes {W : Type 0} (c : SdkClient W) : Type 0 where
  pub index : W → String → String → Option Index
  pub created :
      (p l : String) (made : Index) (w : W)
      → (c.create_index p l made w).0 ≡ ok tt
      → index (c.create_index p l made w).1 p l ≡ some made
