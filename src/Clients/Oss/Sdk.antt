-- ===== src/Clients/Oss/Sdk.antt =====
-- The SDK of pkg/clients/oss: its enumerations, which are strings, and its calls.
use provider_alibaba.Base.{String, List}
use provider_alibaba.Go.{M, Result}

pub record Names : Type 0 where
  -- `ACLType`
  pub acl_public_read : String
  pub acl_public_read_write : String
  pub acl_private : String
  -- `StorageClassType`
  pub storage_standard : String
  pub storage_ia : String
  pub storage_archive : String
  pub storage_cold_archive : String
  -- `DataRedundancyType`
  pub redundancy_lrs : String
  pub redundancy_zrs : String

pub data CreateOption : Type 0 where
  acl : String → CreateOption
  storage_class : String → CreateOption
  redundancy_type : String → CreateOption

-- `BucketInfo` of `GetBucketInfoResult`
pub record BucketInfo : Type 0 where
  pub acl : String
  pub storage_class : String
  pub redundancy_type : String
  pub extranet_endpoint : String
  pub intranet_endpoint : String

pub record SdkClient (W : Type 0) : Type 0 where
  pub get_bucket_info : String → M W BucketInfo
  pub create_bucket : String → List CreateOption → M W (Unit {0})
  pub set_bucket_acl : String → String → M W (Unit {0})
  pub delete_bucket : String → M W (Unit {0})

-- `sdk.New`, without and with the option `SecurityToken`: endpoint, key, secret, token.
pub record Library (W : Type 0) : Type 0 where
  pub new : String → String → String → Result (SdkClient W)
  pub new_with_token : String → String → String → String → Result (SdkClient W)
