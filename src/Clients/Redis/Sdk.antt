-- ===== src/Clients/Redis/Sdk.antt =====
-- The SDK's requests and responses, by the fields that pkg/clients/redis sets and reads. Timeouts
-- are in seconds.
use provider_alibaba.Base.{String, List}
use provider_alibaba.Base.Int.{ℤ}
use provider_alibaba.Go.{M, Result}

pub record DescribeInstancesRequest : Type 0 where
  pub scheme : String
  pub instance_ids : String

pub record KvStoreInstance : Type 0 where
  pub instance_id : String
  pub instance_status : String

pub record CreateRequest : Type 0 where
  pub scheme : String
  pub instance_name : String
  pub engine_version : String
  pub instance_class : String
  pub instance_type : String
  pub read_timeout : ℤ
  pub charge_type : String
  pub network_type : String
  pub vpc_id : String
  pub vswitch_id : String

pub record CreateResponse : Type 0 where
  pub instance_id : String
  pub connection_domain : String
  pub port : ℤ

pub record CreateAccountRequest : Type 0 where
  pub scheme : String
  pub instance_id : String
  pub account_name : String
  pub account_password : String
  pub read_timeout : ℤ

pub record DeleteRequest : Type 0 where
  pub scheme : String
  pub instance_id : String

pub record AllocateConnectionRequest : Type 0 where
  pub scheme : String
  pub instance_id : String
  pub connection_string_prefix : String
  pub port : String
  pub read_timeout : ℤ

pub record ModifyConnectionRequest : Type 0 where
  pub scheme : String
  pub db_instance_id : String
  pub current_connection_string : String
  pub port : String
  pub read_timeout : ℤ

pub record ModifyInstanceSpecRequest : Type 0 where
  pub scheme : String
  pub instance_id : String
  pub instance_class : String
  pub read_timeout : ℤ

-- `aliredis.Client`
pub record SdkClient (W : Type 0) : Type 0 where
  pub describe_instances : DescribeInstancesRequest → M W (List KvStoreInstance)
  pub create_instance : CreateRequest → M W CreateResponse
  pub create_account : CreateAccountRequest → M W (Unit {0})
  pub delete_instance : DeleteRequest → M W (Unit {0})
  pub allocate_instance_public_connection : AllocateConnectionRequest → M W (Unit {0})
  pub modify_db_instance_connection_string : ModifyConnectionRequest → M W (Unit {0})
  pub modify_instance_spec : ModifyInstanceSpecRequest → M W (Unit {0})

-- `aliredis.NewClientWithAccessKey`: region, key, secret.
pub record Library (W : Type 0) : Type 0 where
  pub new_client_with_access_key : String → String → String → Result (SdkClient W)
