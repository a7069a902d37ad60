-- ===== src/Clients/Rds/Sdk.antt =====
-- The SDK's requests and responses, by the fields that pkg/clients/rds sets and reads. Timeouts are
-- in seconds.
use provider_alibaba.Base.{String, List}
use provider_alibaba.Base.Int.{ℤ}
use provider_alibaba.Go.{M, Result}

pub record DescribeDbInstancesRequest : Type 0 where
  pub scheme : String
  pub db_instance_id : String

pub record DbInstanceItem : Type 0 where
  pub db_instance_id : String
  pub engine : String
  pub db_instance_status : String

pub record CreateRequest : Type 0 where
  pub scheme : String
  pub db_instance_description : String
  pub engine : String
  pub engine_version : String
  pub db_instance_class : String
  pub db_instance_storage : ℤ
  pub security_ip_list : String
  pub db_instance_net_type : String
  pub pay_type : String
  pub read_timeout : ℤ
  pub client_token : String

pub record CreateResponse : Type 0 where
  pub db_instance_id : String
  pub connection_string : String
  pub port : String

pub record CreateAccountRequest : Type 0 where
  pub scheme : String
  pub db_instance_id : String
  pub account_name : String
  pub account_password : String
  pub read_timeout : ℤ

pub record DeleteRequest : Type 0 where
  pub scheme : String
  pub db_instance_id : String

-- `alirds.Client`
pub record SdkClient (W : Type 0) : Type 0 where
  pub describe_db_instances : DescribeDbInstancesRequest → M W (List DbInstanceItem)
  pub create_db_instance : CreateRequest → M W CreateResponse
  pub create_account : CreateAccountRequest → M W (Unit {0})
  pub delete_db_instance : DeleteRequest → M W (Unit {0})

-- The two constructors of `alirds.Client`: region, key, secret, and a token.
pub record Library (W : Type 0) : Type 0 where
  pub new_client_with_sts_token : String → String → String → String → Result (SdkClient W)
  pub new_client_with_access_key : String → String → String → Result (SdkClient W)
