-- ===== src/Clients/Rds.antt =====
-- pkg/clients/rds/rds.go
mod Sdk
pub use Sdk.{SdkClient, Library, DbInstanceItem, CreateResponse}
use provider_alibaba.Base.{
  String, Bool, false, ◌||◌, Option, none, some, List, [], ◌∷◌, ◌==◌, if◌then◌else◌,
}
use provider_alibaba.Base.Int.{ℤ, pos}
use provider_alibaba.Go.{
  Err, sentinel, rds_db_instance_not_found, as_server_error, is_rds_sentinel, M, Result, value,
  error, pure, fail, ◌>>=◌, ◌>>◌,
}
use provider_alibaba.Apis.Database.{RdsInstanceParameters, RdsInstanceObservation, Endpoint}

abbrev pub err_db_instance_not_found : Err
err_db_instance_not_found = sentinel rds_db_instance_not_found

abbrev pub err_code_instance_not_found : String
err_code_instance_not_found = "InvalidDBInstanceId.NotFound"

abbrev pub https_scheme : String
https_scheme = "https"

pub record DbInstance : Type 0 where
  pub id : String
  pub engine : String
  pub status : String
  pub endpoint : Option Endpoint

pub record CreateDbInstanceRequest : Type 0 where
  pub name : String
  pub engine : String
  pub engine_version : String
  pub security_ip_list : String
  pub db_instance_class : String
  pub db_instance_storage_in_gb : ℤ

-- `Client`
pub record Client (W : Type 0) : Type 0 where
  pub describe_db_instance : String → M W DbInstance
  pub create_account : String → String → String → M W (Unit {0})
  pub create_db_instance : CreateDbInstanceRequest → M W DbInstance
  pub delete_db_instance : String → M W (Unit {0})

-- `NewClient`, which hands back the client over the SDK's.
abbrev pub new_sdk_client :
    {W : Type 0} → Library W → String → String → String → String → Result (SdkClient W)
new_sdk_client L access_key_id access_key_secret security_token region =
    if security_token == ""
    then L.new_client_with_access_key region access_key_id access_key_secret
    else L.new_client_with_sts_token region access_key_id access_key_secret security_token

-- `LateInitialize`
pub late_initialize : RdsInstanceParameters → DbInstance → RdsInstanceParameters
late_initialize p db = record p { engine = db.engine }

-- `GenerateObservation`: the ready flag is not set, so it is false.
unfoldable pub generate_observation : DbInstance → RdsInstanceObservation
generate_observation db = record {
  db_instance_status = db.status;
  db_instance_id = db.id;
  account_ready = false;
}

unfoldable pub make_create_db_instance_request :
    String → RdsInstanceParameters → CreateDbInstanceRequest
make_create_db_instance_request name p = record {
  name = name;
  engine = p.engine;
  engine_version = p.engine_version;
  security_ip_list = p.security_ip_list;
  db_instance_class = p.db_instance_class;
  db_instance_storage_in_gb = p.db_instance_storage_in_gb;
}

-- `IsErrorNotFound`
unfoldable pub is_error_not_found : Option Err → Bool
is_error_not_found none = false
is_error_not_found (some e) = elim (as_server_error e) [
  | none ↦ false || is_rds_sentinel e
  | some code ↦ code == err_code_instance_not_found
]

first_instance : {W : Type 0} → List DbInstanceItem → M W DbInstance
first_instance [] = fail err_db_instance_not_found
first_instance (rsp ∷ _) = pure (record {
  id = rsp.db_instance_id;
  engine = rsp.engine;
  status = rsp.db_instance_status;
  endpoint = none;
})

module _ {W : Type 0} (c : SdkClient W) where
  unfoldable pub describe_db_instance : String → M W DbInstance
  unfolding first_instance
  describe_db_instance id = do
    items ← c.describe_db_instances (record { scheme = https_scheme; db_instance_id = id })
    first_instance items

  unfoldable pub create_db_instance : CreateDbInstanceRequest → M W DbInstance
  create_db_instance req = do
    resp ← c.create_db_instance (record {
      scheme = https_scheme;
      db_instance_description = req.name;
      engine = req.engine;
      engine_version = req.engine_version;
      db_instance_class = req.db_instance_class;
      db_instance_storage = req.db_instance_storage_in_gb;
      security_ip_list = req.security_ip_list;
      db_instance_net_type = "Internet";
      pay_type = "Postpaid";
      read_timeout = pos 60;
      client_token = req.name;
    })
    pure (record {
      id = resp.db_instance_id;
      engine = "";
      status = "";
      endpoint = some (record { address = resp.connection_string; port = resp.port });
    })

  unfoldable pub create_account : String → String → String → M W (Unit {0})
  create_account id user pw = c.create_account (record {
    scheme = https_scheme;
    db_instance_id = id;
    account_name = user;
    account_password = pw;
    read_timeout = pos 60;
  })

  unfoldable pub delete_db_instance : String → M W (Unit {0})
  delete_db_instance id =
      c.delete_db_instance (record { scheme = https_scheme; db_instance_id = id })

  -- `client`, as the interface that the controller uses.
  abbrev pub client : Client W
  client = record {
    describe_db_instance = describe_db_instance;
    create_account = create_account;
    create_db_instance = create_db_instance;
    delete_db_instance = delete_db_instance;
  }

-- `NewClient`
abbrev pub new_client :
    {W : Type 0} → Library W → String → String → String → String → Result (Client W)
new_client L access_key_id access_key_secret security_token region =
    elim (new_sdk_client L access_key_id access_key_secret security_token region) [
      | value c ↦ value (client c)
      | error e ↦ error e
    ]
