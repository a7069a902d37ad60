-- ===== src/Clients/Redis.antt =====
-- pkg/clients/redis/redis.go
mod Sdk
pub use Sdk.{
  DescribeInstancesRequest, SdkClient, Library, KvStoreInstance, CreateResponse, CreateRequest,
  CreateAccountRequest, DeleteRequest, AllocateConnectionRequest, ModifyConnectionRequest,
  ModifyInstanceSpecRequest,
}
use provider_alibaba.Base.{
  String, ◌<>◌, Bool, false, ◌||◌, not, Option, none, some, List, [], ◌∷◌, ◌==◌, if◌then◌else◌,
}
use provider_alibaba.Base.Int.{ℤ, pos}
use provider_alibaba.Base.Decimal.{itoa}
use provider_alibaba.Go.{
  Err, message, sentinel, redis_db_instance_not_found, as_server_error, is_redis_sentinel, M,
  Result, value, error, pure, fail, wrap_err, ◌>>=◌, ◌>>◌,
}
use provider_alibaba.Apis.Redis.{RedisInstanceParameters, RedisInstanceObservation, Endpoint}

abbrev pub err_db_instance_not_found : Err
err_db_instance_not_found = sentinel redis_db_instance_not_found

-- `DefaultReadTime`, in seconds
abbrev pub default_read_time : ℤ
default_read_time = pos 60

-- `PubilConnectionDomain`
abbrev pub public_connection_domain : String
public_connection_domain = "-pb.redis.rds.aliyuncs.com"

abbrev pub https_scheme : String
https_scheme = "https"

abbrev pub vpc_network_type : String
vpc_network_type = "VPC"

abbrev pub err_code_instance_not_found : String
err_code_instance_not_found = "InvalidInstanceId.NotFound"

abbrev pub err_spec_required : String
err_spec_required = "modify instances spec is require"

pub record DbInstance : Type 0 where
  pub id : String
  pub status : String
  pub endpoint : Option Endpoint

pub record CreateRedisInstanceRequest : Type 0 where
  pub name : String
  pub instance_type : String
  pub engine_version : String
  pub security_ip_list : String
  pub instance_class : String
  pub password : String
  pub charge_type : String
  pub port : ℤ
  pub network_type : String
  pub vpc_id : String
  pub vswitch_id : String

pub record ModifyRedisInstanceRequest : Type 0 where
  pub instance_class : String

-- `Client`
pub record Client (W : Type 0) : Type 0 where
  pub describe_db_instance : String → M W DbInstance
  pub create_account : String → String → String → M W (Unit {0})
  pub create_db_instance : CreateRedisInstanceRequest → M W DbInstance
  pub delete_db_instance : String → M W (Unit {0})
  pub allocate_instance_public_connection : String → ℤ → M W String
  pub modify_db_instance_connection_string : String → ℤ → M W String
  pub update : String → ModifyRedisInstanceRequest → M W (Unit {0})

-- `GenerateObservation`: the two ready flags are not set, so they are false.
unfoldable pub generate_observation : DbInstance → RedisInstanceObservation
generate_observation db = record {
  db_instance_status = db.status;
  db_instance_id = db.id;
  account_ready = false;
  connection_ready = false;
}

-- `MakeCreateDBInstanceRequest`: the address list and the password are not set.
unfoldable pub make_create_db_instance_request :
    String → RedisInstanceParameters → CreateRedisInstanceRequest
make_create_db_instance_request name p = record {
  name = name;
  instance_type = p.instance_type;
  engine_version = p.engine_version;
  security_ip_list = "";
  instance_class = p.instance_class;
  password = "";
  charge_type = p.charge_type;
  port = p.instance_port;
  network_type = p.network_type;
  vpc_id = p.vpc_id;
  vswitch_id = p.vswitch_id;
}

-- `IsErrorNotFound`
unfoldable pub is_error_not_found : Option Err → Bool
is_error_not_found none = false
is_error_not_found (some e) = elim (as_server_error e) [
  | none ↦ false || is_redis_sentinel e
  | some code ↦ code == err_code_instance_not_found
]

first_instance : {W : Type 0} → List KvStoreInstance → M W DbInstance
first_instance [] = fail err_db_instance_not_found
first_instance (rsp ∷ _) =
    pure (record { id = rsp.instance_id; status = rsp.instance_status; endpoint = none })

module _ {W : Type 0} (c : SdkClient W) where
  unfoldable pub describe_db_instance : String → M W DbInstance
  unfolding first_instance
  describe_db_instance id = do
    instances ←
        wrap_err "cannot describe redis instance"
          (c.describe_instances (record { scheme = https_scheme; instance_ids = id }))
    first_instance instances

  -- The VPC and its switch are sent for an instance in a VPC only.
  unfoldable pub create_db_instance : CreateRedisInstanceRequest → M W DbInstance
  create_db_instance req = do
    let in_vpc = req.network_type == vpc_network_type
    resp ← c.create_instance (record {
      scheme = https_scheme;
      instance_name = req.name;
      engine_version = req.engine_version;
      instance_class = req.instance_class;
      instance_type = req.instance_type;
      read_timeout = default_read_time;
      charge_type = req.charge_type;
      network_type = req.network_type;
      vpc_id = if in_vpc then req.vpc_id else "";
      vswitch_id = if in_vpc then req.vswitch_id else "";
    })
    pure (record {
      id = resp.instance_id;
      status = "";
      endpoint = some (record { address = resp.connection_domain; port = itoa resp.port });
    })

  unfoldable pub create_account : String → String → String → M W (Unit {0})
  create_account id user pw = c.create_account (record {
    scheme = https_scheme;
    instance_id = id;
    account_name = user;
    account_password = pw;
    read_timeout = default_read_time;
  })

  unfoldable pub delete_db_instance : String → M W (Unit {0})
  delete_db_instance id = c.delete_instance (record { scheme = https_scheme; instance_id = id })

  unfoldable pub allocate_instance_public_connection : String → ℤ → M W String
  allocate_instance_public_connection id port = do
    let prefix = id <> public_connection_domain
    c.allocate_instance_public_connection (record {
      scheme = https_scheme;
      instance_id = id;
      connection_string_prefix = prefix;
      port = itoa port;
      read_timeout = default_read_time;
    })
    pure prefix

  unfoldable pub modify_db_instance_connection_string : String → ℤ → M W String
  modify_db_instance_connection_string id port = do
    let current = id <> public_connection_domain
    c.modify_db_instance_connection_string (record {
      scheme = https_scheme;
      db_instance_id = id;
      current_connection_string = current;
      port = itoa port;
      read_timeout = default_read_time;
    })
    pure current

  unfoldable pub modify_instance_spec : String → ModifyRedisInstanceRequest → M W (Unit {0})
  modify_instance_spec id req = c.modify_instance_spec (record {
    scheme = https_scheme;
    instance_id = id;
    instance_class = req.instance_class;
    read_timeout = default_read_time;
  })

  unfoldable pub update : String → ModifyRedisInstanceRequest → M W (Unit {0})
  update id req =
      if req.instance_class == ""
      then fail (message err_spec_required)
      else if not (req.instance_class == "")
      then modify_instance_spec id req
      else pure tt

  -- `client`, as the interface that the controller uses.
  abbrev pub client : Client W
  client = record {
    describe_db_instance = describe_db_instance;
    create_account = create_account;
    create_db_instance = create_db_instance;
    delete_db_instance = delete_db_instance;
    allocate_instance_public_connection = allocate_instance_public_connection;
    modify_db_instance_connection_string = modify_db_instance_connection_string;
    update = update;
  }

-- `NewClient`
abbrev pub new_client : {W : Type 0} → Library W → String → String → String → Result (Client W)
new_client L access_key_id access_key_secret region =
    elim (L.new_client_with_access_key region access_key_id access_key_secret) [
      | value c ↦ value (client c)
      | error e ↦ error e
    ]
