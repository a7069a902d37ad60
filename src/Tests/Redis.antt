-- ===== src/Tests/Redis.antt =====
-- The Redis theorems at one instance and one service.
mod Budget
use provider_alibaba.Base.{
  String, ℕ, suc, true, false, none, some, [], ◌∷◌, ◌≡◌, ◌≢◌, inl, refl, arith, eq_iff,
}
use provider_alibaba.Base.Int.{ℤ, pos, eqb_ℤ_iff}
use provider_alibaba.Base.Decimal.{itoa}
use provider_alibaba.Base.Dict.{Dict}
use provider_alibaba.Go.{Env, ok, err, value, client_error}
use provider_alibaba.Crossplane.{ExternalObservation}
use provider_alibaba.Apis.Redis.{RedisInstance}
use provider_alibaba.Clients.Redis.{Client, SdkClient, client, DbInstance, generate_observation}
use provider_alibaba.Controller.Redis.{
  observe_cr, observe_described, observe_status, observe_running, create_cr,
  create_connection_if_needed, create_private_connection_if_needed,
  create_public_connection_if_needed, create_account_if_needed, set_connection_ready,
  get_connection_details,
}
use provider_alibaba.Controller.Redis.Observation.{
  with_flags, observe_cr-with_flags, observe_cr-described, condition_of,
}
use provider_alibaba.Controller.Redis.Connection.{create_connection_if_needed-twice}
use provider_alibaba.Controller.Redis.Connect.{Connector}
use provider_alibaba.Controller.Redis.Service.{create_private_connection_if_needed-public_domain}
use provider_alibaba.Controller.Redis.Lifecycle.{FindsById, Step, Reach, Reach-created}
use provider_alibaba.Tests.Fixtures.{runtime, runtime-IsDocumented, kube}

abbrev pub instance : RedisInstance
instance = record {
  kind = "RedisInstance";
  name = "cache";
  external_name = "cache";
  provider_config_reference = some "default";
  for_provider = record {
    instance_type = "Redis";
    engine_version = "5.0";
    instance_class = "redis.master.small.default";
    instance_port = pos 6380;
    publicly_accessible = true;
    charge_type = "PostPaid";
    master_username = "admin";
    network_type = "VPC";
    vpc_id = "vpc-1";
    vswitch_id = "vsw-1";
  };
  at_provider = record {
    db_instance_status = "Normal";
    db_instance_id = "r-1";
    account_ready = false;
    connection_ready = false;
  };
  conditions = [];
}

abbrev found : DbInstance
found = record { id = "r-1"; status = "Normal"; endpoint = none }

-- It describes every id as running, and numbers what it creates r-1.
abbrev service : Client ℕ
service = record {
  describe_db_instance =
      λ id w. (ok (record { id = id; status = "Normal"; endpoint = none }), suc w);
  create_account = λ id user pw w. (ok tt, suc w);
  create_db_instance = λ req w. (ok found, suc w);
  delete_db_instance = λ id w. (ok tt, suc w);
  allocate_instance_public_connection = λ id port w. (ok "public", suc w);
  modify_db_instance_connection_string = λ id port w. (ok "private", suc w);
  update = λ id req w. (ok tt, suc w);
}

service-FindsById : FindsById service
service-FindsById = record {
  described = λ id w i h. ground arith;
  created = λ req w i h. ground (arith, eq_iff "r-1" "");
}

abbrev start : Env RedisInstance ℕ
start = record { cr = instance; world = 0 }

created_instance : ◌≢◌ {A = String} "r-1" ""
created_instance = ground (arith, eq_iff "r-1" "")

given_port : ◌≢◌ {A = ℤ} (pos 6380) (pos 0)
given_port = ground (arith, eqb_ℤ_iff (pos 6380) (pos 0))

abbrev second : Env RedisInstance ℕ
second = (create_cr service runtime start).1

abbrev third : Env RedisInstance ℕ
third = (observe_cr service runtime second).1

abbrev history : Reach service runtime start third
history = Reach.next (Reach.next Reach.here (Step.creates start)) (Step.observes second)

Reach-created_example : third.cr.at_provider.db_instance_id ≢ ""
Reach-created_example = Reach-created service runtime service-FindsById history created_instance

abbrev observed : ExternalObservation
observed = record {
  resource_exists = true;
  resource_up_to_date = true;
  connection_details =
      ("username", "admin")
      ∷ ("password", "pw")
      ∷ ("endpoint", "r-1-pb.redis.rds.aliyuncs.com")
      ∷ ("port", "6380")
      ∷ [];
}

observe_cr-described_example :
    let t = (observe_cr service runtime start).1.cr in
    (observed.resource_exists ≡ true)
    × (t.at_provider.db_instance_status ≡ "Normal")
    × (t.at_provider.db_instance_id ≡ "r-1")
    × (t.conditions ≡ condition_of "Normal" ∷ [])
unfolding observe_cr observe_described observe_status observe_running generate_observation
    create_connection_if_needed create_public_connection_if_needed create_account_if_needed
    get_connection_details itoa
observe_cr-described_example =
    observe_cr-described service runtime start {i = found} {w = 1} {o = observed} created_instance
      refl refl

observe_cr-with_flags_example :
    let t = observe_cr service runtime (record { cr = with_flags true true instance; world = 0 }) in
    let s = observe_cr service runtime start in (t.0 ≡ s.0) × (t.1.world ≡ s.1.world)
observe_cr-with_flags_example = observe_cr-with_flags service runtime true true instance 0

create_connection_if_needed-twice_example :
    let t = (create_connection_if_needed service start).1 in
    (t.cr.at_provider.connection_ready ≡ true) × ((create_connection_if_needed service t).1 ≡ t)
unfolding create_connection_if_needed create_public_connection_if_needed itoa
create_connection_if_needed-twice_example =
    create_connection_if_needed-twice service start {r = ("r-1-pb.redis.rds.aliyuncs.com", "6380")}
      (inl refl) refl

abbrev instance_details : Dict String
instance_details = get_connection_details runtime "pw" instance found

-- It makes the service for any keys and region.
abbrev connector : Connector ℕ
connector = record {
  kube = kube;
  quote = λ s. s;
  credentials_source_secret = "Secret";
  new_redis_client = λ key secret region. value service;
}

-- An SDK whose lists are empty and whose other calls succeed.
abbrev pub sdk : SdkClient ℕ
sdk = record {
  describe_instances = λ req w. (ok [], suc w);
  create_instance = λ req w.
      (ok (record { instance_id = "r-1"; connection_domain = "d"; port = pos 6379 }), suc w);
  create_account = λ req w. (ok tt, suc w);
  delete_instance = λ req w. (ok tt, suc w);
  allocate_instance_public_connection = λ req w. (ok tt, suc w);
  modify_db_instance_connection_string = λ req w. (ok tt, suc w);
  modify_instance_spec = λ req w. (ok tt, suc w);
}

create_private_connection_if_needed-public_domain_example :
    create_private_connection_if_needed (client sdk) start ≡ (
      ok ("r-1-pb.redis.rds.aliyuncs.com", "6380"),
      record { cr = set_connection_ready instance; world = 1 },
    )
unfolding itoa
create_private_connection_if_needed-public_domain_example =
    create_private_connection_if_needed-public_domain sdk runtime runtime-IsDocumented start {w = 1}
      given_port refl refl

-- It answers every description with an error of the network.
abbrev broken : Client ℕ
broken = record service {
  describe_db_instance = λ id w. (err (client_error "SDK.TimeoutError"), suc w);
}

-- It takes the credentials from elsewhere.
abbrev other_connector : Connector ℕ
other_connector = record connector { credentials_source_secret = "InjectedIdentity" }
