-- ===== src/Apis/Redis.antt =====
-- apis/redis/v1alpha1/redis_types.go
use provider_alibaba.Base.{String, Bool}
use provider_alibaba.Base.Int.{ℤ}
use provider_alibaba.Crossplane.{Resource}

abbrev pub redis_instance_state_running : String
redis_instance_state_running = "Normal"

abbrev pub redis_instance_state_creating : String
redis_instance_state_creating = "Creating"

abbrev pub redis_instance_state_deleting : String
redis_instance_state_deleting = "Flushing"

pub record RedisInstanceParameters : Type 0 where
  pub instance_type : String
  pub engine_version : String
  pub instance_class : String
  pub instance_port : ℤ
  pub publicly_accessible : Bool
  pub charge_type : String
  pub master_username : String
  pub network_type : String
  pub vpc_id : String
  pub vswitch_id : String

pub record RedisInstanceObservation : Type 0 where
  pub db_instance_status : String
  pub db_instance_id : String
  pub account_ready : Bool
  pub connection_ready : Bool

pub record Endpoint : Type 0 where
  pub address : String
  pub port : String

abbrev pub RedisInstance : Type 0
RedisInstance = Resource RedisInstanceParameters RedisInstanceObservation
