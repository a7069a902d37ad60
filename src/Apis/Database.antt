-- ===== src/Apis/Database.antt =====
-- apis/database/v1alpha1/rds_types.go
use provider_alibaba.Base.{String, Bool}
use provider_alibaba.Base.Int.{ℤ}
use provider_alibaba.Crossplane.{Resource}

abbrev pub rds_instance_state_running : String
rds_instance_state_running = "Running"

abbrev pub rds_instance_state_creating : String
rds_instance_state_creating = "Creating"

abbrev pub rds_instance_state_deleting : String
rds_instance_state_deleting = "Deleting"

pub record RdsInstanceParameters : Type 0 where
  pub engine : String
  pub engine_version : String
  pub db_instance_class : String
  pub db_instance_storage_in_gb : ℤ
  pub security_ip_list : String
  pub master_username : String

pub record RdsInstanceObservation : Type 0 where
  pub db_instance_status : String
  pub db_instance_id : String
  pub account_ready : Bool

pub record Endpoint : Type 0 where
  pub address : String
  pub port : String

abbrev pub RdsInstance : Type 0
RdsInstance = Resource RdsInstanceParameters RdsInstanceObservation
