-- ===== src/Apis.antt =====
-- The API types of apis/, and `resource.Managed` as the sum of the kinds that the provider manages.
pub mod Redis
pub mod Database
pub mod Oss
pub mod Nas
pub mod Slb
pub mod Sls
pub mod Frame
use provider_alibaba.Base.{Option, none, some}
use Redis.{RedisInstance}
use Database.{RdsInstance}
use Oss.{Bucket}
use Nas.{NasFileSystem, NasMountTarget}
use Slb.{Clb}
use Sls.{Project, LogStore, Logtail, LogstoreIndex, MachineGroup, MachineGroupBinding}

-- The dynamic type of a `resource.Managed`: one of the provider's kinds, or anything else.
pub data Managed : Type 0 where
  rds_instance : RdsInstance → Managed
  redis_instance : RedisInstance → Managed
  bucket : Bucket → Managed
  nas_file_system : NasFileSystem → Managed
  nas_mount_target : NasMountTarget → Managed
  clb : Clb → Managed
  project : Project → Managed
  log_store : LogStore → Managed
  logtail : Logtail → Managed
  logstore_index : LogstoreIndex → Managed
  machine_group : MachineGroup → Managed
  machine_group_binding : MachineGroupBinding → Managed
  foreign : Managed

-- `cr, ok := mg.(*T)`
pub record Kind (C : Type 0) : Type 0 where
  pub of_managed : Managed → Option C
  pub to_managed : C → Managed

abbrev pub rds_kind : Kind RdsInstance
rds_kind = record {
  of_managed = elim [ rds_instance cr ↦ some cr | _ ↦ none ];
  to_managed = rds_instance;
}

abbrev pub redis_kind : Kind RedisInstance
redis_kind = record {
  of_managed = elim [ redis_instance cr ↦ some cr | _ ↦ none ];
  to_managed = redis_instance;
}

abbrev pub bucket_kind : Kind Bucket
bucket_kind = record { of_managed = elim [ bucket cr ↦ some cr | _ ↦ none ]; to_managed = bucket }

abbrev pub nas_file_system_kind : Kind NasFileSystem
nas_file_system_kind = record {
  of_managed = elim [ nas_file_system cr ↦ some cr | _ ↦ none ];
  to_managed = nas_file_system;
}

abbrev pub nas_mount_target_kind : Kind NasMountTarget
nas_mount_target_kind = record {
  of_managed = elim [ nas_mount_target cr ↦ some cr | _ ↦ none ];
  to_managed = nas_mount_target;
}

abbrev pub clb_kind : Kind Clb
clb_kind = record { of_managed = elim [ clb cr ↦ some cr | _ ↦ none ]; to_managed = clb }

abbrev pub project_kind : Kind Project
project_kind = record {
  of_managed = elim [ project cr ↦ some cr | _ ↦ none ];
  to_managed = project;
}

abbrev pub log_store_kind : Kind LogStore
log_store_kind = record {
  of_managed = elim [ log_store cr ↦ some cr | _ ↦ none ];
  to_managed = log_store;
}

abbrev pub logtail_kind : Kind Logtail
logtail_kind = record {
  of_managed = elim [ logtail cr ↦ some cr | _ ↦ none ];
  to_managed = logtail;
}

abbrev pub logstore_index_kind : Kind LogstoreIndex
logstore_index_kind = record {
  of_managed = elim [ logstore_index cr ↦ some cr | _ ↦ none ];
  to_managed = logstore_index;
}

abbrev pub machine_group_kind : Kind MachineGroup
machine_group_kind = record {
  of_managed = elim [ machine_group cr ↦ some cr | _ ↦ none ];
  to_managed = machine_group;
}

abbrev pub machine_group_binding_kind : Kind MachineGroupBinding
machine_group_binding_kind = record {
  of_managed = elim [ machine_group_binding cr ↦ some cr | _ ↦ none ];
  to_managed = machine_group_binding;
}
