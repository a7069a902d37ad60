-- ===== src/Apis/Nas.antt =====
-- apis/nas/v1alpha1/nas_fs_types.go and nas_mount-target_types.go. A `*string` is an `Option`.
use provider_alibaba.Base.{String, Option}
use provider_alibaba.Crossplane.{Resource}

pub record NasFileSystemParameter : Type 0 where
  pub file_system_type : Option String
  pub charge_type : Option String
  pub storage_type : Option String
  pub protocol_type : Option String
  pub vpc_id : Option String
  pub vswitch_id : Option String

pub record NasFileSystemObservation : Type 0 where
  pub file_system_id : String
  pub mount_target_domain : String

abbrev pub NasFileSystem : Type 0
NasFileSystem = Resource NasFileSystemParameter NasFileSystemObservation

pub record NasMountTargetParameter : Type 0 where
  pub file_system_id : Option String
  pub access_group_name : Option String
  pub network_type : Option String
  pub vpc_id : Option String
  pub vswitch_id : Option String
  pub security_group_id : Option String

pub record NasMountTargetObservation : Type 0 where
  pub mount_target_domain : Option String

abbrev pub NasMountTarget : Type 0
NasMountTarget = Resource NasMountTargetParameter NasMountTargetObservation
