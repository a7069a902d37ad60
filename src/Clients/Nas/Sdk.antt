-- ===== src/Clients/Nas/Sdk.antt =====
-- The SDK of pkg/clients/nas: its requests, its responses and its calls. A pointer to a string or a
-- number is an `Option`; the bodies and the wrappers of the lists are always there.
use provider_alibaba.Base.{String, Option, List}
use provider_alibaba.Base.Int.{ℤ}
use provider_alibaba.Go.{M, Result}

pub record DescribeFileSystemsRequest : Type 0 where
  pub file_system_id : Option String
  pub file_system_type : Option String
  pub vpc_id : Option String

pub record FileSystem : Type 0 where
  pub storage_type : Option String
  pub protocol_type : Option String
  -- `MountTargets.MountTarget`, of which only the domains are read
  pub mount_target_domains : List (Option String)

pub record DescribeFileSystemsResponse : Type 0 where
  pub total_count : Option ℤ
  pub file_systems : List FileSystem

pub record CreateFileSystemRequest : Type 0 where
  pub file_system_type : Option String
  pub charge_type : Option String
  pub vpc_id : Option String
  pub vswitch_id : Option String
  pub storage_type : Option String
  pub protocol_type : Option String

pub record CreateFileSystemResponse : Type 0 where
  pub file_system_id : Option String

pub record DescribeMountTargetsRequest : Type 0 where
  pub file_system_id : Option String
  pub mount_target_domain : Option String

pub record MountTarget : Type 0 where
  pub vpc_id : Option String
  pub vsw_id : Option String
  pub access_group : Option String
  pub network_type : Option String

pub record DescribeMountTargetsResponse : Type 0 where
  pub total_count : Option ℤ
  pub mount_targets : List MountTarget

pub record CreateMountTargetRequest : Type 0 where
  pub file_system_id : Option String
  pub access_group_name : Option String
  pub network_type : Option String
  pub vpc_id : Option String
  pub vswitch_id : Option String
  pub security_group_id : Option String

pub record CreateMountTargetResponse : Type 0 where
  pub mount_target_domain : Option String

pub record DeleteMountTargetRequest : Type 0 where
  pub file_system_id : Option String
  pub mount_target_domain : Option String

-- `sdk.Client`
pub record SdkClient (W : Type 0) : Type 0 where
  pub describe_file_systems : DescribeFileSystemsRequest → M W DescribeFileSystemsResponse
  pub create_file_system : CreateFileSystemRequest → M W CreateFileSystemResponse
  -- by the field `FileSystemId` of the request
  pub delete_file_system : Option String → M W (Unit {0})
  pub describe_mount_targets : DescribeMountTargetsRequest → M W DescribeMountTargetsResponse
  pub create_mount_target : CreateMountTargetRequest → M W CreateMountTargetResponse
  pub delete_mount_target : DeleteMountTargetRequest → M W (Unit {0})

-- `openapi.Config`
pub record Config : Type 0 where
  pub access_key_id : String
  pub access_key_secret : String
  pub security_token : String
  pub endpoint : String

-- `sdk.NewClient`
abbrev pub Constructor : Type 0 → Type 0
Constructor W = Config → Result (SdkClient W)
