-- ===== src/Clients/Nas.antt =====
-- pkg/clients/nas/nas.go
mod Sdk
mod UpToDate
pub mod Laws
pub mod Targets
pub use Sdk.{
  DescribeFileSystemsRequest, FileSystem, DescribeFileSystemsResponse, CreateFileSystemRequest,
  CreateFileSystemResponse, DescribeMountTargetsRequest, MountTarget, DescribeMountTargetsResponse,
  CreateMountTargetRequest, CreateMountTargetResponse, DeleteMountTargetRequest, SdkClient, Config,
  Constructor,
}
unfoldable pub use UpToDate.{
  first, matches_mount_target, is_update_to_date, is_mount_target_update_to_date, differs,
}
use provider_alibaba.Base.{String, Bool, false, Option, none, some, List, [], ◌∷◌, ◌==◌}
use provider_alibaba.Go.{Err, wrap, as_tea_error, M, Result, value, error, pure, deref, ◌>>=◌, ◌>>◌}
use provider_alibaba.Apis.Nas.{
  NasFileSystemParameter, NasFileSystemObservation, NasMountTargetParameter,
  NasMountTargetObservation,
}

abbrev pub err_failed_to_create_nas_client : String
err_failed_to_create_nas_client = "failed to crate NAS client"

abbrev pub err_code_file_system_not_exist : String
err_code_file_system_not_exist = "InvalidFileSystem.NotFound"

abbrev pub err_mount_target_not_existed : String
err_mount_target_not_existed = "InvalidMountTarget.NotFound"

-- `ClientInterface`
pub record Client (W : Type 0) : Type 0 where
  pub describe_file_systems :
      Option String → Option String → Option String → M W DescribeFileSystemsResponse
  pub create_file_system : NasFileSystemParameter → M W CreateFileSystemResponse
  pub delete_file_system : String → M W (Unit {0})
  pub describe_mount_targets : Option String → Option String → M W DescribeMountTargetsResponse
  pub create_mount_target : NasMountTargetParameter → M W CreateMountTargetResponse
  pub delete_mount_target : Option String → Option String → M W (Unit {0})

module _ {S : Type 0} where
  -- `errors.As(err, &sdkerr) && *sdkerr.Code == code`, which reads the code through a pointer.
  abbrev has_code : String → Option Err → M S Bool
  has_code code none = pure false
  has_code code (some e) = elim (as_tea_error e) [
    | none ↦ pure false
    | some c ↦ do found ← deref c; pure (found == code)
  ]

  unfoldable pub is_not_found_error : Option Err → M S Bool
  is_not_found_error e = has_code err_code_file_system_not_exist e

  unfoldable pub is_mount_target_not_found_error : Option Err → M S Bool
  is_mount_target_not_found_error e = has_code err_mount_target_not_existed e

  -- The domain of the first mount target, or nothing.
  abbrev first_domain : List (Option String) → M S String
  first_domain [] = pure ""
  first_domain (d ∷ _) = deref d

  -- `GenerateObservation`
  unfoldable pub generate_observation :
      Option String → DescribeFileSystemsResponse → M S NasFileSystemObservation
  generate_observation file_system_id r = do
    id ← deref file_system_id
    elim r.file_systems [
      | [] ↦ pure (record { file_system_id = id; mount_target_domain = "" })
      | fs ∷ _ ↦ do
        domain ← first_domain fs.mount_target_domains
        pure (record { file_system_id = id; mount_target_domain = domain })
    ]

-- `GenerateObservation4MountTarget`
unfoldable pub generate_observation_4_mount_target :
    CreateMountTargetResponse → NasMountTargetObservation
generate_observation_4_mount_target res = record { mount_target_domain = res.mount_target_domain }

module _ {W : Type 0} (c : SdkClient W) where
  -- A nil argument leaves the field of the request nil.
  unfoldable pub describe_file_systems :
      Option String → Option String → Option String → M W DescribeFileSystemsResponse
  describe_file_systems file_system_id file_system_type vpc_id = c.describe_file_systems (record {
    file_system_id = file_system_id;
    file_system_type = file_system_type;
    vpc_id = vpc_id;
  })

  unfoldable pub create_file_system : NasFileSystemParameter → M W CreateFileSystemResponse
  create_file_system fs = c.create_file_system (record {
    file_system_type = fs.file_system_type;
    charge_type = fs.charge_type;
    vpc_id = fs.vpc_id;
    vswitch_id = fs.vswitch_id;
    storage_type = fs.storage_type;
    protocol_type = fs.protocol_type;
  })

  unfoldable pub delete_file_system : String → M W (Unit {0})
  delete_file_system file_system_id = c.delete_file_system (some file_system_id)

  unfoldable pub describe_mount_targets :
      Option String → Option String → M W DescribeMountTargetsResponse
  describe_mount_targets file_system_id mount_target_domain =
      c.describe_mount_targets
        (record { file_system_id = file_system_id; mount_target_domain = mount_target_domain })

  unfoldable pub create_mount_target : NasMountTargetParameter → M W CreateMountTargetResponse
  create_mount_target fs = c.create_mount_target (record {
    file_system_id = fs.file_system_id;
    access_group_name = fs.access_group_name;
    network_type = fs.network_type;
    vpc_id = fs.vpc_id;
    vswitch_id = fs.vswitch_id;
    security_group_id = fs.security_group_id;
  })

  unfoldable pub delete_mount_target : Option String → Option String → M W (Unit {0})
  delete_mount_target file_system_id mount_target_domain =
      c.delete_mount_target
        (record { file_system_id = file_system_id; mount_target_domain = mount_target_domain })

  abbrev pub client : Client W
  client = record {
    describe_file_systems = describe_file_systems;
    create_file_system = create_file_system;
    delete_file_system = delete_file_system;
    describe_mount_targets = describe_mount_targets;
    create_mount_target = create_mount_target;
    delete_mount_target = delete_mount_target;
  }

-- `NewClient`
abbrev pub new_client :
    {W : Type 0} → Constructor W → String → String → String → String → Result (Client W)
new_client make endpoint access_key_id access_key_secret security_token =
    let config : Config = record {
      access_key_id = access_key_id;
      access_key_secret = access_key_secret;
      security_token = security_token;
      endpoint = endpoint;
    } in
    elim (make config) [
      | value c ↦ value (client c)
      | error e ↦ error (wrap err_failed_to_create_nas_client e)
    ]
