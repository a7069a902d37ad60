-- ===== src/Clients/Nas/Targets.antt =====
-- What pkg/clients/nas relies on of the mount targets that the service keeps.
use provider_alibaba.Base.{String, ◌≡◌, ◌⊎◌, Option, none, some, [], ◌∷◌}
use provider_alibaba.Base.Int.{pos}
use provider_alibaba.Go.{ok}
use provider_alibaba.Clients.Nas.{
  SdkClient, MountTarget, DescribeMountTargetsRequest, DescribeMountTargetsResponse,
  CreateMountTargetRequest, CreateMountTargetResponse,
}

-- A setting that is asked for is the one that the target has.
abbrev pub Honours : Option String → Option String → Type 0
Honours asked found = (asked ≡ none) ⊎ (asked ≡ found)

-- The mount target is made as requested.
pub record Made (req : CreateMountTargetRequest) (m : MountTarget) : Type 0 where
  pub vpc_made : Honours req.vpc_id m.vpc_id
  pub vswitch_made : Honours req.vswitch_id m.vsw_id
  pub access_group_made : Honours req.access_group_name m.access_group
  pub network_type_made : Honours req.network_type m.network_type

-- The only mount target of a response.
abbrev pub only : MountTarget → DescribeMountTargetsResponse
only m = record { total_count = some (pos 1); mount_targets = m ∷ [] }

-- `target` shows the mount targets by file system and domain. Any call may fail; the laws are about the
-- calls that succeed.
pub record KeepsTargets {W : Type 0} (c : SdkClient W) : Type 0 where
  pub target : W → Option String → Option String → Option MountTarget
  pub described :
      (req : DescribeMountTargetsRequest) (w : W) (m : MountTarget)
      {r : DescribeMountTargetsResponse}
      → target w req.file_system_id req.mount_target_domain ≡ some m
      → (c.describe_mount_targets req w).0 ≡ ok r
      → r ≡ only m
  pub created :
      (req : CreateMountTargetRequest) (w : W) {r : CreateMountTargetResponse}
      → (c.create_mount_target req w).0 ≡ ok r
      → (m : MountTarget) × (target
            (c.create_mount_target req w).1
            req.file_system_id
            r.mount_target_domain
          ≡ some m)
        × Made req m
