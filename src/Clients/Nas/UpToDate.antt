-- ===== src/Clients/Nas/UpToDate.antt =====
-- The two comparisons of pkg/clients/nas/nas.go. They read through pointers that may be nil.
use provider_alibaba.Base.{
  String, Bool, true, false, Option, none, some, List, [], ◌∷◌, ◌==◌, not, if◌then◌else◌,
}
use provider_alibaba.Base.Int.{pos, eqb_ℤ}
use provider_alibaba.Go.{M, pure, crash, deref, ◌>>=◌}
use provider_alibaba.Apis.Nas.{NasFileSystem, NasMountTarget}
use provider_alibaba.Clients.Nas.Sdk.{
  FileSystem, DescribeFileSystemsResponse, MountTarget, DescribeMountTargetsResponse,
}

module _ {S : Type 0} where
  -- `l[0]`
  abbrev pub first : {A : Type 0} → List A → M S A
  first [] = crash
  first (a ∷ _) = pure a

  -- `*a == *b`
  abbrev same_value : Option String → Option String → M S Bool
  same_value a b = do x ← deref a; y ← deref b; pure (x == y)

  -- `*cr.Spec.StorageType == *fs.StorageType && *cr.Spec.ProtocolType == *fs.ProtocolType`, where the
  -- second half is only read after a true first one.
  abbrev matches_file_system : NasFileSystem → FileSystem → M S Bool
  matches_file_system cr fs = do
    storage ← same_value cr.for_provider.storage_type fs.storage_type
    if storage then same_value cr.for_provider.protocol_type fs.protocol_type else pure false

  -- `IsUpdateToDate`
  unfoldable pub is_update_to_date : NasFileSystem → DescribeFileSystemsResponse → M S Bool
  is_update_to_date cr r = do
    count ← deref r.total_count
    if eqb_ℤ count (pos 0) then pure false else first r.file_systems >>= matches_file_system cr

  -- `(a == nil && b != nil) || (a != nil && b == nil) || (*a != *b)`: two nil pointers pass the first
  -- two tests and are read by the third.
  unfoldable pub differs : Option String → Option String → M S Bool
  differs none (some _) = pure true
  differs (some _) none = pure true
  differs none none = crash
  differs (some a) (some b) = pure (not (a == b))

  abbrev pub matches_mount_target : NasMountTarget → MountTarget → M S Bool
  matches_mount_target cr res = do
    let mt = cr.for_provider
    vpc ← differs mt.vpc_id res.vpc_id
    if vpc then pure false else do
      vswitch ← differs mt.vswitch_id res.vsw_id
      if vswitch then pure false else do
        group ← differs mt.access_group_name res.access_group
        if group then pure false else do
          network ← differs mt.network_type res.network_type
          if network then pure false else pure true

  -- `IsMountTargetUpdateToDate`
  unfoldable pub is_mount_target_update_to_date :
      NasMountTarget → DescribeMountTargetsResponse → M S Bool
  is_mount_target_update_to_date cr r = do
    count ← deref r.total_count
    if eqb_ℤ count (pos 0) then pure false else first r.mount_targets >>= matches_mount_target cr
