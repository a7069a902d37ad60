-- ===== src/Util/Endpoint/Laws.antt =====
-- What `GetEndpoint` promises: which kinds it serves, and that an endpoint tells its region.
use text.Mathlib.TextLemmas.{append_cancel_left, append_cancel_right}
use provider_alibaba.Base.{String, ◌<>◌, some, ◌≡◌, ◌≢◌, arith, eq_iff}
use provider_alibaba.Go.{value, error, message}
use provider_alibaba.Util.Kube.{Kube, JoinsGroupKind}
use provider_alibaba.Util.Endpoint.{
  get_endpoint, endpoint_of, domain, sls_group, bucket_kind_name, nas_file_system_kind_name,
  nas_mount_target_kind_name, project_kind_name, err_cloud_resource_not_supported,
}

-- The kinds that the provider manages through `PrepareClient` and that `GetEndpoint` has no case for.
pub data IsUnserved : String → Type 0 where
  rds_instance : IsUnserved "RDSInstance"
  project : IsUnserved "Project"
  log_store : IsUnserved "LogStore"
  logtail : IsUnserved "Logtail"
  logstore_index : IsUnserved "LogstoreIndex"
  machine_group : IsUnserved "MachineGroup"
  machine_group_binding : IsUnserved "MachineGroupBinding"

between : (a b r s : String) → a <> (r <> b) ≡ a <> (s <> b) → r ≡ s
between a b r s h = append_cancel_right r s b (append_cancel_left a (r <> b) (s <> b) h)

sls_group-ne : ◌≢◌ {A = String} sls_group ""
sls_group-ne = ground (arith, eq_iff sls_group "")

module _ {W : Type 0} (K : Kube W) (joins : JoinsGroupKind K) where
  endpoint_of-unserved :
      {kind : String}
      → IsUnserved kind
      → (region : String)
      → endpoint_of K kind region ≡ error (message err_cloud_resource_not_supported)
  endpoint_of-unserved rds_instance region = rw (joins sls_group project_kind_name sls_group-ne)
  endpoint_of-unserved _ region = rw (joins sls_group project_kind_name sls_group-ne)

  -- An unserved kind is refused, whatever the region.
  pub get_endpoint-unserved :
      {kind : String}
      → IsUnserved kind
      → (region e : String) → get_endpoint K (some kind) region ≢ value e
  unfolding get_endpoint
  get_endpoint-unserved u region e h = ground (arith, endpoint_of-unserved u region)

pub data IsRegional : String → Type 0 where
  bucket : IsRegional bucket_kind_name
  nas_file_system : IsRegional nas_file_system_kind_name
  nas_mount_target : IsRegional nas_mount_target_kind_name

module _ {W : Type 0} (K : Kube W) where
  -- Two regions with the same endpoint for a bucket, a file system or a mount target are the same
  -- region.
  pub get_endpoint-injective :
      {kind : String}
      → IsRegional kind
      → (r s e : String) → get_endpoint K (some kind) r ≡ value e
      → get_endpoint K (some kind) s ≡ value e
      → r ≡ s
  unfolding get_endpoint
  get_endpoint-injective bucket r s e p q = between "http://oss-" ("." <> domain) r s (ground arith)
  get_endpoint-injective nas_file_system r s e p q =
      between "nas." ("." <> domain) r s (ground arith)
  get_endpoint-injective nas_mount_target r s e p q =
      between "nas." ("." <> domain) r s (ground arith)
