-- ===== src/Controller/Nas/Laws.antt =====
-- Theorems on the handlers of pkg/controller/nas.
use provider_alibaba.Base.{String, ◌≡◌, ◌≢◌, arith, Option, none, some, List, ◌∷◌, eq_iff}
use provider_alibaba.Base.Int.{ℤ, pos}
use provider_alibaba.Go.{Env, ok, panic}
use provider_alibaba.Crossplane.{ExternalCreation}
use provider_alibaba.Apis.Nas.{NasFileSystem, NasFileSystemObservation, NasMountTarget}
use provider_alibaba.Clients.Nas.{
  Client, MountTarget, DescribeMountTargetsResponse, DescribeFileSystemsResponse,
  CreateFileSystemResponse, generate_observation,
}
use provider_alibaba.Clients.Nas.Laws.{is_mount_target_update_to_date-panics}
use provider_alibaba.Controller.Nas.{create_cr, record_creation, get_connection_details}
use provider_alibaba.Controller.Nas.MountTarget

module _ {W : Type 0} (c : Client W) where
  -- Where the service counts and describes a mount target without a VPC, and none is wanted,
  -- `Observe` of a mount target with an external name panics.
  pub observe_cr-classic :
      (s : Env NasMountTarget W) {r : DescribeMountTargetsResponse} {w : W} {n : ℤ}
      {m : MountTarget} {rest : List MountTarget}
      → s.cr.external_name ≢ ""
      → c.describe_mount_targets s.cr.for_provider.file_system_id
          s.cr.at_provider.mount_target_domain s.world
        ≡ (ok r, w)
      → r.total_count ≡ some n
      → n ≢ pos 0
      → r.mount_targets ≡ m ∷ rest
      → s.cr.for_provider.vpc_id ≡ none
      → m.vpc_id ≡ none
      → MountTarget.observe_cr c s ≡ (panic, record s { world = w })
  unfolding MountTarget.observe_cr MountTarget.observe_described
  observe_cr-classic s {r} {w} named found counted some_there first wanted none_found = ground (
    arith,
    eq_iff s.cr.external_name "",
    is_mount_target_update_to_date-panics s.cr r (record s { world = w }) counted some_there first
        wanted none_found,
  )

  generate_observation-id :
      (id : Option String) (r : DescribeFileSystemsResponse) (s : Env NasFileSystem W)
      {o : NasFileSystemObservation}
      → (generate_observation id r s).0 ≡ ok o
      → id ≡ some o.file_system_id
  unfolding generate_observation
  generate_observation-id id r s h = ground arith

  record_creation-recorded :
      (id : Option String) (r : DescribeFileSystemsResponse) (s : Env NasFileSystem W)
      {o : ExternalCreation}
      → (record_creation c id r s).0 ≡ ok o
      → (id ≡ some (record_creation c id r s).1.cr.at_provider.file_system_id)
        × (o.connection_details ≡ get_connection_details id (record_creation c id r s).1.cr)
  unfolding record_creation
  record_creation-recorded id r s h = grind (arith, generate_observation-id)

  -- Where the request succeeds and `Create` does too, the status holds the id that the service gave
  -- to the new file system, and the connection details are those for that id.
  pub create_cr-recorded :
      (s : Env NasFileSystem W) {res : CreateFileSystemResponse} {w : W} {o : ExternalCreation}
      → c.create_file_system s.cr.for_provider s.world ≡ (ok res, w)
      → (create_cr c s).0 ≡ ok o
      → (res.file_system_id ≡ some (create_cr c s).1.cr.at_provider.file_system_id)
        × (o.connection_details ≡ get_connection_details res.file_system_id (create_cr c s).1.cr)
  unfolding create_cr
  create_cr-recorded s {res} {w} made h = grind (arith, record_creation-recorded)
