-- ===== src/Controller/Nas.antt =====
-- pkg/controller/nas/nas_controller.go
pub mod MountTarget
pub mod Frame
pub mod Laws
use provider_alibaba.Base.{
  String, Bool, true, false, Option, none, some, [], ◌∷◌, ◌==◌, if◌then◌else◌,
}
use provider_alibaba.Base.Dict.{insert}
use provider_alibaba.Go.{
  M, Result, value, error, pure, fail, attempt, wrap_err, wrap, ◌>>=◌, ◌>>◌, Env, get_cr, update_cr,
  call,
}
use provider_alibaba.Crossplane.{
  Resource, ConnectionDetails, available, creating, deleting, set_conditions, set_at_provider,
  ExternalObservation, no_observation, ExternalCreation,
}
use provider_alibaba.Crossplane.Handler.{on_kind}
use provider_alibaba.Apis.{Managed, nas_file_system_kind}
use provider_alibaba.Apis.Nas.{NasFileSystem, NasFileSystemParameter}
use provider_alibaba.Util.Kube.{Kube}
use provider_alibaba.Util.Client.{ClientEstablishmentInfo}
use provider_alibaba.Util.Connect.{connect_with}
use provider_alibaba.Clients.Nas.{
  Client, DescribeFileSystemsResponse, is_not_found_error, generate_observation, is_update_to_date,
}

abbrev pub err_create_client : String
err_create_client = "cannot create NAS client"

abbrev pub err_failed_to_create_nas_file_system : String
err_failed_to_create_nas_file_system = "failed to create NAS filesystem"

abbrev pub err_failed_to_delete_nas_file_system : String
err_failed_to_delete_nas_file_system = "failed to delete NAS filesystem"

abbrev pub err_failed_to_describe_nas_file_system : String
err_failed_to_describe_nas_file_system = "failed to describe NAS filesystem"

abbrev pub err_not_nas_file_system : String
err_not_nas_file_system = "managed resource is not a NASFileSystem custom resource"

-- `NewClientFn` takes the endpoint, the key, the secret and the token. The connector of the mount
-- targets has the same fields.
pub record Connector (W : Type 0) : Type 0 where
  pub kube : Kube W
  pub new_client_fn : String → String → String → String → Result (Client W)

abbrev pub new_client_of : {W : Type 0} → Connector W → ClientEstablishmentInfo → Result (Client W)
new_client_of x info =
    x.new_client_fn info.endpoint info.access_key_id info.access_key_secret info.security_token

unfoldable pub connect : {W : Type 0} → Connector W → Managed → M W (Client W)
connect x =
    connect_with x.kube (new_client_of x) nas_file_system_kind err_not_nas_file_system
      err_create_client

-- `cd[key] = *p`, unless the pointer is nil.
abbrev pub put_pointer : String → Option String → ConnectionDetails → ConnectionDetails
put_pointer key none cd = cd
put_pointer key (some v) cd = insert key v cd

unfoldable pub get_connection_details : Option String → NasFileSystem → ConnectionDetails
get_connection_details file_system_id cr =
    put_pointer "FileSystemType" cr.for_provider.file_system_type (
      put_pointer "FileSystemID" file_system_id
        (("MountTargetDomain", cr.at_provider.mount_target_domain) ∷ []))

-- What `Observe` reports where the service says that the resource does not exist.
abbrev pub missing : ExternalObservation
missing = record { resource_exists = false; resource_up_to_date = true; connection_details = [] }

abbrev pub if_available : {P O : Type 0} → Bool → Resource P O → Resource P O
if_available true cr = set_conditions available cr
if_available false cr = cr

module _ {W : Type 0} (c : Client W) where
  abbrev H : Type 0 → Type 0
  H A = M (Env NasFileSystem W) A

  -- `Observe` from a successful `DescribeFileSystems` on, with the id that the status held.
  unfoldable pub observe_described : String → DescribeFileSystemsResponse → H ExternalObservation
  observe_described fs_id filesystem = do
    observation ← generate_observation (some fs_id) filesystem
    update_cr (set_at_provider observation)
    cr ← get_cr
    up_to_date ← is_update_to_date cr filesystem
    update_cr (if_available up_to_date)
    cr' ← get_cr
    pure (record {
      resource_exists = true;
      resource_up_to_date = up_to_date;
      connection_details = get_connection_details (some fs_id) cr';
    })

  unfoldable pub observe_cr : H ExternalObservation
  observe_cr = do
    cr ← get_cr
    let fs_id = cr.at_provider.file_system_id
    if cr.external_name == "" then pure no_observation else do
      found ← attempt (
          call (
            c.describe_file_systems (some fs_id) cr.for_provider.file_system_type
              cr.for_provider.vpc_id))
      elim found [
        | value filesystem ↦ observe_described fs_id filesystem
        | error e ↦ do
          absent ← is_not_found_error (some e)
          if absent then pure missing else fail (wrap err_failed_to_describe_nas_file_system e)
      ]

  -- `Create` from its successful `DescribeFileSystems` on.
  unfoldable pub record_creation : Option String → DescribeFileSystemsResponse → H ExternalCreation
  record_creation file_system_id fs_res = do
    observation ← generate_observation file_system_id fs_res
    update_cr (set_at_provider observation)
    cr ← get_cr
    pure (record { connection_details = get_connection_details file_system_id cr })

  unfoldable pub create_cr : H ExternalCreation
  create_cr = do
    update_cr (set_conditions creating)
    cr ← get_cr
    let p : NasFileSystemParameter = record {
      file_system_type = cr.for_provider.file_system_type;
      charge_type = cr.for_provider.charge_type;
      storage_type = cr.for_provider.storage_type;
      protocol_type = cr.for_provider.protocol_type;
      vpc_id = cr.for_provider.vpc_id;
      vswitch_id = cr.for_provider.vswitch_id;
    }
    res ← wrap_err err_failed_to_create_nas_file_system (call (c.create_file_system p))
    fs_res ← wrap_err err_failed_to_describe_nas_file_system (
        call (
          c.describe_file_systems res.file_system_id cr.for_provider.file_system_type
            cr.for_provider.vpc_id))
    record_creation res.file_system_id fs_res

  unfoldable pub delete_cr : H (Unit {0})
  delete_cr = do
    update_cr (set_conditions deleting)
    cr ← get_cr
    wrap_err err_failed_to_delete_nas_file_system
        (call (c.delete_file_system cr.at_provider.file_system_id))

  abbrev pub observe : M (Env Managed W) ExternalObservation
  observe = on_kind nas_file_system_kind err_not_nas_file_system observe_cr

  abbrev pub create : M (Env Managed W) ExternalCreation
  create = on_kind nas_file_system_kind err_not_nas_file_system create_cr

  -- `Update` does nothing, for any resource.
  abbrev pub update : M (Env Managed W) (Unit {0})
  update = pure tt

  abbrev pub delete : M (Env Managed W) (Unit {0})
  delete = on_kind nas_file_system_kind err_not_nas_file_system delete_cr
