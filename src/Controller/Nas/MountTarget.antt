-- ===== src/Controller/Nas/MountTarget.antt =====
-- pkg/controller/nas/mountpoint_controller.go. Its messages are those of the file systems.
pub mod Roundtrip
use provider_alibaba.Base.{String, true, some, [], ◌==◌, if◌then◌else◌}
use provider_alibaba.Go.{
  M, value, error, pure, fail, attempt, wrap_err, wrap, ◌>>=◌, ◌>>◌, Env, get_cr, update_cr, call,
}
use provider_alibaba.Crossplane.{
  ConnectionDetails, creating, deleting, set_conditions, set_at_provider, ExternalObservation,
  no_observation, ExternalCreation,
}
use provider_alibaba.Crossplane.Handler.{on_kind}
use provider_alibaba.Apis.{Managed, nas_mount_target_kind}
use provider_alibaba.Apis.Nas.{NasMountTarget}
use provider_alibaba.Util.Connect.{connect_with}
use provider_alibaba.Clients.Nas.{
  Client, DescribeMountTargetsResponse, is_mount_target_not_found_error,
  generate_observation_4_mount_target, is_mount_target_update_to_date,
}
use provider_alibaba.Controller.Nas.{
  Connector, new_client_of, err_create_client, put_pointer, missing, if_available,
}

abbrev pub err_failed_to_create_nas_mount_target : String
err_failed_to_create_nas_mount_target = "failed to create NAS filesystem"

abbrev pub err_failed_to_delete_nas_mount_target : String
err_failed_to_delete_nas_mount_target = "failed to delete NAS filesystem"

abbrev pub err_failed_to_describe_nas_mount_target : String
err_failed_to_describe_nas_mount_target = "failed to describe NAS filesystem"

abbrev pub err_not_nas_mount_target : String
err_not_nas_mount_target = "managed resource is not a NASMountTarget custom resource"

-- `PrepareClient` gets a copy of the resource here, of which it reads the kind.
unfoldable pub connect : {W : Type 0} → Connector W → Managed → M W (Client W)
connect x =
    connect_with x.kube (new_client_of x) nas_mount_target_kind err_not_nas_mount_target
      err_create_client

unfoldable pub get_mount_target_connection_details : NasMountTarget → ConnectionDetails
get_mount_target_connection_details cr =
    put_pointer "MountTargetDomain" cr.at_provider.mount_target_domain []

module _ {W : Type 0} (c : Client W) where
  abbrev H : Type 0 → Type 0
  H A = M (Env NasMountTarget W) A

  -- `Observe` from a successful `DescribeMountTargets` on.
  unfoldable pub observe_described : DescribeMountTargetsResponse → H ExternalObservation
  observe_described mount_target = do
    cr ← get_cr
    up_to_date ← is_mount_target_update_to_date cr mount_target
    update_cr (if_available up_to_date)
    cr' ← get_cr
    pure (record {
      resource_exists = true;
      resource_up_to_date = up_to_date;
      connection_details = get_mount_target_connection_details cr';
    })

  unfoldable pub observe_cr : H ExternalObservation
  observe_cr = do
    cr ← get_cr
    if cr.external_name == "" then pure no_observation else do
      found ← attempt (
          call (
            c.describe_mount_targets cr.for_provider.file_system_id
              cr.at_provider.mount_target_domain))
      elim found [
        | value mount_target ↦ observe_described mount_target
        | error e ↦ do
          absent ← is_mount_target_not_found_error (some e)
          if absent then pure missing else fail (wrap err_failed_to_describe_nas_mount_target e)
      ]

  unfoldable pub create_cr : H ExternalCreation
  create_cr = do
    update_cr (set_conditions creating)
    cr ← get_cr
    res ←
        wrap_err err_failed_to_create_nas_mount_target
          (call (c.create_mount_target cr.for_provider))
    update_cr (set_at_provider (generate_observation_4_mount_target res))
    cr' ← get_cr
    pure (record { connection_details = get_mount_target_connection_details cr' })

  unfoldable pub delete_cr : H (Unit {0})
  delete_cr = do
    update_cr (set_conditions deleting)
    cr ← get_cr
    wrap_err err_failed_to_delete_nas_mount_target (
        call
          (c.delete_mount_target cr.for_provider.file_system_id cr.at_provider.mount_target_domain))

  abbrev pub observe : M (Env Managed W) ExternalObservation
  observe = on_kind nas_mount_target_kind err_not_nas_mount_target observe_cr

  abbrev pub create : M (Env Managed W) ExternalCreation
  create = on_kind nas_mount_target_kind err_not_nas_mount_target create_cr

  -- `Update` does nothing, for any resource.
  abbrev pub update : M (Env Managed W) (Unit {0})
  update = pure tt

  abbrev pub delete : M (Env Managed W) (Unit {0})
  delete = on_kind nas_mount_target_kind err_not_nas_mount_target delete_cr
