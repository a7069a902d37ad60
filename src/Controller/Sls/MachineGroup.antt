-- ===== src/Controller/Sls/MachineGroup.antt =====
-- pkg/controller/sls/machineGroup_controller.go
use provider_alibaba.Base.{String, true, Option, some, [], ◌==◌, if◌then◌else◌}
use provider_alibaba.Go.{
  value, error, wrap, M, pure, fail, attempt, wrap_err, deref, ◌>>=◌, ◌>>◌, Env, get_cr, update_cr,
  call,
}
use provider_alibaba.Crossplane.{
  ConnectionDetails, creating, deleting, set_conditions, set_at_provider, ExternalObservation,
  no_observation, ExternalCreation, no_creation,
}
use provider_alibaba.Crossplane.Handler.{on_kind}
use provider_alibaba.Apis.{Managed, machine_group_kind}
use provider_alibaba.Apis.Sls.{MachineGroup}
use provider_alibaba.Clients.Sls.{Client}
use provider_alibaba.Clients.Sls.Sdk
use provider_alibaba.Clients.Sls.MachineGroup.{
  is_machine_group_not_found_error, generate_machine_group_observation,
  is_machine_group_update_to_date,
}
use provider_alibaba.Controller.Sls.{missing, if_available}

abbrev pub err_create_machine_group : String
err_create_machine_group = "failed to create MachineGroup"

abbrev pub err_delete_machine_group : String
err_delete_machine_group = "failed to delete MachineGroup"

abbrev pub err_describe_machine_group : String
err_describe_machine_group = "failed to describe MachineGroup"

abbrev pub err_not_machine_group : String
err_not_machine_group = "managed resource is not an MachineGroup custom resource"

abbrev pub get_machine_group_connection_details : MachineGroup → ConnectionDetails
get_machine_group_connection_details cr = []

module _ {W : Type 0} (c : Client W) where
  abbrev H : Type 0 → Type 0
  H A = M (Env MachineGroup W) A

  -- `Observe` from a successful `DescribeMachineGroup` on.
  unfoldable pub observe_described : Option Sdk.MachineGroup → H ExternalObservation
  observe_described found = do
    group ← deref found
    update_cr (set_at_provider (generate_machine_group_observation group))
    cr ← get_cr
    up_to_date ← is_machine_group_update_to_date cr found
    update_cr (if_available up_to_date)
    cr' ← get_cr
    pure (record {
      resource_exists = true;
      resource_up_to_date = up_to_date;
      connection_details = get_machine_group_connection_details cr';
    })

  unfoldable pub observe_cr : H ExternalObservation
  observe_cr = do
    cr ← get_cr
    if cr.external_name == "" then pure no_observation else do
      found ← attempt (call (c.describe_machine_group cr.for_provider.project cr.external_name))
      elim found [
        | value group ↦ observe_described group
        | error e ↦
            if is_machine_group_not_found_error (some e)
            then pure missing
            else fail (wrap err_describe_machine_group e)
      ]

  unfoldable pub create_cr : H ExternalCreation
  create_cr = do
    update_cr (set_conditions creating)
    cr ← get_cr
    wrap_err err_create_machine_group
        (call (c.create_machine_group cr.external_name cr.for_provider))
    pure no_creation

  unfoldable pub delete_cr : H (Unit {0})
  delete_cr = do
    update_cr (set_conditions deleting)
    cr ← get_cr
    wrap_err err_delete_machine_group
        (call (c.delete_machine_group cr.for_provider.project cr.external_name))

  abbrev pub observe : M (Env Managed W) ExternalObservation
  observe = on_kind machine_group_kind err_not_machine_group observe_cr

  abbrev pub create : M (Env Managed W) ExternalCreation
  create = on_kind machine_group_kind err_not_machine_group create_cr

  -- `Update` does nothing, for any resource.
  abbrev pub update : M (Env Managed W) (Unit {0})
  update = pure tt

  abbrev pub delete : M (Env Managed W) (Unit {0})
  delete = on_kind machine_group_kind err_not_machine_group delete_cr
