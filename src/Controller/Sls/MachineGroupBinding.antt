-- ===== src/Controller/Sls/MachineGroupBinding.antt =====
-- pkg/controller/sls/machineGroupBinding_controller.go
pub mod Observed
use provider_alibaba.Base.{String, ◌<>◌, true, List, [], ◌∷◌, ◌==◌, if◌then◌else◌}
use provider_alibaba.Go.{M, pure, wrap_err, ◌>>=◌, ◌>>◌, Env, get_cr, update_cr, call}
use provider_alibaba.Crossplane.{
  ConnectionDetails, available, creating, deleting, set_conditions, set_at_provider,
  ExternalObservation, no_observation, ExternalCreation, no_creation,
}
use provider_alibaba.Crossplane.Handler.{on_kind}
use provider_alibaba.Apis.{Managed, machine_group_binding_kind}
use provider_alibaba.Apis.Sls.{MachineGroupBinding}
use provider_alibaba.Clients.Sls.{Client}
use provider_alibaba.Clients.Sls.MachineGroup.{generate_machine_group_binding_observation}
use provider_alibaba.Controller.Sls.{missing}

abbrev pub err_create_machine_group_binding : String
err_create_machine_group_binding = "failed to create MachineGroupBinding"

abbrev pub err_delete_machine_group_binding : String
err_delete_machine_group_binding = "failed to delete MachineGroupBinding"

abbrev pub err_describe_machine_group_binding : String
err_describe_machine_group_binding = "failed to describe MachineGroupBinding"

abbrev pub err_not_machine_group_binding : String
err_not_machine_group_binding = "managed resource is not a MachineGroupBinding custom resource"

-- `strings.Join`
unfoldable pub join : String → List String → String
join sep [] = ""
join sep (x ∷ []) = x
join sep (x ∷ y ∷ ys) = x <> (sep <> join sep (y ∷ ys))

unfoldable pub get_machine_group_binding_connection_details : List String → ConnectionDetails
get_machine_group_binding_connection_details configs = ("Configs", join ", " configs) ∷ []

module _ {W : Type 0} (c : Client W) where
  abbrev H : Type 0 → Type 0
  H A = M (Env MachineGroupBinding W) A

  -- `Observe` from a successful `GetAppliedConfigs` on.
  unfoldable pub observe_configs : List String → H ExternalObservation
  observe_configs [] = pure missing
  observe_configs (f ∷ fs) = do
    update_cr (set_at_provider (generate_machine_group_binding_observation (f ∷ fs)))
    update_cr (set_conditions available)
    pure (record {
      resource_exists = true;
      resource_up_to_date = true;
      connection_details = get_machine_group_binding_connection_details (f ∷ fs);
    })

  unfoldable pub observe_cr : H ExternalObservation
  observe_cr = do
    cr ← get_cr
    if cr.external_name == "" then pure no_observation else do
      configs ←
          wrap_err err_describe_machine_group_binding
            (call (c.get_applied_configs cr.for_provider.project_name cr.for_provider.group_name))
      observe_configs configs

  unfoldable pub create_cr : H ExternalCreation
  create_cr = do
    update_cr (set_conditions creating)
    cr ← get_cr
    wrap_err err_create_machine_group_binding (
        call (
          c.apply_config_to_machine_group cr.for_provider.project_name cr.for_provider.group_name
            cr.for_provider.config_name))
    pure no_creation

  unfoldable pub delete_cr : H (Unit {0})
  delete_cr = do
    update_cr (set_conditions deleting)
    cr ← get_cr
    wrap_err err_delete_machine_group_binding (
        call (
          c.remove_config_from_machine_group cr.for_provider.project_name cr.for_provider.group_name
            cr.for_provider.config_name))

  abbrev pub observe : M (Env Managed W) ExternalObservation
  observe = on_kind machine_group_binding_kind err_not_machine_group_binding observe_cr

  abbrev pub create : M (Env Managed W) ExternalCreation
  create = on_kind machine_group_binding_kind err_not_machine_group_binding create_cr

  -- `Update` does nothing, for any resource.
  abbrev pub update : M (Env Managed W) (Unit {0})
  update = pure tt

  abbrev pub delete : M (Env Managed W) (Unit {0})
  delete = on_kind machine_group_binding_kind err_not_machine_group_binding delete_cr
