-- ===== src/Controller/Sls/Connect.antt =====
-- The six `Connect` methods of pkg/controller/sls, and the external client that each gives.
pub mod Laws
use provider_alibaba.Go.{M, Result, value, Env}
use provider_alibaba.Crossplane.{ExternalObservation, ExternalCreation}
use provider_alibaba.Apis.{
  Managed, project_kind, log_store_kind, logtail_kind, logstore_index_kind, machine_group_kind,
  machine_group_binding_kind,
}
use provider_alibaba.Util.Client.{ClientEstablishmentInfo}
use provider_alibaba.Util.Connect.{connect_with}
use provider_alibaba.Clients.Sls.{Client}
use provider_alibaba.Controller.Sls.{Connector}
use provider_alibaba.Controller.Sls.Project
use provider_alibaba.Controller.Sls.Store
use provider_alibaba.Controller.Sls.Logtail
use provider_alibaba.Controller.Sls.Index
use provider_alibaba.Controller.Sls.MachineGroup
use provider_alibaba.Controller.Sls.MachineGroupBinding

-- The types that implement `managed.ExternalClient` here: `external`, `storeExternal`,
-- `logtailExternal`, `indexExternal`, `machineGroupExternal` and `machineGroupBindingExternal`.
pub data External (W : Type 0) : Type 0 where
  project_external : Client W → External W
  store_external : Client W → External W
  logtail_external : Client W → External W
  index_external : Client W → External W
  machine_group_external : Client W → External W
  machine_group_binding_external : Client W → External W

-- The call of each method through the interface.
module _ {W : Type 0} where
  unfoldable pub observe : External W → M (Env Managed W) ExternalObservation
  observe (project_external c) = Project.observe c
  observe (store_external c) = Store.observe c
  observe (logtail_external c) = Logtail.observe c
  observe (index_external c) = Index.observe c
  observe (machine_group_external c) = MachineGroup.observe c
  observe (machine_group_binding_external c) = MachineGroupBinding.observe c

  unfoldable pub create : External W → M (Env Managed W) ExternalCreation
  create (project_external c) = Project.create c
  create (store_external c) = Store.create c
  create (logtail_external c) = Logtail.create c
  create (index_external c) = Index.create c
  create (machine_group_external c) = MachineGroup.create c
  create (machine_group_binding_external c) = MachineGroupBinding.create c

  unfoldable pub update : External W → M (Env Managed W) (Unit {0})
  update (project_external c) = Project.update c
  update (store_external c) = Store.update c
  update (logtail_external c) = Logtail.update c
  update (index_external c) = Index.update c
  update (machine_group_external c) = MachineGroup.update c
  update (machine_group_binding_external c) = MachineGroupBinding.update c

  unfoldable pub delete : External W → M (Env Managed W) (Unit {0})
  delete (project_external c) = Project.delete c
  delete (store_external c) = Store.delete c
  delete (logtail_external c) = Logtail.delete c
  delete (index_external c) = Index.delete c
  delete (machine_group_external c) = MachineGroup.delete c
  delete (machine_group_binding_external c) = MachineGroupBinding.delete c

module _ {W : Type 0} (x : Connector W) where
  abbrev in_region : (Client W → External W) → ClientEstablishmentInfo → Result (External W)
  in_region external info = value (
      external
        (x.new_client_fn info.access_key_id info.access_key_secret info.security_token info.region))

  abbrev at_endpoint : (Client W → External W) → ClientEstablishmentInfo → Result (External W)
  at_endpoint external info = value (
      external (
        x.new_client_fn info.access_key_id info.access_key_secret info.security_token
          info.endpoint))

  -- The constructor cannot fail, so the message for its error is not used.
  unfoldable pub connect_project : Managed → M W (External W)
  connect_project =
      connect_with x.kube (in_region project_external) project_kind Project.err_not_project ""

  unfoldable pub connect_store : Managed → M W (External W)
  connect_store =
      connect_with x.kube (at_endpoint store_external) log_store_kind Store.err_not_store ""

  -- Like the next one, it returns the `external` of the projects.
  unfoldable pub connect_logtail : Managed → M W (External W)
  connect_logtail =
      connect_with x.kube (in_region project_external) logtail_kind Logtail.err_not_logtail ""

  unfoldable pub connect_index : Managed → M W (External W)
  connect_index =
      connect_with x.kube (in_region project_external) logstore_index_kind Index.err_not_index ""

  unfoldable pub connect_machine_group : Managed → M W (External W)
  connect_machine_group =
      connect_with x.kube (in_region machine_group_external) machine_group_kind
        MachineGroup.err_not_machine_group ""

  unfoldable pub connect_machine_group_binding : Managed → M W (External W)
  connect_machine_group_binding =
      connect_with x.kube (in_region machine_group_binding_external) machine_group_binding_kind
        MachineGroupBinding.err_not_machine_group_binding ""
