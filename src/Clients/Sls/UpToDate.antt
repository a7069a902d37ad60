-- ===== src/Clients/Sls/UpToDate.antt =====
-- The comparison of machine groups of pkg/clients/sls/machineGroup.go, both ways.
use provider_alibaba.Base.{◌≡◌, ◌⊎◌, none, some}
use provider_alibaba.Apis
use provider_alibaba.Apis.Sls.{MachineGroupParameters}
use provider_alibaba.Clients.Sls.Sdk

-- The group has the wanted id type, id list and attribute, which are given, and the wanted type where one
-- is given.
pub record Fits (p : MachineGroupParameters) (g : Sdk.MachineGroup) : Type 0 where
  pub id_type_fits : p.machine_id_type ≡ some g.machine_id_type
  pub id_list_fits : p.machine_id_list ≡ some g.machine_id_list
  pub attribute_fits : p.attribute ≡ some g.attribute
  pub type_fits : (p.group_type ≡ none) ⊎ (p.group_type ≡ some g.group_type)
