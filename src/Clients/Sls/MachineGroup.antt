-- ===== src/Clients/Sls/MachineGroup.antt =====
-- pkg/clients/sls/machineGroup.go
use provider_alibaba.Base.{
  String, Bool, true, false, Option, none, some, List, [], ◌∷◌, ◌==◌, not, ◌&&◌, if◌then◌else◌,
}
use provider_alibaba.Go.{Err, as_log_error_pointer, M, pure, deref, wrap_err, ◌>>=◌}
use provider_alibaba.Apis.Sls.{
  MachineGroupAttribute, MachineGroupParameters, MachineGroupObservation,
  MachineGroupBindingObservation,
}
use provider_alibaba.Apis
use provider_alibaba.Clients.Sls.Sdk.{SdkClient, MachineGroup}
use provider_alibaba.Clients.Sls.Config.{or_keep}

abbrev pub err_code_machine_group_not_exist : String
err_code_machine_group_not_exist = "MachineGroupNotExist"

abbrev pub err_create_machine_group : String
err_create_machine_group = "failed to create a Logtail MachineGroup"

abbrev pub err_delete_machine_group : String
err_delete_machine_group = "failed to delete the Logtail MachineGroup"

abbrev pub err_get_applied_configs : String
err_get_applied_configs = "failed to get applied configs from a machine group"

abbrev pub err_apply_config_to_machine_group : String
err_apply_config_to_machine_group = "failed to apply a config to a machine group"

abbrev pub err_remove_config_from_machine_group : String
err_remove_config_from_machine_group = "failed to remove a config from a machine group"

-- `reflect.DeepEqual` on slices of strings. A nil slice and an empty one, which it tells apart, are
-- both the empty list here.
unfoldable pub deep_equal : List String → List String → Bool
deep_equal [] [] = true
deep_equal [] (_ ∷ _) = false
deep_equal (_ ∷ _) [] = false
deep_equal (x ∷ xs) (y ∷ ys) = (x == y) && deep_equal xs ys

-- `==` on the structure.
abbrev pub same_attribute : MachineGroupAttribute → MachineGroupAttribute → Bool
same_attribute a b = (a.external_name == b.external_name) && (a.topic_name == b.topic_name)

unfoldable pub generate_machine_group_observation : MachineGroup → MachineGroupObservation
generate_machine_group_observation g = record {
  create_time = g.create_time;
  last_modify_time = g.last_modify_time;
}

-- `wanted != nil && found != *wanted`
abbrev pub type_differs : Option String → String → Bool
type_differs none _ = false
type_differs (some t) found = not (found == t)

module _ {S : Type 0} where
  abbrev pub matches_machine_group : MachineGroupParameters → MachineGroup → M S Bool
  matches_machine_group p g = do
    id_type ← deref p.machine_id_type
    if not (g.machine_id_type == id_type) then pure false else do
      id_list ← deref p.machine_id_list
      if not (deep_equal g.machine_id_list id_list)
          then pure false
          else if type_differs p.group_type g.group_type
          then pure false
          else (do
            attribute ← deref p.attribute
            if same_attribute g.attribute attribute then pure true else pure false)

  -- `IsMachineGroupUpdateToDate`
  unfoldable pub is_machine_group_update_to_date :
      Apis.Sls.MachineGroup → Option MachineGroup → M S Bool
  is_machine_group_update_to_date cr none = pure false
  is_machine_group_update_to_date cr (some g) = matches_machine_group cr.for_provider g

unfoldable pub is_machine_group_not_found_error : Option Err → Bool
is_machine_group_not_found_error none = false
is_machine_group_not_found_error (some e) = elim (as_log_error_pointer e) [
  | none ↦ false
  | some code ↦ code == err_code_machine_group_not_exist
]

unfoldable pub generate_machine_group_binding_observation :
    List String → MachineGroupBindingObservation
generate_machine_group_binding_observation configs = record { configs = configs }

module _ {W : Type 0} (c : SdkClient W) where
  unfoldable pub describe_machine_group : Option String → String → M W (Option MachineGroup)
  describe_machine_group project name = do
    p ← deref project
    wrap_err err_code_machine_group_not_exist (c.get_machine_group p name)

  unfoldable pub create_machine_group : String → MachineGroupParameters → M W (Unit {0})
  create_machine_group name param = do
    id_type ← deref param.machine_id_type
    id_list ← deref param.machine_id_list
    attribute ← deref param.attribute
    p ← deref param.project
    let group : MachineGroup = record {
      name = name;
      group_type = or_keep "" param.group_type;
      machine_id_type = id_type;
      machine_id_list = id_list;
      attribute = attribute;
      create_time = 0;
      last_modify_time = 0;
    }
    wrap_err err_create_machine_group (c.create_machine_group p group)

  -- `UpdateMachineGroup` does nothing.
  abbrev pub update_machine_group :
      Option String → Option String → Option MachineGroup → M W (Unit {0})
  update_machine_group project logstore group = pure tt

  unfoldable pub delete_machine_group : Option String → String → M W (Unit {0})
  delete_machine_group project name = do
    p ← deref project
    wrap_err err_delete_machine_group (c.delete_machine_group p name)

  unfoldable pub get_applied_configs : Option String → Option String → M W (List String)
  get_applied_configs project_name group_name = do
    p ← deref project_name
    g ← deref group_name
    wrap_err err_get_applied_configs (c.get_applied_configs p g)

  -- The project, the group and the config; the SDK takes the config before the group.
  unfoldable pub apply_config_to_machine_group :
      Option String → Option String → Option String → M W (Unit {0})
  apply_config_to_machine_group project_name group_name conf_name = do
    p ← deref project_name
    f ← deref conf_name
    g ← deref group_name
    wrap_err err_apply_config_to_machine_group (c.apply_config_to_machine_group p f g)

  unfoldable pub remove_config_from_machine_group :
      Option String → Option String → Option String → M W (Unit {0})
  remove_config_from_machine_group project_name group_name conf_name = do
    p ← deref project_name
    f ← deref conf_name
    g ← deref group_name
    wrap_err err_remove_config_from_machine_group (c.remove_config_from_machine_group p f g)
