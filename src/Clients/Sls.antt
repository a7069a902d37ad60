-- ===== src/Clients/Sls.antt =====
-- pkg/clients/sls
pub mod Applied
pub mod Projects
pub mod Kept
pub mod Panics
pub mod Sdk
pub mod Project
pub mod Config
pub mod Index
pub mod MachineGroup
pub mod Laws
pub mod UpToDate
use provider_alibaba.Base.{String, Option, List}
use provider_alibaba.Base.Int.{ℤ}
use provider_alibaba.Go.{M}
use provider_alibaba.Apis.Sls.{LogtailParameters, LogstoreIndexParameters, MachineGroupParameters}
use Sdk.{SdkClient, Constructor, LogProject, LogStore, LogConfig}

-- `LogClientInterface`
pub record Client (W : Type 0) : Type 0 where
  pub describe : String → M W (Option LogProject)
  pub create : String → String → M W (Option LogProject)
  pub update : String → String → M W (Option LogProject)
  pub delete : String → M W (Unit {0})
  pub describe_store : String → String → M W (Option LogStore)
  pub create_store : String → LogStore → M W (Unit {0})
  pub update_store : String → String → ℤ → M W (Unit {0})
  pub delete_store : String → String → M W (Unit {0})
  pub describe_config : String → String → M W (Option LogConfig)
  pub create_config : String → LogtailParameters → M W (Unit {0})
  pub update_config : String → LogConfig → M W (Unit {0})
  pub delete_config : String → String → M W (Unit {0})
  pub describe_index : Option String → Option String → M W (Option Sdk.Index)
  pub create_index : LogstoreIndexParameters → M W (Unit {0})
  pub update_index : Option String → Option String → Option Sdk.Index → M W (Unit {0})
  pub delete_index : Option String → Option String → M W (Unit {0})
  pub describe_machine_group : Option String → String → M W (Option Sdk.MachineGroup)
  pub create_machine_group : String → MachineGroupParameters → M W (Unit {0})
  pub update_machine_group :
      Option String → Option String → Option Sdk.MachineGroup → M W (Unit {0})
  pub delete_machine_group : Option String → String → M W (Unit {0})
  pub get_applied_configs : Option String → Option String → M W (List String)
  pub apply_config_to_machine_group : Option String → Option String → Option String → M W (Unit {0})
  pub remove_config_from_machine_group :
      Option String → Option String → Option String → M W (Unit {0})

-- `LogClient`, as that interface.
abbrev pub client : {W : Type 0} → SdkClient W → Client W
client c = record {
  describe = Project.describe c;
  create = Project.create c;
  update = Project.update c;
  delete = Project.delete c;
  describe_store = Project.describe_store c;
  create_store = Project.create_store c;
  update_store = Project.update_store c;
  delete_store = Project.delete_store c;
  describe_config = Config.describe_config c;
  create_config = Config.create_config c;
  update_config = Config.update_config c;
  delete_config = Config.delete_config c;
  describe_index = Index.describe_index c;
  create_index = Index.create_index c;
  update_index = Index.update_index c;
  delete_index = Index.delete_index c;
  describe_machine_group = MachineGroup.describe_machine_group c;
  create_machine_group = MachineGroup.create_machine_group c;
  update_machine_group = MachineGroup.update_machine_group c;
  delete_machine_group = MachineGroup.delete_machine_group c;
  get_applied_configs = MachineGroup.get_applied_configs c;
  apply_config_to_machine_group = MachineGroup.apply_config_to_machine_group c;
  remove_config_from_machine_group = MachineGroup.remove_config_from_machine_group c;
}

-- `NewClient`: the last argument is the endpoint.
abbrev pub new_client : {W : Type 0} → Constructor W → String → String → String → String → Client W
new_client make access_key_id access_key_secret security_token endpoint =
    client (make endpoint access_key_id access_key_secret security_token)
