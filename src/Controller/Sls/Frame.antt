-- ===== src/Controller/Sls/Frame.antt =====
-- The handlers of pkg/controller/sls write to the status of their resource only.
use provider_alibaba.Base.{◌≡◌, arith, Option, List, [], ◌∷◌, String}
use provider_alibaba.Go.{Env}
use provider_alibaba.Crossplane.Frame.{SameSpec}
use provider_alibaba.Apis.Sls.{LogStore, Logtail, LogstoreIndex, MachineGroup, MachineGroupBinding}
use provider_alibaba.Apis
use provider_alibaba.Clients.Sls.{Client}
use provider_alibaba.Clients.Sls.Config.{is_logtail_update_to_date}
use provider_alibaba.Clients.Sls.MachineGroup.{is_machine_group_update_to_date}
use provider_alibaba.Clients.Sls.Sdk
use provider_alibaba.Controller.Sls.Project
use provider_alibaba.Controller.Sls.Store
use provider_alibaba.Controller.Sls.Logtail
use provider_alibaba.Controller.Sls.Index
use provider_alibaba.Controller.Sls.MachineGroup
use provider_alibaba.Controller.Sls.MachineGroupBinding

pub logtail_check-reads :
    {S : Type 0} (cr : Logtail) (r : Option Sdk.LogConfig) (s : S)
    → (is_logtail_update_to_date cr r s).1 ≡ s
unfolding is_logtail_update_to_date
logtail_check-reads cr r s = ground arith

pub group_check-reads :
    {S : Type 0} (cr : MachineGroup) (r : Option Sdk.MachineGroup) (s : S)
    → (is_machine_group_update_to_date cr r s).1 ≡ s
unfolding is_machine_group_update_to_date
group_check-reads cr r s = ground arith

module _ {W : Type 0} (c : Client W) where
  pub observe_project-SameSpec :
      (s : Env Apis.Sls.Project W) → SameSpec s.cr (Project.observe_cr c s).1.cr
  unfolding Project.observe_cr Project.observe_described
  observe_project-SameSpec s = ground arith

  pub create_project-SameSpec :
      (s : Env Apis.Sls.Project W) → SameSpec s.cr (Project.create_cr c s).1.cr
  unfolding Project.create_cr
  create_project-SameSpec s = ground arith

  pub update_project-SameSpec :
      (s : Env Apis.Sls.Project W) → SameSpec s.cr (Project.update_project c s).1.cr
  unfolding Project.update_project
  update_project-SameSpec s = ground arith

  pub delete_project-SameSpec :
      (s : Env Apis.Sls.Project W) → SameSpec s.cr (Project.delete_cr c s).1.cr
  unfolding Project.delete_cr
  delete_project-SameSpec s = ground arith

  pub observe_store-SameSpec : (s : Env LogStore W) → SameSpec s.cr (Store.observe_cr c s).1.cr
  unfolding Store.observe_cr Store.observe_described
  observe_store-SameSpec s = ground arith

  pub create_store-SameSpec : (s : Env LogStore W) → SameSpec s.cr (Store.create_cr c s).1.cr
  unfolding Store.create_cr Store.make_store
  create_store-SameSpec s = ground arith

  pub update_store-SameSpec : (s : Env LogStore W) → SameSpec s.cr (Store.update_store c s).1.cr
  unfolding Store.update_store
  update_store-SameSpec s = ground arith

  pub delete_store-SameSpec : (s : Env LogStore W) → SameSpec s.cr (Store.delete_cr c s).1.cr
  unfolding Store.delete_cr
  delete_store-SameSpec s = ground arith

  pub observe_logtail-SameSpec : (s : Env Logtail W) → SameSpec s.cr (Logtail.observe_cr c s).1.cr
  unfolding Logtail.observe_cr Logtail.observe_described
  observe_logtail-SameSpec s = grind (arith, logtail_check-reads {S = Env Logtail W})

  pub create_logtail-SameSpec : (s : Env Logtail W) → SameSpec s.cr (Logtail.create_cr c s).1.cr
  unfolding Logtail.create_cr
  create_logtail-SameSpec s = ground arith

  pub delete_logtail-SameSpec : (s : Env Logtail W) → SameSpec s.cr (Logtail.delete_cr c s).1.cr
  unfolding Logtail.delete_cr
  delete_logtail-SameSpec s = ground arith

  pub observe_index-SameSpec : (s : Env LogstoreIndex W) → SameSpec s.cr (Index.observe_cr c s).1.cr
  unfolding Index.observe_cr Index.observe_described
  observe_index-SameSpec s = ground arith

  pub create_index-SameSpec : (s : Env LogstoreIndex W) → SameSpec s.cr (Index.create_cr c s).1.cr
  unfolding Index.create_cr
  create_index-SameSpec s = ground arith

  pub delete_index-SameSpec : (s : Env LogstoreIndex W) → SameSpec s.cr (Index.delete_cr c s).1.cr
  unfolding Index.delete_cr
  delete_index-SameSpec s = ground arith

  pub observe_group-SameSpec :
      (s : Env MachineGroup W) → SameSpec s.cr (MachineGroup.observe_cr c s).1.cr
  unfolding MachineGroup.observe_cr MachineGroup.observe_described
  observe_group-SameSpec s = grind (arith, group_check-reads {S = Env MachineGroup W})

  pub create_group-SameSpec :
      (s : Env MachineGroup W) → SameSpec s.cr (MachineGroup.create_cr c s).1.cr
  unfolding MachineGroup.create_cr
  create_group-SameSpec s = ground arith

  pub delete_group-SameSpec :
      (s : Env MachineGroup W) → SameSpec s.cr (MachineGroup.delete_cr c s).1.cr
  unfolding MachineGroup.delete_cr
  delete_group-SameSpec s = ground arith

  configs-SameSpec :
      (l : List String) (s : Env MachineGroupBinding W)
      → SameSpec s.cr (MachineGroupBinding.observe_configs c l s).1.cr
  unfolding MachineGroupBinding.observe_configs
  configs-SameSpec [] s = ground arith
  configs-SameSpec (f ∷ fs) s = ground arith

  pub observe_binding-SameSpec :
      (s : Env MachineGroupBinding W) → SameSpec s.cr (MachineGroupBinding.observe_cr c s).1.cr
  unfolding MachineGroupBinding.observe_cr
  observe_binding-SameSpec s = grind (arith, configs-SameSpec)

  pub create_binding-SameSpec :
      (s : Env MachineGroupBinding W) → SameSpec s.cr (MachineGroupBinding.create_cr c s).1.cr
  unfolding MachineGroupBinding.create_cr
  create_binding-SameSpec s = ground arith

  pub delete_binding-SameSpec :
      (s : Env MachineGroupBinding W) → SameSpec s.cr (MachineGroupBinding.delete_cr c s).1.cr
  unfolding MachineGroupBinding.delete_cr
  delete_binding-SameSpec s = ground arith
