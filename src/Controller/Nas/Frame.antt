-- ===== src/Controller/Nas/Frame.antt =====
-- The handlers of pkg/controller/nas write to the status of their resource only.
use provider_alibaba.Base.{◌≡◌, arith}
use provider_alibaba.Go.{Env}
use provider_alibaba.Crossplane.Frame.{SameSpec}
use provider_alibaba.Apis.Nas.{NasFileSystem, NasMountTarget}
use provider_alibaba.Clients.Nas.{
  Client, generate_observation, is_update_to_date, is_not_found_error,
  is_mount_target_update_to_date, is_mount_target_not_found_error, DescribeMountTargetsResponse,
  differs,
}
use provider_alibaba.Controller.Nas.{
  observe_described, observe_cr, record_creation, create_cr, delete_cr,
}
use provider_alibaba.Controller.Nas.MountTarget

pub target_check-reads :
    {S : Type 0} (cr : NasMountTarget) (r : DescribeMountTargetsResponse) (s : S)
    → (is_mount_target_update_to_date cr r s).1 ≡ s
unfolding is_mount_target_update_to_date differs
target_check-reads cr r s = ground arith

module _ {W : Type 0} (c : Client W) where
  pub observe_cr-SameSpec : (s : Env NasFileSystem W) → SameSpec s.cr (observe_cr c s).1.cr
  unfolding observe_cr observe_described generate_observation is_update_to_date is_not_found_error
  observe_cr-SameSpec s = ground arith

  pub create_cr-SameSpec : (s : Env NasFileSystem W) → SameSpec s.cr (create_cr c s).1.cr
  unfolding create_cr record_creation generate_observation
  create_cr-SameSpec s = ground arith

  pub delete_cr-SameSpec : (s : Env NasFileSystem W) → SameSpec s.cr (delete_cr c s).1.cr
  unfolding delete_cr
  delete_cr-SameSpec s = ground arith

  pub observe_target-SameSpec :
      (s : Env NasMountTarget W) → SameSpec s.cr (MountTarget.observe_cr c s).1.cr
  unfolding MountTarget.observe_cr MountTarget.observe_described is_mount_target_not_found_error
  observe_target-SameSpec s = grind (arith, target_check-reads {S = Env NasMountTarget W})

  pub create_target-SameSpec :
      (s : Env NasMountTarget W) → SameSpec s.cr (MountTarget.create_cr c s).1.cr
  unfolding MountTarget.create_cr
  create_target-SameSpec s = ground arith

  pub delete_target-SameSpec :
      (s : Env NasMountTarget W) → SameSpec s.cr (MountTarget.delete_cr c s).1.cr
  unfolding MountTarget.delete_cr
  delete_target-SameSpec s = ground arith
