-- ===== src/Controller/Database/Frame.antt =====
-- The RDS handlers of pkg/controller/database write to the status of their resource only.
use provider_alibaba.Base.{arith}
use provider_alibaba.Go.{Env}
use provider_alibaba.Crossplane.{Runtime}
use provider_alibaba.Crossplane.Frame.{SameSpec}
use provider_alibaba.Apis.Database.{RdsInstance}
use provider_alibaba.Clients.Rds.{Client, DbInstance}
use provider_alibaba.Controller.Database.{
  create_account_if_needed, observe_status, observe_described, observe_cr, create_cr, delete_cr,
}

module _ {W : Type 0} (c : Client W) (R : Runtime W) where
  account-SameSpec : (s : Env RdsInstance W) → SameSpec s.cr (create_account_if_needed c R s).1.cr
  unfolding create_account_if_needed
  account-SameSpec s = ground arith

  status-SameSpec : (s : Env RdsInstance W) → SameSpec s.cr (observe_status c R s).1.cr
  unfolding observe_status
  status-SameSpec s = grind (arith, account-SameSpec)

  described-SameSpec :
      (i : DbInstance) (s : Env RdsInstance W) → SameSpec s.cr (observe_described c R i s).1.cr
  unfolding observe_described
  described-SameSpec i s = grind (arith, status-SameSpec)

  pub observe_cr-SameSpec : (s : Env RdsInstance W) → SameSpec s.cr (observe_cr c R s).1.cr
  unfolding observe_cr
  observe_cr-SameSpec s = grind (arith, described-SameSpec)

  pub create_cr-SameSpec : (s : Env RdsInstance W) → SameSpec s.cr (create_cr c R s).1.cr
  unfolding create_cr
  create_cr-SameSpec s = ground arith

  pub delete_cr-SameSpec : (s : Env RdsInstance W) → SameSpec s.cr (delete_cr c R s).1.cr
  unfolding delete_cr
  delete_cr-SameSpec s = ground arith
