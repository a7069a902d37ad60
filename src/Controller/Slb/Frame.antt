-- ===== src/Controller/Slb/Frame.antt =====
-- The handlers of pkg/controller/slb write to the status of their resource only.
use provider_alibaba.Base.{◌≡◌, arith}
use provider_alibaba.Go.{Env}
use provider_alibaba.Crossplane.Frame.{SameSpec}
use provider_alibaba.Apis.Slb.{Clb}
use provider_alibaba.Clients.Slb.{
  Client, DescribeLoadBalancersResponse, generate_observation, is_update_to_date,
}
use provider_alibaba.Controller.Slb.{
  observe_described, observe_cr, create_cr, delete_cr, get_connection_details,
}

pub check-reads :
    {S : Type 0} (cr : Clb) (r : DescribeLoadBalancersResponse) (s : S)
    → (is_update_to_date cr r s).1 ≡ s
unfolding is_update_to_date
check-reads cr r s = ground arith

module _ {W : Type 0} (c : Client W) where
  pub observe_cr-SameSpec : (s : Env Clb W) → SameSpec s.cr (observe_cr c s).1.cr
  unfolding observe_cr observe_described generate_observation get_connection_details
  observe_cr-SameSpec s = grind (arith, check-reads {S = Env Clb W})

  pub create_cr-SameSpec : (s : Env Clb W) → SameSpec s.cr (create_cr c s).1.cr
  unfolding create_cr generate_observation get_connection_details
  create_cr-SameSpec s = ground arith

  pub delete_cr-SameSpec : (s : Env Clb W) → SameSpec s.cr (delete_cr c s).1.cr
  unfolding delete_cr
  delete_cr-SameSpec s = ground arith
