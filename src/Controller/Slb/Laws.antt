-- ===== src/Controller/Slb/Laws.antt =====
-- Theorems on the handlers of pkg/controller/slb/slb_controller.go.
use provider_alibaba.Base.{◌≡◌, ◌≢◌, arith, some, eq_iff}
use provider_alibaba.Base.Int.{pos, eqb_ℤ_iff}
use provider_alibaba.Go.{Env, ok}
use provider_alibaba.Apis.Slb.{Clb}
use provider_alibaba.Clients.Slb.{Client, DescribeLoadBalancersResponse}
use provider_alibaba.Controller.Slb.{observe_cr, missing}

module _ {W : Type 0} (c : Client W) where
  -- Where the count of described load balancers is zero, a resource with an external name is
  -- reported as absent and stays as it was.
  pub observe_cr-no_load_balancer :
      (s : Env Clb W) {r : DescribeLoadBalancersResponse} {w : W}
      → s.cr.external_name ≢ ""
      → c.describe_load_balancers s.cr.for_provider.region s.cr.at_provider.load_balancer_id
          s.cr.for_provider.vpc_id s.cr.for_provider.vswitch_id s.world
        ≡ (ok r, w)
      → r.total_count ≡ some (pos 0)
      → observe_cr c s ≡ (ok missing, record s { world = w })
  unfolding observe_cr
  observe_cr-no_load_balancer s named found none_counted =
      ground (arith, eq_iff s.cr.external_name "", eqb_ℤ_iff (pos 0) (pos 0))
