-- ===== src/Clients/Slb/Balancers.antt =====
-- What pkg/clients/slb relies on of the load balancers that the service keeps.
use provider_alibaba.Base.{◌≡◌, Option, some, [], ◌∷◌}
use provider_alibaba.Base.{String}
use provider_alibaba.Base.Int.{pos}
use provider_alibaba.Go.{ok}
use provider_alibaba.Clients.Slb.{
  SdkClient, LoadBalancer, DescribeLoadBalancersRequest, DescribeLoadBalancersResponse,
  CreateLoadBalancerRequest, CreateLoadBalancerResponse,
}
use provider_alibaba.Clients.Slb.Laws.{Honours}

-- The load balancer passes the filters of the request.
pub record Passes (req : DescribeLoadBalancersRequest) (lb : LoadBalancer) : Type 0 where
  pub region_passes : Honours req.region_id lb.region_id
  pub vpc_passes : Honours req.vpc_id lb.vpc_id
  pub vswitch_passes : Honours req.vswitch_id lb.vswitch_id

-- The load balancer is made as requested, under the id that the response gives.
pub record Made (req : CreateLoadBalancerRequest) (r : CreateLoadBalancerResponse)
    (lb : LoadBalancer) : Type 0 where
  pub id_made : lb.load_balancer_id ≡ r.load_balancer_id
  pub region_made : Honours req.region_id lb.region_id
  pub spec_made : Honours req.load_balancer_spec lb.load_balancer_spec
  pub vpc_made : Honours req.vpc_id lb.vpc_id
  pub vswitch_made : Honours req.vswitch_id lb.vswitch_id

-- The only load balancer of a response.
abbrev pub only : LoadBalancer → DescribeLoadBalancersResponse
only lb = record { total_count = some (pos 1); load_balancers = lb ∷ [] }

-- `balancer` shows the load balancers by id. Any call may fail; the laws are about the calls that
-- succeed, and `reads` about all.
pub record KeepsBalancers {W : Type 0} (c : SdkClient W) : Type 0 where
  pub balancer : W → Option String → Option LoadBalancer
  pub described :
      (req : DescribeLoadBalancersRequest) (w : W) (lb : LoadBalancer)
      {r : DescribeLoadBalancersResponse}
      → balancer w req.load_balancer_id ≡ some lb
      → Passes req lb
      → (c.describe_load_balancers req w).0 ≡ ok r
      → r ≡ only lb
  pub reads :
      (req : DescribeLoadBalancersRequest) (w : W) (id : Option String)
      → balancer (c.describe_load_balancers req w).1 id ≡ balancer w id
  pub created :
      (req : CreateLoadBalancerRequest) (w : W) {r : CreateLoadBalancerResponse}
      → (c.create_load_balancer req w).0 ≡ ok r
      → (lb : LoadBalancer) × (balancer (c.create_load_balancer req w).1 r.load_balancer_id
          ≡ some lb)
        × Made req r lb
