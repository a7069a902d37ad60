-- ===== src/Clients/Slb.antt =====
-- pkg/clients/slb/slb.go
mod Sdk
pub mod Laws
pub mod Balancers
pub use Sdk.{
  DescribeLoadBalancersRequest, LoadBalancer, DescribeLoadBalancersResponse,
  CreateLoadBalancerRequest, CreateLoadBalancerResponse, DeleteLoadBalancerRequest, SdkClient,
  Config, Constructor,
}
use provider_alibaba.Base.{
  String, Bool, true, false, Option, none, some, List, [], ◌∷◌, ◌==◌, not, if◌then◌else◌,
}
use provider_alibaba.Base.Int.{pos, eqb_ℤ}
use provider_alibaba.Go.{wrap, M, Result, value, error, pure, crash, deref, ◌>>=◌, ◌>>◌}
use provider_alibaba.Apis.Slb.{Clb, ClbParameter, ClbObservation}

abbrev pub err_failed_to_create_slb_client : String
err_failed_to_create_slb_client = "failed to crate SLB client"

-- `ClientInterface`
pub record Client (W : Type 0) : Type 0 where
  pub describe_load_balancers :
      Option String
      → Option String
      → Option String
      → Option String
      → M W DescribeLoadBalancersResponse
  pub create_load_balancer : String → ClbParameter → M W CreateLoadBalancerResponse
  pub delete_load_balancer : Option String → Option String → M W (Unit {0})

abbrev pub empty_observation : ClbObservation
empty_observation = record {
  load_balancer_id = none;
  create_time = none;
  network_type = none;
  master_zone_id = none;
  modification_protection_reason = none;
  modification_protection_status = none;
  load_balancer_status = none;
  resource_group_id = none;
  delete_protection = none;
  address = none;
}

module _ {S : Type 0} where
  -- `res.Body.LoadBalancers.LoadBalancer[0]`
  abbrev pub first : List LoadBalancer → M S LoadBalancer
  first [] = crash
  first (lb ∷ _) = pure lb

  -- `GenerateObservation`
  unfoldable pub generate_observation : DescribeLoadBalancersResponse → M S ClbObservation
  generate_observation res = do
    count ← deref res.total_count
    if eqb_ℤ count (pos 0) then pure empty_observation else do
      lb ← first res.load_balancers
      pure (record empty_observation {
        load_balancer_id = lb.load_balancer_id;
        create_time = lb.create_time;
        network_type = lb.network_type;
        load_balancer_status = lb.load_balancer_status;
        address = lb.address;
      })

-- `wanted != nil && (found == nil || *wanted != *found)`
abbrev pub differs : Option String → Option String → Bool
differs none _ = false
differs (some _) none = true
differs (some a) (some b) = not (a == b)

module _ {S : Type 0} where
  abbrev pub matches_load_balancer : ClbParameter → LoadBalancer → M S Bool
  matches_load_balancer spec lb =
      if differs spec.load_balancer_spec lb.load_balancer_spec
      then pure false
      else if differs spec.vpc_id lb.vpc_id
      then pure false
      else if differs spec.vswitch_id lb.vswitch_id
      then pure false
      else (do wanted ← deref spec.region; found ← deref lb.region_id; pure (wanted == found))

  -- `IsUpdateToDate`
  unfoldable pub is_update_to_date : Clb → DescribeLoadBalancersResponse → M S Bool
  is_update_to_date cr res = do
    count ← deref res.total_count
    if eqb_ℤ count (pos 0)
        then pure false
        else first res.load_balancers >>= matches_load_balancer cr.for_provider

module _ {W : Type 0} (c : SdkClient W) where
  unfoldable pub describe_load_balancers :
      Option String
      → Option String
      → Option String
      → Option String
      → M W DescribeLoadBalancersResponse
  describe_load_balancers region load_balancer_id vpc_id vswitch_id =
      c.describe_load_balancers (record {
        region_id = region;
        load_balancer_id = load_balancer_id;
        vpc_id = vpc_id;
        vswitch_id = vswitch_id;
      })

  -- The account of the resource's owner is taken from `OwnerAccount`, as the owner's is.
  unfoldable pub create_load_balancer : String → ClbParameter → M W CreateLoadBalancerResponse
  create_load_balancer name p = c.create_load_balancer (record {
    region_id = p.region;
    address_type = p.address_type;
    address = p.address;
    internet_charge_type = p.internet_charge_type;
    bandwidth = p.bandwidth;
    load_balancer_name = some name;
    vpc_id = p.vpc_id;
    vswitch_id = p.vswitch_id;
    load_balancer_spec = p.load_balancer_spec;
    client_token = p.client_token;
    owner_id = p.owner_id;
    resource_owner_account = p.owner_account;
    resource_group_id = p.resource_group_id;
    owner_account = p.owner_account;
    master_zone_id = p.master_zone_id;
    slave_zone_id = p.slave_zone_id;
    pay_type = p.pay_type;
    pricing_cycle = p.pricing_cycle;
    duration = p.duration;
    auto_pay = p.auto_pay;
    delete_protection = p.delete_protection;
    modification_protection_status = p.modification_protection_status;
    modification_protection_reason = p.modification_protection_reason;
  })

  unfoldable pub delete_load_balancer : Option String → Option String → M W (Unit {0})
  delete_load_balancer region load_balancer_id =
      c.delete_load_balancer (record { region_id = region; load_balancer_id = load_balancer_id })

  abbrev pub client : Client W
  client = record {
    describe_load_balancers = describe_load_balancers;
    create_load_balancer = create_load_balancer;
    delete_load_balancer = delete_load_balancer;
  }

-- `NewClient`
abbrev pub new_client :
    {W : Type 0} → Constructor W → String → String → String → String → Result (Client W)
new_client make endpoint access_key_id access_key_secret security_token =
    let config : Config = record {
      access_key_id = access_key_id;
      access_key_secret = access_key_secret;
      security_token = security_token;
      endpoint = endpoint;
    } in
    elim (make config) [
      | value c ↦ value (client c)
      | error e ↦ error (wrap err_failed_to_create_slb_client e)
    ]
