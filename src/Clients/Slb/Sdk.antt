-- ===== src/Clients/Slb/Sdk.antt =====
-- The SDK of pkg/clients/slb: its requests, its responses and its calls. A pointer is an `Option`; the
-- bodies and the wrappers of the lists are always there.
use provider_alibaba.Base.{String, Bool, Option, List}
use provider_alibaba.Base.Int.{ℤ}
use provider_alibaba.Go.{M, Result}

pub record DescribeLoadBalancersRequest : Type 0 where
  pub region_id : Option String
  pub load_balancer_id : Option String
  pub vpc_id : Option String
  pub vswitch_id : Option String

pub record LoadBalancer : Type 0 where
  pub load_balancer_id : Option String
  pub create_time : Option String
  pub network_type : Option String
  pub load_balancer_status : Option String
  pub address : Option String
  pub load_balancer_spec : Option String
  pub vpc_id : Option String
  pub vswitch_id : Option String
  pub region_id : Option String

pub record DescribeLoadBalancersResponse : Type 0 where
  pub total_count : Option ℤ
  pub load_balancers : List LoadBalancer

pub record CreateLoadBalancerRequest : Type 0 where
  pub region_id : Option String
  pub address_type : Option String
  pub address : Option String
  pub internet_charge_type : Option String
  pub bandwidth : Option ℤ
  pub load_balancer_name : Option String
  pub vpc_id : Option String
  pub vswitch_id : Option String
  pub load_balancer_spec : Option String
  pub client_token : Option String
  pub owner_id : Option ℤ
  pub resource_owner_account : Option String
  pub resource_group_id : Option String
  pub owner_account : Option String
  pub master_zone_id : Option String
  pub slave_zone_id : Option String
  pub pay_type : Option String
  pub pricing_cycle : Option String
  pub duration : Option ℤ
  pub auto_pay : Option Bool
  pub delete_protection : Option String
  pub modification_protection_status : Option String
  pub modification_protection_reason : Option String

pub record CreateLoadBalancerResponse : Type 0 where
  pub load_balancer_id : Option String

pub record DeleteLoadBalancerRequest : Type 0 where
  pub region_id : Option String
  pub load_balancer_id : Option String

-- `sdk.Client`
pub record SdkClient (W : Type 0) : Type 0 where
  pub describe_load_balancers : DescribeLoadBalancersRequest → M W DescribeLoadBalancersResponse
  pub create_load_balancer : CreateLoadBalancerRequest → M W CreateLoadBalancerResponse
  pub delete_load_balancer : DeleteLoadBalancerRequest → M W (Unit {0})

-- `openapi.Config`
pub record Config : Type 0 where
  pub access_key_id : String
  pub access_key_secret : String
  pub security_token : String
  pub endpoint : String

-- `sdk.NewClient`
abbrev pub Constructor : Type 0 → Type 0
Constructor W = Config → Result (SdkClient W)
