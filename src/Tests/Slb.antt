-- ===== src/Tests/Slb.antt =====
-- The SLB theorems over a service that keeps its load balancers in a table, which is the world.
use provider_alibaba.Base.{
  String, ◌≡◌, refl, arith, Option, none, some, inr, [], ◌∷◌, eq_iff, eq_refl, ◌==◌, if◌then◌else◌,
}
use provider_alibaba.Base.Int.{pos}
use provider_alibaba.Go.{Env, ok}
use provider_alibaba.Crossplane.{ExternalObservation}
use provider_alibaba.Apis.Slb.{Clb, ClbParameter}
use provider_alibaba.Clients.Slb.{
  SdkClient, client, LoadBalancer, DescribeLoadBalancersResponse, CreateLoadBalancerRequest,
  create_load_balancer, describe_load_balancers, empty_observation, generate_observation,
}
use provider_alibaba.Clients.Slb.Balancers.{KeepsBalancers, only}
use provider_alibaba.Controller.Slb.{observe_cr, create_cr, get_connection_details}
use provider_alibaba.Controller.Slb.Roundtrip.{Settled, create_balancer-observed}

abbrev Table : Type 0
Table = String → Option LoadBalancer

-- The id is always the same.
abbrev made_balancer : CreateLoadBalancerRequest → LoadBalancer
made_balancer req = record {
  load_balancer_id = some "lb-1";
  create_time = some "1";
  network_type = none;
  load_balancer_status = some "active";
  address = some "10.0.0.1";
  load_balancer_spec = req.load_balancer_spec;
  vpc_id = req.vpc_id;
  vswitch_id = req.vswitch_id;
  region_id = req.region_id;
}

put : String → LoadBalancer → Table → Table
put n lb t m = if m == n then some lb else t m

find : Table → Option String → Option LoadBalancer
find t none = none
find t (some id) = t id

abbrev answer : Option LoadBalancer → DescribeLoadBalancersResponse
answer none = record { total_count = some (pos 0); load_balancers = [] }
answer (some lb) = only lb

abbrev store : SdkClient Table
store = record {
  describe_load_balancers = λ req t. (ok (answer (find t req.load_balancer_id)), t);
  create_load_balancer =
      λ req t. (ok (record { load_balancer_id = some "lb-1" }), put "lb-1" (made_balancer req) t);
  delete_load_balancer = λ req t. (ok tt, t);
}

store-KeepsBalancers : KeepsBalancers store
unfolding put find
store-KeepsBalancers = record {
  balancer = find;
  described = λ req t lb kept passes h. ground arith;
  reads = λ req t id. refl;
  created = λ req t {r} h. (
    made_balancer req,
    ground (arith, eq_refl "lb-1"),
    record {
      id_made = ground arith;
      region_made = inr refl;
      spec_made = inr refl;
      vpc_made = inr refl;
      vswitch_made = inr refl;
    },
  );
}

abbrev wanted : ClbParameter
wanted = record {
  region = some "cn-beijing";
  address_type = none;
  address = none;
  bandwidth = none;
  internet_charge_type = none;
  vpc_id = none;
  vswitch_id = none;
  load_balancer_spec = some "slb.s1.small";
  client_token = none;
  owner_id = none;
  resource_owner_account = none;
  resource_owner_id = none;
  owner_account = none;
  master_zone_id = none;
  slave_zone_id = none;
  resource_group_id = none;
  pay_type = none;
  pricing_cycle = none;
  duration = none;
  auto_pay = none;
  address_ip_version = none;
  delete_protection = none;
  modification_protection_status = none;
  modification_protection_reason = none;
}

abbrev start : Env Clb Table
start = record {
  cr = record {
    kind = "CLB";
    name = "front";
    external_name = "front";
    provider_config_reference = some "default";
    for_provider = wanted;
    at_provider = empty_observation;
    conditions = [];
  };
  world = λ id. none;
}

abbrev created : Env Clb Table
created = (create_cr (client store) start).1

create_balancer-observed_example :
    (o : ExternalObservation) × ((observe_cr (client store) created).0 ≡ ok o)
    × Settled created o (observe_cr (client store) created).1
unfolding create_cr create_load_balancer describe_load_balancers generate_observation
    get_connection_details store-KeepsBalancers put find
create_balancer-observed_example =
    create_balancer-observed store store-KeepsBalancers start
      {made = record {
        connection_details = ("Address", "10.0.0.1") ∷ ("LoadBalancerId", "lb-1") ∷ [];
      }}
      {r = only (record {
        load_balancer_id = some "lb-1";
        create_time = some "1";
        network_type = none;
        load_balancer_status = some "active";
        address = some "10.0.0.1";
        load_balancer_spec = some "slb.s1.small";
        vpc_id = none;
        vswitch_id = none;
        region_id = some "cn-beijing";
      })}
      (ground (arith, eq_iff "front" "")) (ground arith) refl refl
