-- ===== src/Tests/Nas.antt =====
-- The NAS and the SLB theorems at concrete resources and services.
mod Targets
use provider_alibaba.Clients
use provider_alibaba.Base.{◌↔◌, true, ℕ, suc, none, some, [], ◌∷◌, ◌≡◌, ◌≢◌, refl, arith, eq_iff}
use provider_alibaba.Base.Int.{ℤ, pos, eqb_ℤ_iff}
use provider_alibaba.Go.{Env, ok, panic}
use provider_alibaba.Crossplane.{ExternalCreation}
use provider_alibaba.Apis.Nas.{NasFileSystem, NasMountTarget}
use provider_alibaba.Apis.Slb.{Clb, ClbParameter}
use provider_alibaba.Clients.Nas.{
  Client, MountTarget, DescribeMountTargetsResponse, is_mount_target_update_to_date,
}
use provider_alibaba.Clients.Nas.Laws.{is_mount_target_update_to_date_iff}
use provider_alibaba.Clients.Slb.{
  LoadBalancer, DescribeLoadBalancersResponse, is_update_to_date, empty_observation,
}
use provider_alibaba.Clients.Slb
use provider_alibaba.Clients.Slb.Laws.{is_update_to_date_iff}
use provider_alibaba.Controller.Nas.MountTarget
use provider_alibaba.Controller.Nas.Laws.{observe_cr-classic}

abbrev target : NasMountTarget
target = record {
  kind = "NASMountTarget";
  name = "mount";
  external_name = "mount";
  provider_config_reference = some "default";
  for_provider = record {
    file_system_id = some "fs-1";
    access_group_name = some "group";
    network_type = some "Vpc";
    vpc_id = some "vpc-1";
    vswitch_id = some "vsw-1";
    security_group_id = none;
  };
  at_provider = record { mount_target_domain = some "fs-1.nas.aliyuncs.com" };
  conditions = [];
}

abbrev in_vpc : MountTarget
in_vpc = record {
  vpc_id = some "vpc-1";
  vsw_id = some "vsw-1";
  access_group = some "group";
  network_type = some "Vpc";
}

abbrev one_target : DescribeMountTargetsResponse
one_target = record { total_count = some (pos 1); mount_targets = in_vpc ∷ [] }

is_mount_target_update_to_date_iff_example :
    ((is_mount_target_update_to_date {S = ℕ} target one_target 0).0 ≡ ok true)
    ↔ Clients.Nas.Laws.Current target one_target
is_mount_target_update_to_date_iff_example =
    is_mount_target_update_to_date_iff {S = ℕ} target one_target 0

abbrev classic : MountTarget
classic = record {
  vpc_id = none;
  vsw_id = none;
  access_group = some "group";
  network_type = some "Classic";
}

abbrev classic_target : NasMountTarget
classic_target = record target {
  for_provider = record target.for_provider {
    network_type = some "Classic";
    vpc_id = none;
    vswitch_id = none;
  };
}

abbrev classic_response : DescribeMountTargetsResponse
classic_response = record { total_count = some (pos 1); mount_targets = classic ∷ [] }

abbrev service : Client ℕ
service = record {
  describe_file_systems =
      λ id type vpc w. (ok (record { total_count = some (pos 0); file_systems = [] }), suc w);
  create_file_system = λ p w. (ok (record { file_system_id = some "fs-1" }), suc w);
  delete_file_system = λ id w. (ok tt, suc w);
  describe_mount_targets = λ id domain w. (ok classic_response, suc w);
  create_mount_target = λ p w. (ok (record { mount_target_domain = some "d" }), suc w);
  delete_mount_target = λ id domain w. (ok tt, suc w);
}

one_there : ◌≢◌ {A = ℤ} (pos 1) (pos 0)
one_there = ground (arith, eqb_ℤ_iff (pos 1) (pos 0))

observe_cr-classic_example :
    MountTarget.observe_cr service (record { cr = classic_target; world = 0 })
    ≡ (panic, record { cr = classic_target; world = 1 })
observe_cr-classic_example =
    observe_cr-classic service (record { cr = classic_target; world = 0 }) {r = classic_response}
      {w = 1} {n = pos 1} {m = classic} {rest = []} (ground (arith, eq_iff "mount" "")) refl refl
      one_there refl refl refl

abbrev file_system : NasFileSystem
file_system = record {
  kind = "NASFileSystem";
  name = "files";
  external_name = "files";
  provider_config_reference = some "default";
  for_provider = record {
    file_system_type = some "standard";
    charge_type = none;
    storage_type = some "Performance";
    protocol_type = some "NFS";
    vpc_id = some "vpc-1";
    vswitch_id = some "vsw-1";
  };
  at_provider = record { file_system_id = ""; mount_target_domain = "" };
  conditions = [];
}

abbrev start : Env NasFileSystem ℕ
start = record { cr = file_system; world = 0 }

abbrev creation : ExternalCreation
creation = record {
  connection_details =
      ("MountTargetDomain", "") ∷ ("FileSystemID", "fs-1") ∷ ("FileSystemType", "standard") ∷ [];
}

abbrev clb_parameter : ClbParameter
clb_parameter = record {
  region = some "cn-beijing";
  address_type = none;
  address = none;
  bandwidth = none;
  internet_charge_type = none;
  vpc_id = some "vpc-1";
  vswitch_id = none;
  load_balancer_spec = none;
  client_token = none;
  owner_id = none;
  resource_owner_account = none;
  resource_owner_id = none;
  owner_account = none;
  master_zone_id = none;
  slave_zone_id = none;
  resource_group_id = none;
  pay_type = none;
  pricing_cycle = none;
  duration = none;
  auto_pay = none;
  address_ip_version = none;
  delete_protection = none;
  modification_protection_status = none;
  modification_protection_reason = none;
}

abbrev balancer : Clb
balancer = record {
  kind = "CLB";
  name = "front";
  external_name = "front";
  provider_config_reference = some "default";
  for_provider = clb_parameter;
  at_provider = empty_observation;
  conditions = [];
}

abbrev found : LoadBalancer
found = record {
  load_balancer_id = some "lb-1";
  create_time = none;
  network_type = some "vpc";
  load_balancer_status = some "active";
  address = some "10.0.0.1";
  load_balancer_spec = some "slb.s1.small";
  vpc_id = some "vpc-1";
  vswitch_id = some "vsw-1";
  region_id = some "cn-beijing";
}

abbrev one_balancer : DescribeLoadBalancersResponse
one_balancer = record { total_count = some (pos 1); load_balancers = found ∷ [] }

is_update_to_date_iff_example :
    ((is_update_to_date {S = ℕ} balancer one_balancer 0).0 ≡ ok true)
    ↔ Clients.Slb.Laws.Current balancer one_balancer
is_update_to_date_iff_example = is_update_to_date_iff {S = ℕ} balancer one_balancer 0

abbrev nothing : DescribeLoadBalancersResponse
nothing = record { total_count = some (pos 0); load_balancers = [] }

-- It has no load balancers.
abbrev empty_service : Slb.Client ℕ
empty_service = record {
  describe_load_balancers = λ region id vpc vswitch w. (ok nothing, suc w);
  create_load_balancer = λ name p w. (ok (record { load_balancer_id = some "lb-1" }), suc w);
  delete_load_balancer = λ region id w. (ok tt, suc w);
}
