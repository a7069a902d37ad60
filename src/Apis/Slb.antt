-- ===== src/Apis/Slb.antt =====
-- apis/slb/v1alpha1/clb_types.go. A pointer is an `Option`.
use provider_alibaba.Base.{String, Bool, Option}
use provider_alibaba.Base.Int.{ℤ}
use provider_alibaba.Crossplane.{Resource}

pub record ClbParameter : Type 0 where
  pub region : Option String
  pub address_type : Option String
  pub address : Option String
  pub bandwidth : Option ℤ
  pub internet_charge_type : Option String
  pub vpc_id : Option String
  pub vswitch_id : Option String
  pub load_balancer_spec : Option String
  pub client_token : Option String
  pub owner_id : Option ℤ
  pub resource_owner_account : Option String
  pub resource_owner_id : Option ℤ
  pub owner_account : Option String
  pub master_zone_id : Option String
  pub slave_zone_id : Option String
  pub resource_group_id : Option String
  pub pay_type : Option String
  pub pricing_cycle : Option String
  pub duration : Option ℤ
  pub auto_pay : Option Bool
  pub address_ip_version : Option String
  pub delete_protection : Option String
  pub modification_protection_status : Option String
  pub modification_protection_reason : Option String

pub record ClbObservation : Type 0 where
  pub load_balancer_id : Option String
  pub create_time : Option String
  pub network_type : Option String
  pub master_zone_id : Option String
  pub modification_protection_reason : Option String
  pub modification_protection_status : Option String
  pub load_balancer_status : Option String
  pub resource_group_id : Option String
  pub delete_protection : Option String
  pub address : Option String

abbrev pub Clb : Type 0
Clb = Resource ClbParameter ClbObservation
