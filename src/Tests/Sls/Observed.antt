-- ===== src/Tests/Sls/Observed.antt =====
-- The SLS theorems on what the next `Observe` says, at services that keep what they are sent.
use provider_alibaba.Base.{
  String, ℕ, true, some, List, [], ◌∷◌, ◌≡◌, ◌≢◌, refl, arith, ◌==◌, eq_iff, eq_refl, if◌then◌else◌,
  ◌||◌,
}
use provider_alibaba.Base.Int.{pos}
use provider_alibaba.Go.{Env, ok, panics}
use provider_alibaba.Crossplane.{ExternalObservation}
use provider_alibaba.Apis
use provider_alibaba.Clients.Sls.{Client, client}
use provider_alibaba.Clients.Sls.Sdk
use provider_alibaba.Clients.Sls.Sdk.{SdkClient}
use provider_alibaba.Clients.Sls.Applied.{Applies, contains}
use provider_alibaba.Clients.Sls.MachineGroup.{
  get_applied_configs, apply_config_to_machine_group, remove_config_from_machine_group,
}
use provider_alibaba.Clients.Sls.Panics.{
  create_index-panics, create_config-panics, lacks_keys, lacks_config, is_nil,
}
use provider_alibaba.Clients.Sls.Index.{create_index}
use provider_alibaba.Clients.Sls.Config.{
  create_config, make_config, make_input_detail, with_optional, empty_input_detail,
}
use provider_alibaba.Controller.Sls.Store
use provider_alibaba.Controller.Sls.Logtail
use provider_alibaba.Controller.Sls.MachineGroupBinding.{
  observe_cr, observe_configs, create_cr, delete_cr, join,
  get_machine_group_binding_connection_details,
}
use provider_alibaba.Controller.Sls.MachineGroupBinding.Observed.{
  Names, create_cr-binding_observed, delete_cr-still_bound,
}
use provider_alibaba.Controller.Sls.Observed.{create_logtail-observed}
use provider_alibaba.Tests.Sls.Resources.{
  sdk, service, idle, tail_parameters, store, index, binding, disguised,
}

without : String → List String → List String
without f [] = []
without f (x ∷ xs) = let rest = without f xs in if x == f then rest else x ∷ rest

contains-without :
    (f : String) (l : List String) {other : String}
    → other ≢ f
    → contains other l ≡ true
    → contains other (without f l) ≡ true
unfolding without
contains-without f [] differs held = absurd (cc)
contains-without f (x ∷ xs) {other} differs held =
    ground (arith, eq_iff x f, eq_iff x other, contains-without f xs {other = other} differs)

-- The world is the list of the configs of all groups.
abbrev configs_service : SdkClient (List String)
configs_service = record idle {
  get_applied_configs = λ p g w. (ok w, w);
  apply_config_to_machine_group = λ p f g w. (ok tt, f ∷ w);
  remove_config_from_machine_group = λ p f g w. (ok tt, without f w);
}

configs_service-Applies : Applies configs_service
configs_service-Applies = record {
  applied = λ w p g. w;
  got = λ p g w h. ground arith;
  applies = λ p f g w h. ground (arith, eq_refl f);
  removes_one = λ p f g w other held. contains-without f w other held;
}

binding-Names : Names binding "logs" "machines" "tail"
binding-Names = record {
  project = refl;
  group = refl;
  config = refl;
  external = ground (arith, eq_iff "binding" "");
}

abbrev unbound : Env Apis.Sls.MachineGroupBinding (List String)
unbound = record { cr = binding; world = "other" ∷ [] }

abbrev bound : ExternalObservation
bound = record {
  resource_exists = true;
  resource_up_to_date = true;
  connection_details = ("Configs", "tail, other") ∷ [];
}

create_cr-binding_observed_example :
    (o : ExternalObservation) × ((observe_cr
        (client configs_service)
        (create_cr (client configs_service) unbound).1).0
      ≡ ok o)
    × (o.resource_exists ≡ true)
    × (o.resource_up_to_date ≡ true)
    × (o.connection_details ≡ ("Configs", join ", " ("tail" ∷ "other" ∷ [])) ∷ [])
    × (contains "tail" ("tail" ∷ "other" ∷ []) ≡ true)
unfolding configs_service-Applies create_cr apply_config_to_machine_group observe_cr observe_configs
    get_applied_configs get_machine_group_binding_connection_details join
create_cr-binding_observed_example =
    create_cr-binding_observed configs_service configs_service-Applies unbound
      {made = record { connection_details = [] }} {l = "tail" ∷ "other" ∷ []} binding-Names refl
      refl

abbrev twice_bound : Env Apis.Sls.MachineGroupBinding (List String)
twice_bound = record { cr = binding; world = "tail" ∷ "other" ∷ [] }

abbrev others_bound : ExternalObservation
others_bound = record bound { connection_details = ("Configs", "other") ∷ [] }

delete_cr-still_bound_example :
    (o : ExternalObservation) × ((observe_cr
        (client configs_service)
        (delete_cr (client configs_service) twice_bound).1).0
      ≡ ok o)
    × (o.resource_exists ≡ true)
    × (o.resource_up_to_date ≡ true)
unfolding configs_service-Applies delete_cr remove_config_from_machine_group observe_cr
    observe_configs get_applied_configs get_machine_group_binding_connection_details join without
delete_cr-still_bound_example =
    delete_cr-still_bound configs_service configs_service-Applies twice_bound {x = "other"}
      {l = "other" ∷ []} binding-Names (ground (arith, eq_iff "other" "tail")) refl refl

-- The name of the object is another than the one in the annotation.
abbrev renamed : Env Apis.Sls.LogStore ℕ
renamed = record { cr = record store { name = "access-logs" }; world = 0 }

abbrev kept_store : Sdk.LogStore
kept_store = record {
  name = "access";
  ttl = pos 7;
  shard_count = pos 2;
  auto_split = true;
  max_split_shard = pos 0;
  create_time = 1;
  last_modify_time = 2;
}

abbrev store_service : Client ℕ
store_service = record service { describe_store = λ p l w. (ok (some kept_store), w) }

abbrev tail : Env Apis.Sls.Logtail ℕ
tail = record { cr = disguised; world = 0 }

abbrev kept_config : Sdk.LogConfig
kept_config = record {
  name = "tail";
  input_type = "file";
  input_detail =
      with_optional (tail_parameters "common_reg_log").input_detail (record empty_input_detail {
        log_path = "/var/log";
        file_pattern = "*.log";
        log_type = "common_reg_log";
        topic_format = "none";
      });
  output_type = "LogService";
  project_name = "logs";
  log_store_name = "access";
  log_sample = "";
}

abbrev config_service : SdkClient ℕ
config_service = record sdk { get_config = λ p name w. (ok (some kept_config), w) }

create_logtail-observed_example :
    let t = (Logtail.create_cr (client config_service) tail).1 in
    (o : ExternalObservation) × ((Logtail.observe_cr (client config_service) t).0 ≡ ok o)
    × (o.resource_exists ≡ true)
    × (o.resource_up_to_date ≡ ("tail" == "tail"))
unfolding make_config make_input_detail
create_logtail-observed_example =
    create_logtail-observed config_service tail {config = kept_config}
      {w = (Logtail.create_cr (client config_service) tail).1.world}
      (ground (arith, eq_iff "tail" "")) refl refl

create_index-panics_example : panics (create_index sdk index.for_provider 0).0 ≡ (
    lacks_keys index.for_provider.keys
    || (is_nil index.for_provider.project_name || is_nil index.for_provider.logstore_name))
create_index-panics_example = create_index-panics sdk (λ p l i w. refl) index.for_provider 0

create_config-panics_example :
    panics (create_config sdk "tail" (tail_parameters "common_reg_log") 0).0
    ≡ lacks_config (tail_parameters "common_reg_log")
create_config-panics_example =
    create_config-panics sdk (λ p config w. refl) "tail" (tail_parameters "common_reg_log") 0
