-- ===== src/Tests/Nas/Targets.antt =====
-- The theorem on the mount targets over a service that keeps them in a table, which is the world.
use provider_alibaba.Base.{
  String, ◌≡◌, refl, arith, Option, none, some, inr, [], ◌∷◌, eq_iff, eq_refl, ◌==◌, if◌then◌else◌,
}
use provider_alibaba.Base.Int.{pos}
use provider_alibaba.Go.{Env, ok}
use provider_alibaba.Crossplane.{ExternalObservation, ExternalCreation}
use provider_alibaba.Apis.Nas.{NasMountTarget}
use provider_alibaba.Clients.Nas.{
  SdkClient, client, MountTarget, DescribeMountTargetsResponse, CreateMountTargetRequest,
  create_mount_target, generate_observation_4_mount_target,
}
use provider_alibaba.Clients.Nas.Targets.{KeepsTargets, only}
use provider_alibaba.Controller.Nas.MountTarget.{
  observe_cr, create_cr, get_mount_target_connection_details,
}
use provider_alibaba.Controller.Nas.MountTarget.Roundtrip.{IsGiven, Settled, create_target-observed}
use provider_alibaba.Tests.Nas.{target, in_vpc}

abbrev Table : Type 0
Table = String → Option MountTarget

abbrev made_target : CreateMountTargetRequest → MountTarget
made_target req = record {
  vpc_id = req.vpc_id;
  vsw_id = req.vswitch_id;
  access_group = req.access_group_name;
  network_type = req.network_type;
}

put : String → MountTarget → Table → Table
put d m t e = if e == d then some m else t e

find : Table → Option String → Option MountTarget
find t none = none
find t (some d) = t d

abbrev answer : Option MountTarget → DescribeMountTargetsResponse
answer none = record { total_count = some (pos 0); mount_targets = [] }
answer (some m) = only m

-- The domain is always the same.
abbrev store : SdkClient Table
store = record {
  describe_file_systems =
      λ req t. (ok (record { total_count = some (pos 0); file_systems = [] }), t);
  create_file_system = λ req t. (ok (record { file_system_id = some "fs-1" }), t);
  delete_file_system = λ id t. (ok tt, t);
  describe_mount_targets = λ req t. (ok (answer (find t req.mount_target_domain)), t);
  create_mount_target =
      λ req t. (ok (record { mount_target_domain = some "d" }), put "d" (made_target req) t);
  delete_mount_target = λ req t. (ok tt, t);
}

store-KeepsTargets : KeepsTargets store
unfolding put find
store-KeepsTargets = record {
  target = λ t id domain. find t domain;
  described = λ req t m kept h. ground arith;
  created = λ req t {r} h. (
    made_target req,
    ground (arith, eq_refl "d"),
    record {
      vpc_made = inr refl;
      vswitch_made = inr refl;
      access_group_made = inr refl;
      network_type_made = inr refl;
    },
  );
}

target-IsGiven : IsGiven target.for_provider
target-IsGiven = record {
  vpc_given = ground arith;
  vswitch_given = ground arith;
  access_group_given = ground arith;
  network_type_given = ground arith;
}

abbrev start : Env NasMountTarget Table
start = record { cr = target; world = λ d. none }

abbrev made : ExternalCreation
made = record { connection_details = ("MountTargetDomain", "d") ∷ [] }

abbrev created : Env NasMountTarget Table
created = (create_cr (client store) start).1

create_target-observed_example :
    (o : ExternalObservation) × ((observe_cr (client store) created).0 ≡ ok o)
    × Settled created made o (observe_cr (client store) created).1
unfolding create_cr create_mount_target generate_observation_4_mount_target
    get_mount_target_connection_details store-KeepsTargets put find
create_target-observed_example =
    create_target-observed store store-KeepsTargets start {made = made} {r = only in_vpc}
      (ground (arith, eq_iff "mount" "")) target-IsGiven refl refl
