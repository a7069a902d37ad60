-- ===== src/Controller/Nas/MountTarget/Roundtrip.antt =====
-- What `Observe` of mountpoint_controller.go says after `Create`, over a service that keeps mount targets.
use provider_alibaba.Base.{String, true, ◌≡◌, ◌≢◌, refl, arith, Option, none, some, [], ◌∷◌, eq_iff}
use provider_alibaba.Base.Int.{pos}
use provider_alibaba.Go.{Env, Outcome, ok, err, panic}
use provider_alibaba.Crossplane.{ExternalObservation, ExternalCreation, available}
use provider_alibaba.Apis.Nas.{NasMountTarget, NasMountTargetParameter}
use provider_alibaba.Clients.Nas.{
  SdkClient, client, MountTarget, CreateMountTargetRequest, CreateMountTargetResponse,
  DescribeMountTargetsRequest, DescribeMountTargetsResponse, describe_mount_targets,
  create_mount_target, generate_observation_4_mount_target, is_mount_target_update_to_date,
}
use provider_alibaba.Clients.Nas.Laws.{
  Agrees, SameMountTarget, is_mount_target_update_to_date_of_Current,
}
use provider_alibaba.Clients.Nas.Targets.{KeepsTargets, Made, Honours, only}
use provider_alibaba.Controller.Nas.Frame.{target_check-reads}
use provider_alibaba.Controller.Nas.MountTarget.{
  observe_cr, observe_described, create_cr, get_mount_target_connection_details,
}

-- All four settings that are compared are given.
pub record IsGiven (p : NasMountTargetParameter) : Type 0 where
  pub vpc_given : p.vpc_id ≢ none
  pub vswitch_given : p.vswitch_id ≢ none
  pub access_group_given : p.access_group_name ≢ none
  pub network_type_given : p.network_type ≢ none

-- An observation that asks for nothing, of a resource that is available, with the details that were
-- published before.
pub record Settled {W : Type 0} (s : Env NasMountTarget W) (made : ExternalCreation)
    (o : ExternalObservation) (t : Env NasMountTarget W) : Type 0 where
  exists : o.resource_exists ≡ true
  up_to_date : o.resource_up_to_date ≡ true
  same_details : o.connection_details ≡ made.connection_details
  is_available : t.cr.conditions ≡ available ∷ s.cr.conditions

honoured-Agrees : (a b : Option String) → a ≢ none → Honours a b → Agrees a b
honoured-Agrees none b given h = absurd (given refl)
honoured-Agrees (some x) b given h = (x, refl, ground arith)

-- The request of a resource.
abbrev pub asks : NasMountTarget → CreateMountTargetRequest
asks cr = record {
  file_system_id = cr.for_provider.file_system_id;
  access_group_name = cr.for_provider.access_group_name;
  network_type = cr.for_provider.network_type;
  vpc_id = cr.for_provider.vpc_id;
  vswitch_id = cr.for_provider.vswitch_id;
  security_group_id = cr.for_provider.security_group_id;
}

abbrev pub finds : NasMountTarget → DescribeMountTargetsRequest
finds cr = record {
  file_system_id = cr.for_provider.file_system_id;
  mount_target_domain = cr.at_provider.mount_target_domain;
}

made-Same :
    (cr : NasMountTarget) (m : MountTarget)
    → IsGiven cr.for_provider
    → Made (asks cr) m
    → SameMountTarget cr.for_provider m
made-Same cr m g k = record {
  vpc_same = honoured-Agrees _ _ g.vpc_given k.vpc_made;
  vswitch_same = honoured-Agrees _ _ g.vswitch_given k.vswitch_made;
  access_group_same = honoured-Agrees _ _ g.access_group_given k.access_group_made;
  network_type_same = honoured-Agrees _ _ g.network_type_given k.network_type_made;
}

one_counted : pos 1 ≢ pos 0
one_counted = ground arith

is_mount_target_update_to_date-only :
    {S : Type 0} (cr : NasMountTarget) (m : MountTarget) (s : S)
    → SameMountTarget cr.for_provider m
    → (is_mount_target_update_to_date cr (only m) s).0 ≡ ok true
is_mount_target_update_to_date-only cr m s k =
    is_mount_target_update_to_date_of_Current cr (only m) s (record {
      count = pos 1;
      target = m;
      others = [];
      total = refl;
      counted = one_counted;
      listed = refl;
      same = k;
    })

module _ {W : Type 0} (c : SdkClient W) (K : KeepsTargets c) where
  observe_cr-Same :
      (s : Env NasMountTarget W) (m : MountTarget) {w : W} {made : ExternalCreation}
      → s.cr.external_name ≢ ""
      → SameMountTarget s.cr.for_provider m
      → made.connection_details ≡ get_mount_target_connection_details s.cr
      → c.describe_mount_targets (finds s.cr) s.world ≡ (ok (only m), w)
      → (o : ExternalObservation) × ((observe_cr (client c) s).0 ≡ ok o)
        × Settled s made o (observe_cr (client c) s).1
  unfolding observe_cr observe_described describe_mount_targets get_mount_target_connection_details
  observe_cr-Same s m {w} {made} named k details found =
      let t : Env NasMountTarget W = record s { world = w } in
      let fresh = is_mount_target_update_to_date-only s.cr m t k in
      let reads = target_check-reads s.cr (only m) t in
      let absent = eq_iff s.cr.external_name "" in
      let o : ExternalObservation = record {
        resource_exists = true;
        resource_up_to_date = true;
        connection_details = get_mount_target_connection_details s.cr;
      } in
      (
        o,
        ground arith,
        record {
          exists = refl;
          up_to_date = refl;
          same_details = ground arith;
          is_available = ground arith;
        },
      )

  create_cr-kept :
      (s : Env NasMountTarget W) (rc : Outcome CreateMountTargetResponse) {made : ExternalCreation}
      → (c.create_mount_target (asks s.cr) s.world).0 ≡ rc
      → (create_cr (client c) s).0 ≡ ok made
      → let t = (create_cr (client c) s).1 in
        (m : MountTarget) × (K.target t.world t.cr.for_provider.file_system_id
            t.cr.at_provider.mount_target_domain
          ≡ some m)
        × (made.connection_details ≡ get_mount_target_connection_details t.cr)
        × (t.cr.for_provider ≡ s.cr.for_provider)
        × (t.cr.external_name ≡ s.cr.external_name)
        × Made (asks s.cr) m
  unfolding create_cr create_mount_target generate_observation_4_mount_target
  create_cr-kept s (ok res) asked h =
      let (m, kept, k) = K.created (asks s.cr) s.world {r = res} asked in
      (m, ground arith, ground arith, ground arith, ground arith, k)
  create_cr-kept s (err e) asked h = absurd (ground arith)
  create_cr-kept s panic asked h = absurd (ground arith)

  -- Over a service that keeps mount targets, for a mount target with an external name whose VPC,
  -- VSwitch, access group and network type are given: where `Create` succeeds and the service then
  -- answers the request for the mount target of the status, the next `Observe` succeeds, reports
  -- that it exists and is up to date with the connection details that `Create` published, and
  -- leaves it available.
  pub create_target-observed :
      (s : Env NasMountTarget W) {made : ExternalCreation} {r : DescribeMountTargetsResponse}
      → s.cr.external_name ≢ ""
      → IsGiven s.cr.for_provider
      → (create_cr (client c) s).0 ≡ ok made
      → let t = (create_cr (client c) s).1 in
        (c.describe_mount_targets (finds t.cr) t.world).0 ≡ ok r
        → (o : ExternalObservation) × ((observe_cr (client c) t).0 ≡ ok o)
          × Settled t made o (observe_cr (client c) t).1
  create_target-observed s {made} {r} named given created answered =
      let t = (create_cr (client c) s).1 in
      let (m, kept, details, same, kept_name, k) =
        create_cr-kept s (c.create_mount_target (asks s.cr) s.world).0 {made = made} refl created in
      let this : r ≡ only m = K.described (finds t.cr) t.world m {r = r} kept answered in
      observe_cr-Same t m {w = (c.describe_mount_targets (finds t.cr) t.world).1} {made = made}
        (rw kept_name named) (rw same (made-Same s.cr m given k)) details (ground arith)
