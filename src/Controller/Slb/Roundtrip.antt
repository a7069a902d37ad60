-- ===== src/Controller/Slb/Roundtrip.antt =====
-- What `Observe` of pkg/controller/slb says after `Create`, over a service that keeps load balancers.
use provider_alibaba.Base.{
  String, true, ◌≡◌, ◌≢◌, refl, arith, inl, inr, Option-cases, Option, some, none, [], ◌∷◌, eq_iff,
}
use provider_alibaba.Base.Int.{pos, eqb_ℤ_iff}
use provider_alibaba.Go.{Env, Outcome, ok, err, panic}
use provider_alibaba.Crossplane.{
  ExternalObservation, ExternalCreation, available, creating, set_conditions,
}
use provider_alibaba.Apis.Slb.{Clb, ClbObservation}
use provider_alibaba.Clients.Slb.{
  SdkClient, client, LoadBalancer, DescribeLoadBalancersRequest, empty_observation,
  CreateLoadBalancerRequest, CreateLoadBalancerResponse, DescribeLoadBalancersResponse,
  describe_load_balancers, create_load_balancer, generate_observation, is_update_to_date,
}
use provider_alibaba.Clients.Slb.Laws.{Fits, is_update_to_date_of_Current}
use provider_alibaba.Clients.Slb.Balancers.{KeepsBalancers, Made, Passes, only}
use provider_alibaba.Controller.Slb.Frame.{check-reads}
use provider_alibaba.Controller.Slb.{
  observe_cr, observe_described, create_cr, get_connection_details,
}

one_counted : pos 1 ≢ pos 0
one_counted = ground arith

is_update_to_date-only :
    {S : Type 0} (cr : Clb) (lb : LoadBalancer) (s : S)
    → Fits cr.for_provider lb
    → (is_update_to_date cr (only lb) s).0 ≡ ok true
is_update_to_date-only cr lb s f = is_update_to_date_of_Current cr (only lb) s (record {
  count = pos 1;
  balancer = lb;
  others = [];
  total = refl;
  counted = one_counted;
  listed = refl;
  fits = f;
})

-- The status that a load balancer gives.
abbrev observation : LoadBalancer → ClbObservation
observation lb = record empty_observation {
  load_balancer_id = lb.load_balancer_id;
  create_time = lb.create_time;
  network_type = lb.network_type;
  load_balancer_status = lb.load_balancer_status;
  address = lb.address;
}

generate_observation-only :
    {S : Type 0} (lb : LoadBalancer) (s : S)
    → generate_observation (only lb) s ≡ (ok (observation lb), s)
unfolding generate_observation
generate_observation-only lb s = refl

-- The `CreateLoadBalancerRequest` of a resource, by what `Create` of the client sends.
abbrev pub asks : Clb → CreateLoadBalancerRequest
asks cr = record {
  region_id = cr.for_provider.region;
  address_type = cr.for_provider.address_type;
  address = cr.for_provider.address;
  internet_charge_type = cr.for_provider.internet_charge_type;
  bandwidth = cr.for_provider.bandwidth;
  load_balancer_name = some cr.name;
  vpc_id = cr.for_provider.vpc_id;
  vswitch_id = cr.for_provider.vswitch_id;
  load_balancer_spec = cr.for_provider.load_balancer_spec;
  client_token = cr.for_provider.client_token;
  owner_id = cr.for_provider.owner_id;
  resource_owner_account = cr.for_provider.owner_account;
  resource_group_id = cr.for_provider.resource_group_id;
  owner_account = cr.for_provider.owner_account;
  master_zone_id = cr.for_provider.master_zone_id;
  slave_zone_id = cr.for_provider.slave_zone_id;
  pay_type = cr.for_provider.pay_type;
  pricing_cycle = cr.for_provider.pricing_cycle;
  duration = cr.for_provider.duration;
  auto_pay = cr.for_provider.auto_pay;
  delete_protection = cr.for_provider.delete_protection;
  modification_protection_status = cr.for_provider.modification_protection_status;
  modification_protection_reason = cr.for_provider.modification_protection_reason;
}

abbrev pub finds : Clb → Option String → DescribeLoadBalancersRequest
finds cr id = record {
  region_id = cr.for_provider.region;
  load_balancer_id = id;
  vpc_id = cr.for_provider.vpc_id;
  vswitch_id = cr.for_provider.vswitch_id;
}

-- What `Create` leaves behind: a status that is about one load balancer, which the service keeps.
pub record Bound {W : Type 0} (c : SdkClient W) (K : KeepsBalancers c) (s t : Env Clb W)
    (lb : LoadBalancer) : Type 0 where
  address : String
  id : String
  resource : t.cr ≡ record (set_conditions creating s.cr) { at_provider = observation lb }
  kept : K.balancer t.world lb.load_balancer_id ≡ some lb
  addressed : lb.address ≡ some address
  identified : lb.load_balancer_id ≡ some id
  fits : Fits s.cr.for_provider lb
  passes : Passes (finds s.cr lb.load_balancer_id) lb

made-Fits :
    (cr : Clb) (res : CreateLoadBalancerResponse) (lb : LoadBalancer)
    → cr.for_provider.region ≢ none
    → Made (asks cr) res lb
    → Fits cr.for_provider lb
made-Fits cr res lb given m = record {
  spec_fits = m.spec_made;
  vpc_fits = m.vpc_made;
  vswitch_fits = m.vswitch_made;
  region_given = given;
  region_fits = ground (arith, m.region_made);
}

made-Passes :
    (cr : Clb) (id : Option String) (res : CreateLoadBalancerResponse) (lb : LoadBalancer)
    → Made (asks cr) res lb
    → Passes (finds cr id) lb
made-Passes cr id res lb m = record {
  region_passes = m.region_made;
  vpc_passes = m.vpc_made;
  vswitch_passes = m.vswitch_made;
}

-- An observation that asks for nothing, of a resource that is available.
pub record Settled {W : Type 0} (s : Env Clb W) (o : ExternalObservation) (t : Env Clb W)
    : Type 0 where
  exists : o.resource_exists ≡ true
  up_to_date : o.resource_up_to_date ≡ true
  is_available : t.cr.conditions ≡ available ∷ s.cr.conditions

module _ {W : Type 0} (c : SdkClient W) (K : KeepsBalancers c) where
  observe_cr-Bound_of :
      (s : Env Clb W) (lb : LoadBalancer) (address id : String) {w : W}
      → s.cr.external_name ≢ ""
      → Fits s.cr.for_provider lb
      → lb.address ≡ some address
      → lb.load_balancer_id ≡ some id
      → c.describe_load_balancers (finds s.cr s.cr.at_provider.load_balancer_id) s.world
        ≡ (ok (only lb), w)
      → let o : ExternalObservation = record {
        resource_exists = true;
        resource_up_to_date = true;
        connection_details = ("Address", address) ∷ ("LoadBalancerId", id) ∷ [];
      } in
        ((observe_cr (client c) s).0 ≡ ok o) × Settled s o (observe_cr (client c) s).1
  unfolding observe_cr observe_described describe_load_balancers get_connection_details
      generate_observation
  observe_cr-Bound_of s lb address id {w} named f addressed identified found =
      let cr : Clb = record s.cr { at_provider = observation lb } in
      let t : Env Clb W = record { cr = cr; world = w } in
      let fresh = is_update_to_date-only cr lb t f in
      let reads = check-reads cr (only lb) t in
      let absent = eq_iff s.cr.external_name "" in
      let one = eqb_ℤ_iff (pos 1) (pos 0) in
      (ground arith, record { exists = refl; up_to_date = refl; is_available = ground arith })

  create_cr-Bound_of :
      (s : Env Clb W) (res : CreateLoadBalancerResponse) (lb : LoadBalancer)
      (rd : Outcome DescribeLoadBalancersResponse) {w w' : W} {made : ExternalCreation}
      → s.cr.for_provider.region ≢ none
      → c.create_load_balancer (asks s.cr) s.world ≡ (ok res, w)
      → K.balancer w res.load_balancer_id ≡ some lb
      → Made (asks s.cr) res lb
      → c.describe_load_balancers (finds s.cr res.load_balancer_id) w ≡ (rd, w')
      → (create_cr (client c) s).0 ≡ ok made
      → Bound c K s (create_cr (client c) s).1 lb
  unfolding create_cr create_load_balancer describe_load_balancers generate_observation
      get_connection_details
  create_cr-Bound_of s res lb (ok r) {w} {w'} given asked kept m found h =
      let this : r ≡ only lb =
        K.described (finds s.cr res.load_balancer_id) w lb {r = r} kept
          (made-Passes s.cr res.load_balancer_id res lb m) (ground arith) in
      let reads = K.reads (finds s.cr res.load_balancer_id) w lb.load_balancer_id in
      let one = eqb_ℤ_iff (pos 1) (pos 0) in
      let same = m.id_made in
      elim (Option-cases lb.address) [
        | inl missing ↦ absurd (ground arith)
        | inr (address, addressed) ↦ elim (Option-cases lb.load_balancer_id) [
          | inl missing ↦ absurd (ground arith)
          | inr (id, identified) ↦ record {
            address = address;
            id = id;
            resource = ground arith;
            kept = ground arith;
            addressed = addressed;
            identified = identified;
            fits = made-Fits s.cr res lb given m;
            passes = made-Passes s.cr lb.load_balancer_id res lb m;
          }
        ]
      ]
  create_cr-Bound_of s res lb (err e) given asked kept m found h = absurd (ground arith)
  create_cr-Bound_of s res lb panic given asked kept m found h = absurd (ground arith)

  create_cr-Bound :
      (s : Env Clb W) (rc : Outcome CreateLoadBalancerResponse) {made : ExternalCreation}
      → s.cr.for_provider.region ≢ none
      → (c.create_load_balancer (asks s.cr) s.world).0 ≡ rc
      → (create_cr (client c) s).0 ≡ ok made
      → (lb : LoadBalancer) × Bound c K s (create_cr (client c) s).1 lb
  unfolding create_cr create_load_balancer
  create_cr-Bound s (ok res) given asked h =
      let (lb, kept, m) = K.created (asks s.cr) s.world {r = res} asked in
      let w = (c.create_load_balancer (asks s.cr) s.world).1 in
      (
        lb,
        create_cr-Bound_of s res lb
            (c.describe_load_balancers (finds s.cr res.load_balancer_id) w).0 given (ground arith)
            kept m refl h,
      )
  create_cr-Bound s (err e) given asked h = absurd (ground arith)
  create_cr-Bound s panic given asked h = absurd (ground arith)

  observe_cr-Bound :
      (s t : Env Clb W) (lb : LoadBalancer) {r : DescribeLoadBalancersResponse}
      → s.cr.external_name ≢ ""
      → Bound c K s t lb
      → (c.describe_load_balancers (finds t.cr t.cr.at_provider.load_balancer_id) t.world).0 ≡ ok r
      → (o : ExternalObservation) × ((observe_cr (client c) t).0 ≡ ok o)
        × Settled t o (observe_cr (client c) t).1
  observe_cr-Bound s t lb {r} named b answered =
      let asked = finds t.cr t.cr.at_provider.load_balancer_id in
      let same = b.resource in
      let this : r ≡ only lb =
        K.described asked t.world lb {r = r} (rw (same) b.kept) (rw (same) b.passes) answered in
      let (ran, settled) =
        observe_cr-Bound_of t lb b.address b.id {w = (c.describe_load_balancers asked t.world).1}
          (rw same named) (rw same b.fits) b.addressed b.identified (ground arith) in
      (_, ran, settled)

  -- Over a service that keeps load balancers, for a CLB with an external name and a region: where
  -- `Create` succeeds and the service then answers the request for the load balancer of the status,
  -- the next `Observe` succeeds, reports that it exists and is up to date, and leaves it available.
  pub create_balancer-observed :
      (s : Env Clb W) {made : ExternalCreation} {r : DescribeLoadBalancersResponse}
      → s.cr.external_name ≢ ""
      → s.cr.for_provider.region ≢ none
      → (create_cr (client c) s).0 ≡ ok made
      → let t = (create_cr (client c) s).1 in
        (c.describe_load_balancers (finds t.cr t.cr.at_provider.load_balancer_id) t.world).0 ≡ ok r
        → (o : ExternalObservation) × ((observe_cr (client c) t).0 ≡ ok o)
          × Settled t o (observe_cr (client c) t).1
  create_balancer-observed s {r = r} named given created answered =
      let (lb, b) =
        create_cr-Bound s (c.create_load_balancer (asks s.cr) s.world).0 given refl created in
      observe_cr-Bound s (create_cr (client c) s).1 lb {r = r} named b answered
