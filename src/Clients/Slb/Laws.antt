-- ===== src/Clients/Slb/Laws.antt =====
-- Theorems on the comparison of pkg/clients/slb/slb.go.
use provider_alibaba.Base.{
  String, true, false, ◌≡◌, ◌≢◌, ◌⊎◌, inl, inr, arith, refl, Option, none, some, List, [], ◌∷◌,
  ◌==◌, eq_iff, eq_refl, ◌↔◌, Option-cases,
}
use provider_alibaba.Base.Int.{ℤ, pos, eqb_ℤ_iff}
use provider_alibaba.Go.{ok, pure, deref, ◌>>=◌}
use provider_alibaba.Apis.Slb.{Clb, ClbParameter}
use provider_alibaba.Clients.Slb.{
  LoadBalancer, DescribeLoadBalancersResponse, is_update_to_date, differs, first,
  matches_load_balancer,
}

-- A wanted setting that is given is the found one.
abbrev pub Honours : Option String → Option String → Type 0
Honours wanted found = (wanted ≡ none) ⊎ (wanted ≡ found)

pub record Fits (p : ClbParameter) (lb : LoadBalancer) : Type 0 where
  pub spec_fits : Honours p.load_balancer_spec lb.load_balancer_spec
  pub vpc_fits : Honours p.vpc_id lb.vpc_id
  pub vswitch_fits : Honours p.vswitch_id lb.vswitch_id
  pub region_given : p.region ≢ none
  pub region_fits : p.region ≡ lb.region_id

differs-false : (a b : Option String) → differs a b ≡ false → Honours a b
differs-false none b h = inl (ground arith)
differs-false (some x) none h = ground arith
differs-false (some x) (some y) h = inr (ground (arith, eq_iff x y))

module _ {S : Type 0} where
  deref_both :
      (a b : Option String) (s : S)
      → ((deref a >>= λ x. deref b >>= λ y. pure (x == y)) s).0 ≡ ok true
      → (a ≢ none) × (a ≡ b)
  deref_both none b s h = ground arith
  deref_both (some x) none s h = ground arith
  deref_both (some x) (some y) s h = ground (arith, eq_iff x y)

  matches_load_balancer_sound :
      (p : ClbParameter) (lb : LoadBalancer) (s : S)
      → (matches_load_balancer p lb s).0 ≡ ok true
      → Fits p lb
  matches_load_balancer_sound p lb s h =
      let tests : (differs p.load_balancer_spec lb.load_balancer_spec ≡ false)
          × (differs p.vpc_id lb.vpc_id ≡ false)
          × (differs p.vswitch_id lb.vswitch_id ≡ false)
          × (((deref p.region >>= λ x. deref lb.region_id >>= λ y. pure (x == y)) s).0 ≡ ok true) =
        ground arith in
      let region = deref_both p.region lb.region_id s tests.3 in
      record {
        spec_fits = differs-false _ _ tests.0;
        vpc_fits = differs-false _ _ tests.1;
        vswitch_fits = differs-false _ _ tests.2;
        region_given = region.0;
        region_fits = region.1;
      }

  first-matches :
      (p : ClbParameter) (l : List LoadBalancer) (s : S)
      → ((first l >>= matches_load_balancer p) s).0 ≡ ok true
      → (lb : LoadBalancer) × (rest : List LoadBalancer) × (l ≡ lb ∷ rest) × Fits p lb
  first-matches p [] s h = absurd (cc)
  first-matches p (lb ∷ rest) s h = (lb, rest, refl, matches_load_balancer_sound p lb s h)

  -- Where IsUpdateToDate of a load balancer answers true, the count is not zero, and the first load
  -- balancer of the response has the wanted region, and the wanted specification, VPC and VSwitch
  -- where they are given.
  pub is_update_to_date_sound :
      (cr : Clb) (r : DescribeLoadBalancersResponse) (s : S)
      → (is_update_to_date cr r s).0 ≡ ok true
      → (lb : LoadBalancer) × (rest : List LoadBalancer) × (r.load_balancers ≡ lb ∷ rest)
        × (r.total_count ≢ some (pos 0))
        × Fits cr.for_provider lb
  unfolding is_update_to_date
  is_update_to_date_sound cr r s h =
      let counted : (r.total_count ≢ some (pos 0))
          × (((first r.load_balancers >>= matches_load_balancer cr.for_provider) s).0 ≡ ok true) =
        ground (arith, eqb_ℤ_iff (pos 0) (pos 0)) in
      let (lb, rest, found, fits) = first-matches cr.for_provider r.load_balancers s counted.1 in
      (lb, rest, found, counted.0, fits)

-- A response that counts load balancers, of which the first fits.
pub record Current (cr : Clb) (r : DescribeLoadBalancersResponse) : Type 0 where
  pub count : ℤ
  pub balancer : LoadBalancer
  pub others : List LoadBalancer
  pub total : r.total_count ≡ some count
  pub counted : count ≢ pos 0
  pub listed : r.load_balancers ≡ balancer ∷ others
  pub fits : Fits cr.for_provider balancer

differs-honoured : (a b : Option String) → Honours a b → differs a b ≡ false
differs-honoured none b h = ground arith
differs-honoured (some x) none h = ground arith
differs-honoured (some x) (some y) h = ground (arith, eq_iff x y)

module _ {S : Type 0} where
  matches_load_balancer_complete :
      (p : ClbParameter) (lb : LoadBalancer) (s : S)
      → Fits p lb
      → matches_load_balancer p lb s ≡ (ok true, s)
  matches_load_balancer_complete p lb s f = elim (Option-cases p.region) [
    | inl missing ↦ absurd (f.region_given missing)
    | inr (region, given) ↦ ground (
      arith,
      eq_refl region,
      f.region_fits,
      differs-honoured p.load_balancer_spec lb.load_balancer_spec f.spec_fits,
      differs-honoured p.vpc_id lb.vpc_id f.vpc_fits,
      differs-honoured p.vswitch_id lb.vswitch_id f.vswitch_fits,
    )
  ]

  is_update_to_date-Current :
      (cr : Clb) (r : DescribeLoadBalancersResponse) (s : S)
      → (is_update_to_date cr r s).0 ≡ ok true
      → Current cr r
  unfolding is_update_to_date
  is_update_to_date-Current cr r s h = elim (Option-cases r.total_count) [
    | inl missing ↦ absurd (ground arith)
    | inr (n, given) ↦
        let (lb, rest, found, counted, fits) = is_update_to_date_sound cr r s h in
        record {
          count = n;
          balancer = lb;
          others = rest;
          total = given;
          counted = ground arith;
          listed = found;
          fits = fits;
        }
  ]

  pub is_update_to_date_of_Current :
      (cr : Clb) (r : DescribeLoadBalancersResponse) (s : S)
      → Current cr r
      → (is_update_to_date cr r s).0 ≡ ok true
  unfolding is_update_to_date
  is_update_to_date_of_Current cr r s k = ground (
    arith,
    k.total,
    k.counted,
    k.listed,
    eqb_ℤ_iff k.count (pos 0),
    matches_load_balancer_complete cr.for_provider k.balancer s k.fits,
  )

  -- IsUpdateToDate of a load balancer answers true exactly where the response counts load
  -- balancers, a number other than zero, and the first of its list has the wanted region, which is
  -- given, and the wanted specification, VPC and VSwitch where they are given.
  pub is_update_to_date_iff :
      (cr : Clb) (r : DescribeLoadBalancersResponse) (s : S)
      → ((is_update_to_date cr r s).0 ≡ ok true) ↔ Current cr r
  is_update_to_date_iff cr r s =
      (is_update_to_date-Current cr r s, is_update_to_date_of_Current cr r s)
