-- ===== src/Clients/Nas/Laws.antt =====
-- Theorems on the comparisons of pkg/clients/nas/nas.go.
use provider_alibaba.Base.{
  eq_refl, ◌↔◌, Option-cases, inl, inr, String, true, false, ◌≡◌, ◌≢◌, arith, refl, Option, none,
  some, List, [], ◌∷◌, eq_iff,
}
use provider_alibaba.Base.Int.{ℤ, pos, eqb_ℤ_iff}
use provider_alibaba.Go.{ok, panic, ◌>>=◌}
use provider_alibaba.Apis.Nas.{NasMountTarget, NasMountTargetParameter}
use provider_alibaba.Clients.Nas.{
  MountTarget, DescribeMountTargetsResponse, is_mount_target_update_to_date, differs, first,
  matches_mount_target,
}

-- Both pointers hold a text, and it is the same.
abbrev pub Agrees : Option String → Option String → Type 0
Agrees a b = (x : String) × (a ≡ some x) × (b ≡ some x)

-- The four settings that are compared.
pub record SameMountTarget (p : NasMountTargetParameter) (m : MountTarget) : Type 0 where
  pub vpc_same : Agrees p.vpc_id m.vpc_id
  pub vswitch_same : Agrees p.vswitch_id m.vsw_id
  pub access_group_same : Agrees p.access_group_name m.access_group
  pub network_type_same : Agrees p.network_type m.network_type

module _ {S : Type 0} where
  differs-false : (a b : Option String) (s : S) → (differs a b s).0 ≡ ok false → Agrees a b
  unfolding differs
  differs-false none none s h = ground arith
  differs-false none (some y) s h = ground arith
  differs-false (some x) none s h = ground arith
  differs-false (some x) (some y) s h =
      let same : x ≡ y = ground (arith, eq_iff x y) in (x, ground arith, ground arith)

  differs-state : (a b : Option String) (s : S) → (differs a b s).1 ≡ s
  unfolding differs
  differs-state none none s = ground arith
  differs-state none (some y) s = ground arith
  differs-state (some x) none s = ground arith
  differs-state (some x) (some y) s = ground arith

  matches_mount_target-differs :
      (cr : NasMountTarget) (m : MountTarget) (s : S)
      → (matches_mount_target cr m s).0 ≡ ok true
      → let p = cr.for_provider in
        ((differs p.vpc_id m.vpc_id s).0 ≡ ok false)
        × ((differs p.vswitch_id m.vsw_id s).0 ≡ ok false)
        × ((differs p.access_group_name m.access_group s).0 ≡ ok false)
        × ((differs p.network_type m.network_type s).0 ≡ ok false)
  matches_mount_target-differs cr m s h =
      let p = cr.for_provider in
      ground (
        arith,
        differs-state p.vpc_id m.vpc_id s,
        differs-state p.vswitch_id m.vsw_id s,
        differs-state p.access_group_name m.access_group s,
      )

  matches_mount_target_sound :
      (cr : NasMountTarget) (m : MountTarget) (s : S)
      → (matches_mount_target cr m s).0 ≡ ok true
      → SameMountTarget cr.for_provider m
  matches_mount_target_sound cr m s h =
      let (vpc, vswitch, group, network) = matches_mount_target-differs cr m s h in
      record {
        vpc_same = differs-false _ _ s vpc;
        vswitch_same = differs-false _ _ s vswitch;
        access_group_same = differs-false _ _ s group;
        network_type_same = differs-false _ _ s network;
      }

  first-matches :
      (cr : NasMountTarget) (l : List MountTarget) (s : S)
      → ((first l >>= matches_mount_target cr) s).0 ≡ ok true
      → (m : MountTarget) × (rest : List MountTarget) × (l ≡ m ∷ rest)
        × SameMountTarget cr.for_provider m
  first-matches cr [] s h = absurd (cc)
  first-matches cr (m ∷ rest) s h = (m, rest, refl, matches_mount_target_sound cr m s h)

  -- Where IsMountTargetUpdateToDate answers true, the count is not zero, and the first mount target
  -- of the response agrees with the wanted state in all four settings, each of which both sides
  -- give.
  pub is_mount_target_update_to_date_sound :
      (cr : NasMountTarget) (r : DescribeMountTargetsResponse) (s : S)
      → (is_mount_target_update_to_date cr r s).0 ≡ ok true
      → (m : MountTarget) × (rest : List MountTarget) × (r.mount_targets ≡ m ∷ rest)
        × (r.total_count ≢ some (pos 0))
        × SameMountTarget cr.for_provider m
  unfolding is_mount_target_update_to_date
  is_mount_target_update_to_date_sound cr r s h =
      let counted : (r.total_count ≢ some (pos 0))
          × (((first r.mount_targets >>= matches_mount_target cr) s).0 ≡ ok true) =
        ground (arith, eqb_ℤ_iff (pos 0) (pos 0)) in
      let (m, rest, found, same) = first-matches cr r.mount_targets s counted.1 in
      (m, rest, found, counted.0, same)

  -- Where the service counts a mount target and neither side gives a VPC, the comparison panics.
  pub is_mount_target_update_to_date-panics :
      (cr : NasMountTarget) (r : DescribeMountTargetsResponse) (s : S) {n : ℤ} {m : MountTarget}
      {rest : List MountTarget}
      → r.total_count ≡ some n
      → n ≢ pos 0
      → r.mount_targets ≡ m ∷ rest
      → cr.for_provider.vpc_id ≡ none
      → m.vpc_id ≡ none
      → is_mount_target_update_to_date cr r s ≡ (panic, s)
  unfolding is_mount_target_update_to_date differs
  is_mount_target_update_to_date-panics cr r s {n} counted some_there first wanted found =
      ground (arith, eqb_ℤ_iff n (pos 0))

-- A response that counts mount targets, of which the first agrees.
pub record Current (cr : NasMountTarget) (r : DescribeMountTargetsResponse) : Type 0 where
  pub count : ℤ
  pub target : MountTarget
  pub others : List MountTarget
  pub total : r.total_count ≡ some count
  pub counted : count ≢ pos 0
  pub listed : r.mount_targets ≡ target ∷ others
  pub same : SameMountTarget cr.for_provider target

module _ {S : Type 0} where
  differs-agreed : (a b : Option String) (s : S) → Agrees a b → differs a b s ≡ (ok false, s)
  unfolding differs
  differs-agreed a b s (x, left, right) = ground (arith, eq_refl x)

  matches_mount_target_complete :
      (cr : NasMountTarget) (m : MountTarget) (s : S)
      → SameMountTarget cr.for_provider m
      → (matches_mount_target cr m s).0 ≡ ok true
  matches_mount_target_complete cr m s k = ground (
    arith,
    differs-agreed cr.for_provider.vpc_id m.vpc_id s k.vpc_same,
    differs-agreed cr.for_provider.vswitch_id m.vsw_id s k.vswitch_same,
    differs-agreed cr.for_provider.access_group_name m.access_group s k.access_group_same,
    differs-agreed cr.for_provider.network_type m.network_type s k.network_type_same,
  )

  is_mount_target_update_to_date-Current :
      (cr : NasMountTarget) (r : DescribeMountTargetsResponse) (s : S)
      → (is_mount_target_update_to_date cr r s).0 ≡ ok true
      → Current cr r
  unfolding is_mount_target_update_to_date
  is_mount_target_update_to_date-Current cr r s h = elim (Option-cases r.total_count) [
    | inl missing ↦ absurd (ground arith)
    | inr (n, given) ↦
        let (m, rest, found, counted, same) = is_mount_target_update_to_date_sound cr r s h in
        record {
          count = n;
          target = m;
          others = rest;
          total = given;
          counted = ground arith;
          listed = found;
          same = same;
        }
  ]

  pub is_mount_target_update_to_date_of_Current :
      (cr : NasMountTarget) (r : DescribeMountTargetsResponse) (s : S)
      → Current cr r
      → (is_mount_target_update_to_date cr r s).0 ≡ ok true
  unfolding is_mount_target_update_to_date
  is_mount_target_update_to_date_of_Current cr r s k = ground (
    arith,
    k.total,
    k.counted,
    k.listed,
    eqb_ℤ_iff k.count (pos 0),
    matches_mount_target_complete cr k.target s k.same,
  )

  -- IsMountTargetUpdateToDate answers true exactly where the response counts mount targets, a
  -- number other than zero, and the first of its list agrees with the wanted state in all four
  -- settings, each of which both sides give.
  pub is_mount_target_update_to_date_iff :
      (cr : NasMountTarget) (r : DescribeMountTargetsResponse) (s : S)
      → ((is_mount_target_update_to_date cr r s).0 ≡ ok true) ↔ Current cr r
  is_mount_target_update_to_date_iff cr r s = (
    is_mount_target_update_to_date-Current cr r s,
    is_mount_target_update_to_date_of_Current cr r s,
  )
