-- ===== src/Controller/Oss/Roundtrip.antt =====
-- What `Observe` of pkg/controller/oss says after `Create` and after `Delete`, over a service that keeps
-- its buckets.
use provider_alibaba.Base.{
  String, true, false, ◌≡◌, ◌≢◌, if◌then◌else◌, ◌==◌, refl, sym, ap, ◌∙◌, arith, none, some, is_some, ◌∷◌, eq_iff, eq_refl,
}
use provider_alibaba.Go.{Env, Outcome, ok, err, panic}
use provider_alibaba.Crossplane.{
  ExternalObservation, ExternalCreation, available, creating, set_conditions,
}
use provider_alibaba.Apis.Oss.{Bucket}
use provider_alibaba.Clients.Oss.{Names, SdkClient, BucketInfo, describe, client, is_update_to_date}
use provider_alibaba.Clients.Oss.Laws.{IsDocumented, or_default}
use provider_alibaba.Clients.Oss.Service.{Keeps, wanted, create-made}
use provider_alibaba.Controller.Oss.{observe_cr, create_cr, delete_cr, update_bucket, update_cr_acl}
use provider_alibaba.Controller.Oss.Laws.{
  observe_described-ok, observe_cr-bucket_undescribed, observe_cr-bucket, is_ignored, warnings,
}
use provider_alibaba.Controller.Oss.Effect.{
  parameters, observe_cr-world, create_cr-world, create_cr-made, is_not_found_error-missing,
  delete_cr-gone, with_acl, update_bucket-made,
}

is_update_to_date-or_default :
    (cr : Bucket) (info : BucketInfo)
    → info.acl ≡ or_default "private" cr.for_provider.acl
    → is_update_to_date cr info ≡ true
unfolding is_update_to_date
is_update_to_date-or_default cr info h = ground (
  arith,
  eq_iff cr.for_provider.acl "",
  eq_iff cr.for_provider.acl info.acl,
  eq_iff info.acl "private",
)

is_ignored-or_default : (s d : String) → is_ignored s (or_default d s) ≡ false
unfolding is_ignored
is_ignored-or_default s d = ground (arith, eq_refl s)

-- An observation that asks for nothing: the bucket exists and is up to date, and the status holds no
-- warning and is available.
pub record Settled {W : Type 0} (s : Env Bucket W) (o : ExternalObservation) (t : Env Bucket W)
    : Type 0 where
  exists : o.resource_exists ≡ true
  up_to_date : o.resource_up_to_date ≡ true
  no_message : t.cr.at_provider.message ≡ ""
  is_available : t.cr.conditions ≡ available ∷ s.cr.conditions

module _ (N : Names) (D : IsDocumented N) {W : Type 0} (c : SdkClient W) (K : Keeps c) where
  observe_cr-exists_of :
      (s : Env Bucket W) (r : Outcome BucketInfo) {w : W} {o : ExternalObservation}
      → c.get_bucket_info s.cr.external_name s.world ≡ (r, w)
      → (observe_cr (client N c) s).0 ≡ ok o
      → o.resource_exists ≡ is_some (K.view s.world s.cr.external_name)
  unfolding describe observe_cr
  observe_cr-exists_of s (ok b) {w} {o} got h = ground (
    arith,
    K.get_found s.cr.external_name s.world {b = b},
    observe_cr-bucket (client N c) s {info = b} {w = w} {o = o} got h,
  )
  observe_cr-exists_of s (err e) got h = ground (
    arith,
    observe_cr-bucket_undescribed (client N c) s got,
    is_not_found_error-missing N D c K e,
    K.get_missing s.cr.external_name s.world {e = e},
  )
  observe_cr-exists_of s panic got h = absurd (ground arith)

  -- `Observe` reports a bucket as existing exactly where the service keeps one of its name.
  pub observe_cr-exists :
      (s : Env Bucket W) {o : ExternalObservation}
      → (observe_cr (client N c) s).0 ≡ ok o
      → o.resource_exists ≡ is_some (K.view s.world s.cr.external_name)
  observe_cr-exists s h =
      observe_cr-exists_of s (c.get_bucket_info s.cr.external_name s.world).0 refl h

  create_cr-cr : (s : Env Bucket W) → (create_cr (client N c) s).1.cr ≡ set_conditions creating s.cr
  unfolding create_cr
  create_cr-cr s = ground arith

  delete_cr-external_name :
      (s : Env Bucket W) → (delete_cr (client N c) s).1.cr.external_name ≡ s.cr.external_name
  unfolding delete_cr
  delete_cr-external_name s = ground arith

  observe_cr-wanted_of :
      (s : Env Bucket W) (b : BucketInfo) (r : Outcome BucketInfo) {w : W} {o : ExternalObservation}
      → c.get_bucket_info s.cr.external_name s.world ≡ (r, w)
      → K.view s.world s.cr.external_name ≡ some (wanted (parameters s.cr) b)
      → (observe_cr (client N c) s).0 ≡ ok o
      → Settled s o (observe_cr (client N c) s).1
  unfolding describe observe_cr wanted warnings
  observe_cr-wanted_of s b (ok i) {w} {o} got known h = ground (
    arith,
    is_update_to_date-or_default s.cr i,
    is_ignored-or_default s.cr.for_provider.storage_class "Standard",
    is_ignored-or_default s.cr.for_provider.data_redundancy_type "LRS",
    K.get_found s.cr.external_name s.world {b = i},
    observe_cr-bucket (client N c) s {info = i} {w = w} {o = o} got h,
  )
  observe_cr-wanted_of s b (err e) got known h = absurd (
      ground (
        arith,
        is_not_found_error-missing N D c K e,
        K.get_missing s.cr.external_name s.world {e = e},
      ))
  observe_cr-wanted_of s b panic got known h = absurd (ground arith)

  view-observe_cr : (s : Env Bucket W) → K.view (observe_cr (client N c) s).1.world ≡ K.view s.world
  view-observe_cr s =
      ap (λ w. K.view w) (observe_cr-world N D c K s) ∙ K.get_reads s.cr.external_name s.world

  observe_cr-absent_of :
      (s : Env Bucket W) (r : Outcome BucketInfo) {w : W} {o : ExternalObservation}
      → c.get_bucket_info s.cr.external_name s.world ≡ (r, w)
      → (observe_cr (client N c) s).0 ≡ ok o
      → o.resource_exists ≡ false
      → (observe_cr (client N c) s).1.cr ≡ s.cr
  unfolding describe observe_cr
  observe_cr-absent_of s (ok i) {w} {o} got h absent =
      ground (arith, observe_cr-bucket (client N c) s {info = i} {w = w} {o = o} got h)
  observe_cr-absent_of s (err e) got h absent = ground arith
  observe_cr-absent_of s panic got h absent = absurd (ground arith)

  observe_cr-answered :
      (s : Env Bucket W) {b : BucketInfo}
      → (c.get_bucket_info s.cr.external_name s.world).0 ≡ ok b
      → (o : ExternalObservation) × ((observe_cr (client N c) s).0 ≡ ok o)
  unfolding observe_cr describe
  observe_cr-answered s {b} answered =
      let w = (c.get_bucket_info s.cr.external_name s.world).1 in
      let (o, ran) = observe_described-ok (client N c) b (record s { world = w }) in
      (o, ground arith)

  create_cr-Settled :
      (s : Env Bucket W) {made : ExternalCreation} {o : ExternalObservation}
      → K.view s.world s.cr.external_name ≡ none
      → (create_cr (client N c) s).0 ≡ ok made
      → (observe_cr (client N c) (create_cr (client N c) s).1).0 ≡ ok o
      → Settled
          (create_cr (client N c) s).1
          o
          (observe_cr (client N c) (create_cr (client N c) s).1).1
  create_cr-Settled s free made again =
      let u = (create_cr (client N c) s).1 in
      let known : K.view u.world s.cr.external_name
          ≡ some (wanted (parameters s.cr) (K.blank s.cr.external_name)) =
        ap (λ w. K.view w s.cr.external_name) (create_cr-world N D c K s)
        ∙ create-made N D c K s.cr.external_name (parameters s.cr) s.world free
            (create_cr-made N D c K s made) in
      let named = create_cr-cr s in
      observe_cr-wanted_of u (K.blank s.cr.external_name)
        (c.get_bucket_info u.cr.external_name u.world).0 refl (ground arith) again

  -- Over a service that keeps its buckets, with the documented words: where `Observe` reports a
  -- bucket as absent, `Create` then succeeds and the service answers the next request for this
  -- bucket with one, the next `Observe` succeeds, reports that the bucket exists and is up to date,
  -- and leaves the status without a warning and available.
  pub create_cr-observed :
      (s : Env Bucket W) {o : ExternalObservation} {made : ExternalCreation} {b : BucketInfo}
      → (observe_cr (client N c) s).0 ≡ ok o
      → o.resource_exists ≡ false
      → let t = (observe_cr (client N c) s).1 in
        let u = (create_cr (client N c) t).1 in
        (create_cr (client N c) t).0 ≡ ok made
        → (c.get_bucket_info u.cr.external_name u.world).0 ≡ ok b
        → (o' : ExternalObservation) × ((observe_cr (client N c) u).0 ≡ ok o')
          × Settled u o' (observe_cr (client N c) u).1
  create_cr-observed s {o} {made} {b} seen absent created answered =
      let t = (observe_cr (client N c) s).1 in
      let same =
        observe_cr-absent_of s (c.get_bucket_info s.cr.external_name s.world).0 refl seen absent in
      let free : K.view t.world t.cr.external_name ≡ none =
        ground
          (arith, observe_cr-exists s seen, ap (λ v. v s.cr.external_name) (view-observe_cr s)) in
      let (o', again) = observe_cr-answered (create_cr (client N c) t).1 {b = b} answered in
      (o', again, create_cr-Settled t free created again)

  -- Over a service that keeps its buckets: where `Delete` succeeds and the next `Observe` succeeds,
  -- that one reports the bucket as absent and leaves the resource as `Delete` left it.
  pub delete_cr-observed :
      (s : Env Bucket W) {o : ExternalObservation}
      → (delete_cr (client N c) s).0 ≡ ok tt
      → let t = (delete_cr (client N c) s).1 in
        (observe_cr (client N c) t).0 ≡ ok o
        → (o.resource_exists ≡ false) × ((observe_cr (client N c) t).1.cr ≡ t.cr)
  delete_cr-observed s {o} done again =
      let t = (delete_cr (client N c) s).1 in
      let named = delete_cr-external_name s in
      let gone =
        delete_cr-gone N D c K s (c.delete_bucket s.cr.external_name s.world).0 refl done in
      let absent : o.resource_exists ≡ false = ground (arith, observe_cr-exists t again) in
      let asked = (c.get_bucket_info t.cr.external_name t.world).0 in
      (absent, observe_cr-absent_of t asked refl again absent)

  update_bucket-external_name :
      (s : Env Bucket W)
      → (update_bucket (client N c) s).1.cr.external_name ≡ s.cr.external_name
  unfolding update_bucket update_cr_acl
  update_bucket-external_name s = ground arith

  update_bucket-acl :
      (s : Env Bucket W) → (update_bucket (client N c) s).1.cr.for_provider.acl ≡ s.cr.for_provider.acl
  unfolding update_bucket update_cr_acl
  update_bucket-acl s = ground arith

  -- After
  pub update_bucket-observed :
      (s : Env Bucket W) {b : BucketInfo}
      → s.cr.for_provider.acl ≢ ""
      → (update_bucket (client N c) s).0 ≡ ok tt
      → let t = (update_bucket (client N c) s).1 in
        (c.get_bucket_info t.cr.external_name t.world).0 ≡ ok b
        → (b.acl ≡ s.cr.for_provider.acl)
          × (o : ExternalObservation) × ((observe_cr (client N c) t).0 ≡ ok o)
          × (o.resource_exists ≡ true)
          × (o.resource_up_to_date ≡ true)
          × ((observe_cr (client N c) t).1.cr.conditions ≡ available ∷ t.cr.conditions)
  unfolding with_acl describe
  update_bucket-observed s {b} given done answered =
      let t = (update_bucket (client N c) s).1 in
      let named = update_bucket-external_name s in
      let same = update_bucket-acl s in
      let asked = (c.get_bucket_info s.cr.external_name s.world).0 in
      let known : K.view t.world s.cr.external_name ≡ some b =
        ap (λ n. K.view t.world n) (sym named)
        ∙ K.get_found t.cr.external_name t.world {b = b} answered in
      let kept : b.acl ≡ s.cr.for_provider.acl =
        ground (
          arith,
          update_bucket-made N D c K s asked refl done,
          eq_iff s.cr.for_provider.acl "",
        ) in
      let fresh : is_update_to_date t.cr b ≡ true =
        is_update_to_date-or_default t.cr b (ground (arith, eq_iff s.cr.for_provider.acl "")) in
      let (o, again) = observe_cr-answered t {b = b} answered in
      let w = (c.get_bucket_info t.cr.external_name t.world).1 in
      let seen = observe_cr-bucket (client N c) t {info = b} {w = w} {o = o} (ground arith) again in
      (kept, o, again, seen.0, ground arith, ground arith)
