-- ===== src/Controller/Oss/Effect.antt =====
-- What each handler of pkg/controller/oss does to the buckets of a service that keeps them.
use provider_alibaba.Base.{
  String, true, ◌≡◌, ◌≢◌, refl, sym, ap, ◌∙◌, arith, Option, none, some, ◌==◌, eq_iff,
  if◌then◌else◌,
}
use provider_alibaba.Go.{Env, Outcome, ok, err, panic, Err, as_oss_error}
use provider_alibaba.Crossplane.{ExternalCreation, creating, set_conditions}
use provider_alibaba.Apis.Oss.{Bucket, BucketParameter}
use provider_alibaba.Clients.Oss.{
  Names, SdkClient, BucketInfo, describe, create, delete, client, is_not_found_error,
}
use provider_alibaba.Clients.Oss.Laws.{IsDocumented}
use provider_alibaba.Clients.Oss.Service.{Keeps, update-made, update-others}
use provider_alibaba.Controller.Oss.{
  observe_cr, observe_described, create_cr, update_bucket, update_cr_acl, delete_cr,
}

-- What the resource asks of a new bucket.
abbrev pub parameters : Bucket → BucketParameter
parameters cr = record {
  acl = cr.for_provider.acl;
  storage_class = cr.for_provider.storage_class;
  data_redundancy_type = cr.for_provider.data_redundancy_type;
}

-- The ACL of a bucket is replaced where one is asked for.
unfoldable pub with_acl : String → Option BucketInfo → Option BucketInfo
with_acl a none = none
with_acl a (some b) = some (if a == "" then b else record b { acl = a })

module _ (N : Names) (D : IsDocumented N) {W : Type 0} (c : SdkClient W) (K : Keeps c) where
  pub observe_cr-world :
      (s : Env Bucket W)
      → (observe_cr (client N c) s).1.world ≡ (c.get_bucket_info s.cr.external_name s.world).1
  unfolding observe_cr observe_described describe
  observe_cr-world s = ground arith

  pub delete_cr-world :
      (s : Env Bucket W)
      → (delete_cr (client N c) s).1.world ≡ (c.delete_bucket s.cr.external_name s.world).1
  unfolding delete_cr delete
  delete_cr-world s = ground arith

  pub create_cr-world :
      (s : Env Bucket W)
      → (create_cr (client N c) s).1.world
        ≡ (create N c s.cr.external_name (parameters s.cr) s.world).1
  unfolding create_cr
  create_cr-world s = ground arith

  pub create_cr-made :
      (s : Env Bucket W) {o : ExternalCreation}
      → (create_cr (client N c) s).0 ≡ ok o
      → (create N c s.cr.external_name (parameters s.cr) s.world).0 ≡ ok tt
  unfolding create_cr
  create_cr-made s h = ground arith

  pub is_not_found_error-missing :
      (e : Err) → is_not_found_error (some e) ≡ true → as_oss_error e ≡ some "NoSuchBucket"
  unfolding is_not_found_error
  is_not_found_error-missing e h = go (as_oss_error e) refl h
    where
      go :
          (code : Option String)
          → as_oss_error e ≡ code
          → is_not_found_error (some e) ≡ true
          → as_oss_error e ≡ some "NoSuchBucket"
      go none h1 h2 = absurd (ground arith)
      go (some code) h1 h2 = ground (arith, eq_iff code "NoSuchBucket")

  pub delete_cr-gone :
      (s : Env Bucket W) (r : Outcome (Unit {0}))
      → (c.delete_bucket s.cr.external_name s.world).0 ≡ r
      → (delete_cr (client N c) s).0 ≡ ok tt
      → K.view (delete_cr (client N c) s).1.world s.cr.external_name ≡ none
  unfolding delete_cr delete
  delete_cr-gone s (ok _) asked h = ground (arith, K.delete_done s.cr.external_name s.world)
  delete_cr-gone s (err e) asked h =
      ground
        (arith, is_not_found_error-missing e, K.delete_missing s.cr.external_name s.world {e = e})
  delete_cr-gone s panic asked h = absurd (ground arith)

  update_cr_acl-made :
      (b : BucketInfo) (s : Env Bucket W)
      → K.view s.world s.cr.external_name ≡ some b
      → (update_cr_acl (client N c) b s).0 ≡ ok tt
      → K.view (update_cr_acl (client N c) b s).1.world s.cr.external_name
        ≡ with_acl s.cr.for_provider.acl (some b)
  unfolding update_cr_acl with_acl
  update_cr_acl-made b s found h = ground (
    arith,
    eq_iff s.cr.for_provider.acl "",
    eq_iff s.cr.for_provider.acl b.acl,
    update-made N D c K s.cr.external_name s.cr.for_provider.acl s.world found,
  )

  update_cr_acl-others :
      (b : BucketInfo) (s : Env Bucket W) (m : String)
      → m ≢ s.cr.external_name
      → K.view (update_cr_acl (client N c) b s).1.world m ≡ K.view s.world m
  unfolding update_cr_acl
  update_cr_acl-others b s m other =
      ground (arith, update-others N D c K s.cr.external_name s.cr.for_provider.acl s.world m)

  view-get :
      (n : String) (w : W) (r : Outcome BucketInfo) {v : W}
      → c.get_bucket_info n w ≡ (r, v)
      → K.view v ≡ K.view w
  view-get n w r got = ap (λ p. K.view p.1) (sym got) ∙ K.get_reads n w

  pub update_bucket-made :
      (s : Env Bucket W) (r : Outcome BucketInfo) {w : W}
      → c.get_bucket_info s.cr.external_name s.world ≡ (r, w)
      → (update_bucket (client N c) s).0 ≡ ok tt
      → K.view (update_bucket (client N c) s).1.world s.cr.external_name
        ≡ with_acl s.cr.for_provider.acl (K.view s.world s.cr.external_name)
  unfolding update_bucket describe
  update_bucket-made s (ok b) {w} got h =
      let t : Env Bucket W = record { cr = set_conditions creating s.cr; world = w } in
      let known : K.view s.world s.cr.external_name ≡ some b =
        K.get_found s.cr.external_name s.world (ap (λ p. p.0) got) in
      let same : K.view w ≡ K.view s.world = view-get s.cr.external_name s.world (ok b) got in
      ground (arith, update_cr_acl-made b t (ap (λ v. v s.cr.external_name) same ∙ known))
  update_bucket-made s (err e) got h = absurd (ground arith)
  update_bucket-made s panic got h = absurd (ground arith)

  pub update_bucket-others :
      (s : Env Bucket W) (r : Outcome BucketInfo) {w : W} (m : String)
      → c.get_bucket_info s.cr.external_name s.world ≡ (r, w)
      → m ≢ s.cr.external_name
      → K.view (update_bucket (client N c) s).1.world m ≡ K.view s.world m
  unfolding update_bucket describe
  update_bucket-others s (ok b) {w} m got other =
      let t : Env Bucket W = record { cr = set_conditions creating s.cr; world = w } in
      ground (
        arith,
        update_cr_acl-others b t m,
        ap (λ v. v m) (view-get s.cr.external_name s.world (ok b) got),
      )
  update_bucket-others s (err e) m got other =
      ground (arith, ap (λ v. v m) (view-get s.cr.external_name s.world (err e) got))
  update_bucket-others s panic m got other =
      ground (arith, ap (λ v. v m) (view-get s.cr.external_name s.world panic got))
