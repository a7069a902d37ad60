-- ===== src/Tests/Oss/Store.antt =====
-- The OSS theorems over a service that keeps its buckets in a table, which is the world.
use provider_alibaba.Base.{String, ◌≡◌, refl, arith, none, some, List, [], ◌∷◌, eq_iff, false, true}
use provider_alibaba.Go.{M, Env, ok, err, oss_error, cause}
use provider_alibaba.Crossplane.{ExternalObservation, no_observation}
use provider_alibaba.Apis.Oss.{Bucket}
use provider_alibaba.Clients.Oss.{
  SdkClient, BucketInfo, CreateOption, client, create, delete, describe, is_not_found_error,
  generate_observation, is_update_to_date, validate_oss_acl, validate_oss_storage_class,
  validate_oss_data_redundancy_type,
}
use provider_alibaba.Clients.Oss.Service.{Buckets, put_bucket, configure, Keeps}
use provider_alibaba.Controller.Oss.{
  observe_cr, create_cr, delete_cr, observe_described, warn_storage_class,
  warn_data_redundancy_type, get_connection_details,
}
use provider_alibaba.Controller.Oss.Refinement.{
  Request, creates, deletes, replay, Call, Served, Spares, Run, Run-refines, Spares-kept,
}
use provider_alibaba.Controller.Oss.Roundtrip.{Settled, create_cr-observed, delete_cr-observed}
use provider_alibaba.Tests.Oss.{names, names-IsDocumented, photos}

abbrev blank : BucketInfo
blank = record {
  acl = "";
  storage_class = "";
  redundancy_type = "";
  extranet_endpoint = "oss-cn-beijing.aliyuncs.com";
  intranet_endpoint = "oss-cn-beijing-internal.aliyuncs.com";
}

abbrev get_bucket_info : String → M Buckets BucketInfo
get_bucket_info n t = elim (t n) [ none ↦ (err (oss_error "NoSuchBucket"), t) | some b ↦ (ok b, t) ]

abbrev create_bucket : String → List CreateOption → M Buckets (Unit {0})
create_bucket n l t = elim (t n) [
  | none ↦ (ok tt, put_bucket n (some (configure l blank)) t)
  | some _ ↦ (err (oss_error "BucketAlreadyExists"), t)
]

abbrev set_bucket_acl : String → String → M Buckets (Unit {0})
set_bucket_acl n a t = elim (t n) [
  | none ↦ (err (oss_error "NoSuchBucket"), t)
  | some b ↦ (ok tt, put_bucket n (some (record b { acl = a })) t)
]

abbrev delete_bucket : String → M Buckets (Unit {0})
delete_bucket n t = elim (t n) [
  | none ↦ (err (oss_error "NoSuchBucket"), t)
  | some _ ↦ (ok tt, put_bucket n none t)
]

abbrev store : SdkClient Buckets
store = record {
  get_bucket_info = get_bucket_info;
  create_bucket = create_bucket;
  set_bucket_acl = set_bucket_acl;
  delete_bucket = delete_bucket;
}

store-Keeps : Keeps store
unfolding put_bucket
store-Keeps = record {
  view = λ w. w;
  blank = λ n. blank;
  get_found = λ n w h. ground arith;
  get_missing = λ n w h e. ground arith;
  get_reads = λ n w. ground arith;
  create_made = λ n l w free h. ground (arith, eq_iff n n);
  create_others = λ n l w m other. ground (arith, eq_iff m n);
  acl_set = λ n a w found h. ground (arith, eq_iff n n);
  acl_others = λ n a w m other. ground (arith, eq_iff m n);
  delete_done = λ n w h. ground (arith, eq_iff n n);
  delete_missing = λ n w h e. ground (arith, eq_iff n n);
  delete_others = λ n w m other. ground (arith, eq_iff m n);
}

-- No bucket at first.
abbrev nothing : Buckets
nothing name = none

abbrev start : Env Bucket Buckets
start = record { cr = photos; world = nothing }

abbrev after_create : Buckets
after_create = (create_cr (client names store) start).1.world

abbrev calls : List (Request × Bucket)
calls = (deletes, photos) ∷ (creates, photos) ∷ []

abbrev after_delete : Buckets
after_delete =
    (delete_cr (client names store) (record { cr = photos; world = after_create })).1.world

photos-created :
    Served names names-IsDocumented store store-Keeps photos creates nothing after_create
unfolding store-Keeps create_cr create validate_oss_acl validate_oss_storage_class
    validate_oss_data_redundancy_type
photos-created = Served.created nothing refl refl

photos-deleted :
    Served names names-IsDocumented store store-Keeps photos deletes after_create after_delete
unfolding create_cr create delete_cr delete put_bucket validate_oss_acl validate_oss_storage_class
    validate_oss_data_redundancy_type
photos-deleted = Served.deleted after_create refl

Run-refines_example : after_delete ≡ replay (λ n. blank) calls nothing
unfolding store-Keeps
Run-refines_example =
    Run-refines names names-IsDocumented store store-Keeps
      (Run.next (Run.next Run.start photos-created) photos-deleted)

photos-Spares : Spares names names-IsDocumented store store-Keeps "music" nothing after_create
photos-Spares =
    Spares.one_more Spares.none_yet (Call.created nothing) (ground (arith, eq_iff "music" "photos"))

Spares-kept_example : after_create "music" ≡ none
unfolding store-Keeps
Spares-kept_example = Spares-kept names names-IsDocumented store store-Keeps photos-Spares

abbrev seen : ExternalObservation
seen = record {
  resource_exists = true;
  resource_up_to_date = true;
  connection_details =
      ("Bucket", "photos")
      ∷ ("ExtranetEndpoint", "oss-cn-beijing.aliyuncs.com")
      ∷ ("IntranetEndpoint", "oss-cn-beijing-internal.aliyuncs.com")
      ∷ [];
}

abbrev after_observe : Env Bucket Buckets
after_observe = (observe_cr (client names store) start).1

abbrev created : Env Bucket Buckets
created = (create_cr (client names store) after_observe).1

create_cr-observed_example :
    (o : ExternalObservation) × ((observe_cr (client names store) created).0 ≡ ok o)
    × Settled created o (observe_cr (client names store) created).1
unfolding store-Keeps observe_cr observe_described describe is_not_found_error cause create_cr
    create put_bucket configure generate_observation is_update_to_date warn_storage_class
    warn_data_redundancy_type get_connection_details validate_oss_acl validate_oss_storage_class
    validate_oss_data_redundancy_type
create_cr-observed_example =
    create_cr-observed names names-IsDocumented store store-Keeps start {o = no_observation}
      {made = record { connection_details = ("Bucket", "photos") ∷ [] }}
      {b = record blank { acl = "public-read"; storage_class = "IA"; redundancy_type = "LRS" }} refl
      refl refl refl

abbrev filled : Env Bucket Buckets
filled = record { cr = photos; world = after_create }

delete_cr-observed_example :
    let t = (delete_cr (client names store) filled).1 in
    (false ≡ false) × ((observe_cr (client names store) t).1.cr ≡ t.cr)
unfolding observe_cr describe is_not_found_error cause delete_cr delete create_cr create put_bucket
    configure validate_oss_acl validate_oss_storage_class validate_oss_data_redundancy_type
delete_cr-observed_example =
    delete_cr-observed names names-IsDocumented store store-Keeps filled {o = no_observation} refl
      refl
