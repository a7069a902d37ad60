-- ===== src/Tests/Oss.antt =====
-- The OSS theorems at one bucket and one service.
pub mod Store
use provider_alibaba.Base.{ℕ, suc, true, false, some, [], ◌∷◌, ◌≡◌, inl, inr, refl, arith, eq_iff}
use provider_alibaba.Go.{Env, ok, err, Err}
use provider_alibaba.Crossplane.{available, creating, set_conditions, ExternalObservation}
use provider_alibaba.Apis.Oss.{Bucket, BucketParameter}
use provider_alibaba.Clients.Oss.{
  Names, SdkClient, BucketInfo, Client, create, is_update_to_date, generate_observation,
}
use provider_alibaba.Clients.Oss.Laws.{
  IsDocumented, IsAcl, IsStorageClass, IsRedundancyType, create-accepted, create-rejected,
}
use provider_alibaba.Controller.Oss.{
  observe_cr, observe_described, update_bucket, warn_storage_class, warn_data_redundancy_type,
  get_connection_details,
}
use provider_alibaba.Controller.Oss.Laws.{
  is_ignored, warnings, observe_cr-bucket, update_bucket-without_acl,
}

abbrev pub names : Names
names = record {
  acl_public_read = "public-read";
  acl_public_read_write = "public-read-write";
  acl_private = "private";
  storage_standard = "Standard";
  storage_ia = "IA";
  storage_archive = "Archive";
  storage_cold_archive = "ColdArchive";
  redundancy_lrs = "LRS";
  redundancy_zrs = "ZRS";
}

pub names-IsDocumented : IsDocumented names
names-IsDocumented = record {
  acl_private = refl;
  acl_public_read = refl;
  acl_public_read_write = refl;
  storage_standard = refl;
  storage_ia = refl;
  storage_archive = refl;
  storage_cold_archive = refl;
  redundancy_lrs = refl;
  redundancy_zrs = refl;
}

abbrev public_info : BucketInfo
public_info = record {
  acl = "public-read";
  storage_class = "Standard";
  redundancy_type = "LRS";
  extranet_endpoint = "oss-cn-beijing.aliyuncs.com";
  intranet_endpoint = "oss-cn-beijing-internal.aliyuncs.com";
}

abbrev sdk : SdkClient ℕ
sdk = record {
  get_bucket_info = λ name w. (ok public_info, suc w);
  create_bucket = λ name options w. (ok tt, suc w);
  set_bucket_acl = λ name acl_ w. (ok tt, suc w);
  delete_bucket = λ name w. (ok tt, suc w);
}

abbrev parameter : BucketParameter
parameter = record { acl = ""; storage_class = "IA"; data_redundancy_type = "" }

create-accepted_example : create names sdk "photos" parameter 0 ≡ (ok tt, 1)
unfolding IsAcl IsStorageClass IsRedundancyType
create-accepted_example =
    create-accepted names names-IsDocumented sdk "photos" parameter 0 (inl refl) (inr (inl refl))
      (inl refl)

abbrev misspelled : BucketParameter
misspelled = record { acl = "Private"; storage_class = ""; data_redundancy_type = "" }

misspelled-rejected : ¬ (IsAcl "Private" × IsStorageClass "Standard" × IsRedundancyType "LRS")
unfolding IsAcl
misspelled-rejected (a, s, r) = ground (
  arith,
  eq_iff "Private" "private",
  eq_iff "Private" "public-read",
  eq_iff "Private" "public-read-write",
)

create-rejected_example : (e : Err) × (create names sdk "photos" misspelled 0 ≡ (err e, 0))
create-rejected_example =
    create-rejected names names-IsDocumented sdk "photos" misspelled 0 misspelled-rejected

abbrev pub photos : Bucket
photos = record {
  kind = "Bucket";
  name = "photos";
  external_name = "photos";
  provider_config_reference = some "default";
  for_provider = record { acl = "public-read"; storage_class = "IA"; data_redundancy_type = "" };
  at_provider = record { extranet_endpoint = ""; intranet_endpoint = ""; message = "" };
  conditions = [];
}

-- It describes every bucket as readable by the public.
abbrev pub service : Client ℕ
service = record {
  describe = λ name w. (ok public_info, suc w);
  create = λ name p w. (ok tt, suc w);
  update = λ name a w. (ok tt, suc w);
  delete = λ name w. (ok tt, suc w);
}

abbrev start : Env Bucket ℕ
start = record { cr = photos; world = 0 }

abbrev observed : ExternalObservation
observed = record {
  resource_exists = true;
  resource_up_to_date = true;
  connection_details =
      ("Bucket", "photos")
      ∷ ("ExtranetEndpoint", "oss-cn-beijing.aliyuncs.com")
      ∷ ("IntranetEndpoint", "oss-cn-beijing-internal.aliyuncs.com")
      ∷ [];
}

observe_cr-bucket_example :
    let t = (observe_cr service start).1.cr in
    (observed.resource_exists ≡ true)
    × (observed.resource_up_to_date ≡ is_update_to_date photos public_info)
    × (t.conditions ≡ available ∷ [])
    × (t.at_provider.message ≡ warnings true false)
    × (t.for_provider ≡ photos.for_provider)
    × (observed.connection_details ≡ get_connection_details t)
unfolding observe_cr observe_described warn_storage_class warn_data_redundancy_type
    generate_observation is_update_to_date get_connection_details is_ignored
observe_cr-bucket_example =
    observe_cr-bucket service start {info = public_info} {w = 1} {o = observed} refl refl

abbrev silent : Bucket
silent = record photos { for_provider = parameter }

update_bucket-without_acl_example :
    (update_bucket service (record { cr = silent; world = 0 })
      ≡ (ok tt, record { cr = set_conditions creating silent; world = 1 }))
    × (is_update_to_date silent public_info ≡ false)
update_bucket-without_acl_example =
    update_bucket-without_acl service (record { cr = silent; world = 0 }) {info = public_info}
      {w = 1} refl refl (ground (arith, eq_iff "public-read" ""))
      (ground (arith, eq_iff "public-read" "private"))
