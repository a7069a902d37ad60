-- ===== src/Controller/Oss.antt =====
-- pkg/controller/oss/oss_controller.go
pub mod Frame
pub mod Laws
pub mod Effect
pub mod Refinement
pub mod Roundtrip
use provider_alibaba.Base.{
  String, ◌<>◌, Bool, true, false, ◌&&◌, ◌==◌, some, [], ◌∷◌, if◌then◌else◌,
}
use provider_alibaba.Base.Dict.{insert}
use provider_alibaba.Go.{
  M, Result, value, error, pure, fail, attempt, wrap_err, ◌>>=◌, ◌>>◌, Env, get_cr, update_cr, call,
  wrap,
}
use provider_alibaba.Crossplane.{
  ConnectionDetails, available, creating, deleting, set_conditions, set_at_provider,
  ExternalObservation, no_observation, ExternalCreation,
}
use provider_alibaba.Crossplane.Handler.{on_kind}
use provider_alibaba.Apis.{Managed, bucket_kind}
use provider_alibaba.Apis.Oss.{Bucket, BucketParameter}
use provider_alibaba.Util.Kube.{Kube}
use provider_alibaba.Util.Client.{ClientEstablishmentInfo}
use provider_alibaba.Util.Connect.{connect_with}
use provider_alibaba.Clients.Oss.{
  Client, BucketInfo, is_not_found_error, generate_observation, is_update_to_date,
}

abbrev pub err_create_client : String
err_create_client = "cannot create OSS client"

abbrev pub err_failed_to_create_bucket : String
err_failed_to_create_bucket = "failed to create OSS bucket"

abbrev pub err_failed_to_update_bucket : String
err_failed_to_update_bucket = "failed to update OSS bucket"

abbrev pub err_failed_to_delete_bucket : String
err_failed_to_delete_bucket = "failed to delete OSS bucket"

abbrev pub err_failed_to_describe_bucket : String
err_failed_to_describe_bucket = "failed to describe OSS bucket"

abbrev pub err_not_bucket : String
err_not_bucket = "managed resource is not a Bucket custom resource"

abbrev pub storage_class_warning : String
storage_class_warning = "[Warning] StorageClass is not allowed to update after creation; "

abbrev pub data_redundancy_type_warning : String
data_redundancy_type_warning =
    "[Warning] DataRedundancyType is not allowed to update after creation; "

-- `NewClientFn` takes the endpoint, the key, the secret and the token.
pub record Connector (W : Type 0) : Type 0 where
  pub kube : Kube W
  pub new_client_fn : String → String → String → String → Result (Client W)

abbrev new_client_of : {W : Type 0} → Connector W → ClientEstablishmentInfo → Result (Client W)
new_client_of x info =
    x.new_client_fn info.endpoint info.access_key_id info.access_key_secret info.security_token

unfoldable pub connect : {W : Type 0} → Connector W → Managed → M W (Client W)
connect x = connect_with x.kube (new_client_of x) bucket_kind err_not_bucket err_create_client

-- `cd[key] = value`, unless the value is empty.
abbrev pub put_endpoint : String → String → ConnectionDetails → ConnectionDetails
put_endpoint key endpoint cd = if endpoint == "" then cd else insert key endpoint cd

unfoldable pub get_connection_details : Bucket → ConnectionDetails
get_connection_details cr = put_endpoint "IntranetEndpoint" cr.at_provider.intranet_endpoint (
    put_endpoint "ExtranetEndpoint" cr.at_provider.extranet_endpoint
      (("Bucket", cr.external_name) ∷ []))

-- `cr.Status.AtProvider.Message += text`
abbrev pub add_message : String → Bucket → Bucket
add_message text cr = record cr {
  at_provider = record cr.at_provider { message = cr.at_provider.message <> text };
}

-- The warnings for a field that is set and differs from the bucket's.
unfoldable pub warn_storage_class : BucketInfo → Bucket → Bucket
warn_storage_class info cr =
    if cr.for_provider.storage_class == ""
    then cr
    else if cr.for_provider.storage_class == info.storage_class
    then cr
    else add_message storage_class_warning cr

unfoldable pub warn_data_redundancy_type : BucketInfo → Bucket → Bucket
warn_data_redundancy_type info cr =
    if cr.for_provider.data_redundancy_type == ""
    then cr
    else if cr.for_provider.data_redundancy_type == info.redundancy_type
    then cr
    else add_message data_redundancy_type_warning cr

abbrev pub if_available : Bool → Bucket → Bucket
if_available true cr = set_conditions available cr
if_available false cr = cr

module _ {W : Type 0} (c : Client W) where
  abbrev H : Type 0 → Type 0
  H A = M (Env Bucket W) A

  -- `Observe` from a successful `Describe` on.
  unfoldable pub observe_described : BucketInfo → H ExternalObservation
  observe_described bucket = do
    update_cr (set_at_provider (generate_observation bucket))
    update_cr (warn_storage_class bucket)
    update_cr (warn_data_redundancy_type bucket)
    cr ← get_cr
    let up_to_date = is_update_to_date cr bucket
    update_cr (if_available up_to_date)
    cr' ← get_cr
    pure (record {
      resource_exists = true;
      resource_up_to_date = up_to_date;
      connection_details = get_connection_details cr';
    })

  unfoldable pub observe_cr : H ExternalObservation
  observe_cr = do
    cr ← get_cr
    found ← attempt (call (c.describe cr.external_name))
    elim found [
      | value bucket ↦ observe_described bucket
      | error e ↦
          if is_not_found_error (some e)
          then pure no_observation
          else fail (wrap err_failed_to_describe_bucket e)
    ]

  unfoldable pub create_cr : H ExternalCreation
  create_cr = do
    update_cr (set_conditions creating)
    cr ← get_cr
    let p : BucketParameter = record {
      acl = cr.for_provider.acl;
      storage_class = cr.for_provider.storage_class;
      data_redundancy_type = cr.for_provider.data_redundancy_type;
    }
    wrap_err err_failed_to_create_bucket (call (c.create cr.external_name p))
    cr' ← get_cr
    pure (record { connection_details = get_connection_details cr' })

  unfoldable pub update_cr_acl : BucketInfo → H (Unit {0})
  update_cr_acl got = do
    cr ← get_cr
    if cr.for_provider.acl == ""
        then pure tt
        else if cr.for_provider.acl == got.acl
        then pure tt
        else wrap_err err_failed_to_update_bucket
            (call (c.update cr.external_name cr.for_provider.acl))

  unfoldable pub update_bucket : H (Unit {0})
  update_bucket = do
    update_cr (set_conditions creating)
    cr ← get_cr
    got ← wrap_err err_failed_to_describe_bucket (call (c.describe cr.external_name))
    update_cr_acl got

  unfoldable pub delete_cr : H (Unit {0})
  delete_cr = do
    update_cr (set_conditions deleting)
    cr ← get_cr
    done ← attempt (call (c.delete cr.external_name))
    elim done [
      | value _ ↦ pure tt
      | error e ↦
          if is_not_found_error (some e) then pure tt else fail (wrap err_failed_to_delete_bucket e)
    ]

  abbrev pub observe : M (Env Managed W) ExternalObservation
  observe = on_kind bucket_kind err_not_bucket observe_cr

  abbrev pub create : M (Env Managed W) ExternalCreation
  create = on_kind bucket_kind err_not_bucket create_cr

  abbrev pub update : M (Env Managed W) (Unit {0})
  update = on_kind bucket_kind err_not_bucket update_bucket

  abbrev pub delete : M (Env Managed W) (Unit {0})
  delete = on_kind bucket_kind err_not_bucket delete_cr
