-- ===== src/Clients/Oss.antt =====
-- pkg/clients/oss/oss.go
mod Sdk
pub mod Validation
pub mod Laws
pub mod Service
pub use Sdk.{
  Names, CreateOption, acl, storage_class, redundancy_type, BucketInfo, SdkClient, Library,
}
unfoldable pub use Validation.{
  validate_oss_acl, validate_oss_storage_class, validate_oss_data_redundancy_type,
}
use provider_alibaba.Base.{
  String, Bool, true, false, ◌&&◌, ◌||◌, Option, none, some, [], ◌∷◌, ◌==◌, if◌then◌else◌,
}
use provider_alibaba.Go.{
  Err, message, as_oss_error, M, Result, value, error, pure, fail, ◌>>=◌, ◌>>◌,
}
use provider_alibaba.Apis.Oss.{Bucket, BucketParameter, BucketObservation}

abbrev pub err_code_no_such_bucket : String
err_code_no_such_bucket = "NoSuchBucket"

-- `ClientInterface`
pub record Client (W : Type 0) : Type 0 where
  pub describe : String → M W BucketInfo
  pub create : String → BucketParameter → M W (Unit {0})
  pub update : String → String → M W (Unit {0})
  pub delete : String → M W (Unit {0})

-- `IsNotFoundError`
unfoldable pub is_not_found_error : Option Err → Bool
is_not_found_error none = false
is_not_found_error (some e) = elim (as_oss_error e) [
  | some code ↦ if code == err_code_no_such_bucket then true else false
  | none ↦ false
]

-- `GenerateObservation`: the message is not set, so it is empty.
unfoldable pub generate_observation : BucketInfo → BucketObservation
generate_observation r = record {
  extranet_endpoint = r.extranet_endpoint;
  intranet_endpoint = r.intranet_endpoint;
  message = "";
}

-- `IsUpdateToDate`
unfoldable pub is_update_to_date : Bucket → BucketInfo → Bool
is_update_to_date cr info =
    if (cr.for_provider.acl == info.acl) || ((cr.for_provider.acl == "") && (info.acl == "private"))
    then true
    else false

-- A validation, as a step of a method.
abbrev checked : {W A : Type 0} → Result A → M W A
checked (value a) = pure a
checked (error e) = fail e

module _ {W : Type 0} (N : Names) (c : SdkClient W) where
  unfoldable pub describe : String → M W BucketInfo
  describe name = c.get_bucket_info name

  unfoldable pub create : String → BucketParameter → M W (Unit {0})
  create name p = do
    a ← checked (validate_oss_acl N p.acl)
    s ← checked (validate_oss_storage_class N p.storage_class)
    r ← checked (validate_oss_data_redundancy_type N p.data_redundancy_type)
    c.create_bucket name (acl a ∷ storage_class s ∷ redundancy_type r ∷ [])

  unfoldable pub update : String → String → M W (Unit {0})
  update name acl_str = do a ← checked (validate_oss_acl N acl_str); c.set_bucket_acl name a

  unfoldable pub delete : String → M W (Unit {0})
  delete name = c.delete_bucket name

  -- `SDKClient`, as the interface that the controller uses.
  abbrev pub client : Client W
  client = record { describe = describe; create = create; update = update; delete = delete }

-- `NewClient`. The error is a new one, which keeps only the text of the SDK's.
abbrev pub new_client :
    {W : Type 0}
    → Names
    → Library W
    → (Err → String)
    → String
    → String
    → String
    → String
    → Result (Client W)
new_client N L text_of endpoint access_key_id access_key_secret sts_token =
    let made =
      if sts_token == ""
      then L.new endpoint access_key_id access_key_secret
      else L.new_with_token endpoint access_key_id access_key_secret sts_token in
    elim made [ value c ↦ value (client N c) | error e ↦ error (message (text_of e)) ]
