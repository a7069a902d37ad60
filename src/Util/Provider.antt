-- ===== src/Util/Provider.antt =====
-- pkg/util/provider.go
use provider_alibaba.Base.{String, ◌||◌, ◌==◌, if◌then◌else◌}
use provider_alibaba.Go.{M, value, error, message, wrap, pure, fail, wrap_err, ◌>>=◌}
use provider_alibaba.Util.Kube.{Kube, ProviderConfig, AlibabaCredentials}

abbrev pub err_get_provider_config : String
err_get_provider_config = "failed to get ProviderConfig"

abbrev pub err_get_credentials : String
err_get_credentials = "cannot get credentials"

abbrev pub err_failed_to_extract_credentials : String
err_failed_to_extract_credentials = "failed to extract Alibaba credentials"

abbrev pub err_access_key_not_complete : String
err_access_key_not_complete = "AccessKeyID or AccessKeySecret not existed"

module _ {W : Type 0} (K : Kube W) where
  unfoldable pub get_provider_config : String → M W ProviderConfig
  get_provider_config name = wrap_err err_get_provider_config (K.get_provider_config name)

  -- What follows `CommonCredentialExtractor`: the YAML document and the two keys it must have.
  unfoldable pub read_credentials : String → M W AlibabaCredentials
  read_credentials bytes = elim (K.unmarshal bytes) [
    | error e ↦ fail (wrap err_failed_to_extract_credentials e)
    | value cred ↦
        if (cred.access_key_id == "") || (cred.access_key_secret == "")
        then fail (message err_access_key_not_complete)
        else pure cred
  ]

  unfoldable pub get_credentials : String → M W AlibabaCredentials
  unfolding get_provider_config read_credentials
  get_credentials name = do
    pc ← get_provider_config name
    bytes ← wrap_err err_get_credentials (K.extract_credentials pc.spec.credentials)
    read_credentials bytes

  unfoldable pub get_region : String → M W String
  unfolding get_provider_config
  get_region name = do pc ← get_provider_config name; pure pc.spec.region
