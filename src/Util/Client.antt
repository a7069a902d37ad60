-- ===== src/Util/Client.antt =====
-- pkg/util/client.go
pub mod Laws
use provider_alibaba.Base.{String, Option}
use provider_alibaba.Go.{M, value, error, pure, fail, wrap_err, ◌>>=◌, ◌>>◌}
use provider_alibaba.Apis.{Managed}
use provider_alibaba.Util.Kube.{Kube}
use provider_alibaba.Util.Endpoint.{get_endpoint}
use provider_alibaba.Util.Provider.{get_credentials, get_region}

abbrev pub err_prepare_client_establishment_info : String
err_prepare_client_establishment_info =
    "failed to prepare all the information for establishing an SDK client"

abbrev pub err_track_usage : String
err_track_usage = "cannot track provider config usage"

-- The embedded credentials are written out.
pub record ClientEstablishmentInfo : Type 0 where
  pub access_key_id : String
  pub access_key_secret : String
  pub security_token : String
  pub region : String
  pub endpoint : String

module _ {W : Type 0} (K : Kube W) where
  unfoldable pub prepare_client : Managed → Option String → String → M W ClientEstablishmentInfo
  prepare_client mg res provider_config_name = do
    wrap_err err_track_usage (K.track mg)
    cred ← wrap_err err_prepare_client_establishment_info (get_credentials K provider_config_name)
    region ← wrap_err err_prepare_client_establishment_info (get_region K provider_config_name)
    elim (get_endpoint K res region) [
      | error e ↦ fail e
      | value endpoint ↦ pure (record {
        access_key_id = cred.access_key_id;
        access_key_secret = cred.access_key_secret;
        security_token = cred.security_token;
        region = region;
        endpoint = endpoint;
      })
    ]
