-- ===== src/Util/Kube.antt =====
-- The Kubernetes side of pkg/util: the ProviderConfig of apis/v1beta1/types.go, and the libraries
-- that the code reads it with, which are not part of this repository.
use provider_alibaba.Base.{String, Option, ◌≡◌, ◌≢◌, ◌<>◌}
use provider_alibaba.Base.Dict.{Dict}
use provider_alibaba.Go.{M, Result}
use provider_alibaba.Apis.{Managed}

-- `xpv1.SecretKeySelector`
pub record SecretKeySelector : Type 0 where
  pub namespace : String
  pub name : String
  pub key : String

-- Of `xpv1.CommonCredentialSelectors` the provider itself reads only the secret reference; `rest`
-- stands for the others, which are handed on.
pub record ProviderCredentials : Type 0 where
  pub source : String
  pub secret_ref : Option SecretKeySelector
  pub rest : String

pub record ProviderConfigSpec : Type 0 where
  pub credentials : ProviderCredentials
  pub region : String

pub record ProviderConfig : Type 0 where
  pub name : String
  pub spec : ProviderConfigSpec

pub record AlibabaCredentials : Type 0 where
  pub access_key_id : String
  pub access_key_secret : String
  pub security_token : String

pub record Kube (W : Type 0) : Type 0 where
  -- `client.Get` of a ProviderConfig by name, and of a Secret's `Data` by namespace and name
  pub get_provider_config : String → M W ProviderConfig
  pub get_secret : String → String → M W (Dict String)
  -- `usage.Track`
  pub track : Managed → M W (Unit {0})
  -- `resource.CommonCredentialExtractor`
  pub extract_credentials : ProviderCredentials → M W String
  -- `yaml.Unmarshal` into `AlibabaCredentials`
  pub unmarshal : String → Result AlibabaCredentials
  -- `schema.GroupKind{Group, Kind}.String()`
  pub group_kind : String → String → String

-- `GroupKind.String` joins the kind and a group that is not empty by a dot.
abbrev pub JoinsGroupKind : {W : Type 0} → Kube W → Type 0
JoinsGroupKind K =
    (group kind : String) → group ≢ "" → K.group_kind group kind ≡ kind <> ("." <> group)
