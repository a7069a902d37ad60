-- ===== src/Tests/Fixtures.antt =====
-- A cluster, a runtime and the words of the OSS service, for the examples. The world is the number of
-- calls so far.
use provider_alibaba.Base.{
  ◌<>◌, ℕ, suc, Bool, Option, none, some, [], ◌∷◌, refl, arith, eq_iff, if◌then◌else◌,
}
use provider_alibaba.Go.{ok, Err, value}
use provider_alibaba.Crossplane.{Runtime, IsDocumented}
use provider_alibaba.Util.Kube.{Kube, ProviderConfig, SecretKeySelector, JoinsGroupKind}

abbrev pub ignoring : (Option Err → Bool) → Option Err → Option Err
ignoring is e = if is e then none else e

abbrev pub runtime : Runtime ℕ
runtime = record {
  ignore = ignoring;
  generate_password = λ w. (ok "pw", suc w);
  user_key = "username";
  password_key = "password";
  endpoint_key = "endpoint";
  port_key = "port";
}

pub runtime-IsDocumented : IsDocumented runtime
runtime-IsDocumented = record {
  ignore_accepted = λ is e h. ground arith;
  ignore_rejected = λ is e h. ground arith;
  user-ne-password = ground (arith, eq_iff "username" "password");
  user-ne-endpoint = ground (arith, eq_iff "username" "endpoint");
  user-ne-port = ground (arith, eq_iff "username" "port");
  password-ne-endpoint = ground (arith, eq_iff "password" "endpoint");
  password-ne-port = ground (arith, eq_iff "password" "port");
  endpoint-ne-port = ground (arith, eq_iff "endpoint" "port");
}

abbrev pub selector : SecretKeySelector
selector = record { namespace = "system"; name = "account"; key = "credentials" }

abbrev pub config : ProviderConfig
config = record {
  name = "default";
  spec = record {
    credentials = record { source = "Secret"; secret_ref = some selector; rest = "" };
    region = "cn-beijing";
  };
}

abbrev pub kube : Kube ℕ
kube = record {
  get_provider_config = λ name w. (ok config, suc w);
  get_secret =
      λ namespace name w. (ok (("accessKeyId", "id") ∷ ("accessKeySecret", "key") ∷ []), suc w);
  track = λ mg w. (ok tt, suc w);
  extract_credentials = λ pc w. (ok "yaml", suc w);
  unmarshal = λ s.
      value (record { access_key_id = "id"; access_key_secret = "key"; security_token = "token" });
  group_kind = λ group kind. kind <> ("." <> group);
}

pub kube-JoinsGroupKind : JoinsGroupKind kube
kube-JoinsGroupKind = λ group kind given. refl
