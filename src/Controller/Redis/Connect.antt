-- ===== src/Controller/Redis/Connect.antt =====
-- `Connect` of pkg/controller/redis/redis_instance.go, which reads the provider's secret itself.
use provider_alibaba.Base.{
  String, ◌<>◌, Option, none, some, ◌≡◌, ◌≢◌, ◌==◌, eq_iff, arith, not, if◌then◌else◌,
}
use provider_alibaba.Base.Dict.{Dict, lookup}
use provider_alibaba.Go.{
  Err, message, wrap, M, ok, err, Result, value, error, pure, fail, wrap_err, ◌>>=◌, ◌>>◌,
}
use provider_alibaba.Apis.{Managed, redis_kind, redis_instance}
use provider_alibaba.Apis.Redis.{RedisInstance}
use provider_alibaba.Util.Kube.{Kube, ProviderConfig, SecretKeySelector}
use provider_alibaba.Clients.Redis.{Client}

abbrev pub err_no_provider : String
err_no_provider = "no provider config or provider specified"

abbrev pub err_create_client : String
err_create_client = "cannot create redis client"

abbrev pub err_get_provider_config : String
err_get_provider_config = "cannot get provider config"

abbrev pub err_track_usage : String
err_track_usage = "cannot track provider config usage"

abbrev pub err_no_connection_secret : String
err_no_connection_secret = "no connection secret specified"

abbrev pub err_get_connection_secret : String
err_get_connection_secret = "cannot get connection secret"

abbrev pub err_not_instance : String
err_not_instance = "managed resource is not an instance custom resource"

-- What `Connect` is built with: the cluster, the verb `%q` of `errors.Errorf`, the constant
-- `xpv1.CredentialsSourceSecret` and the constructor of the client.
pub record Connector (W : Type 0) : Type 0 where
  pub kube : Kube W
  pub quote : String → String
  pub credentials_source_secret : String
  pub new_redis_client : String → String → String → Result (Client W)

-- `string(m[k])`: a missing key reads as the empty text.
abbrev pub text_at : String → Dict String → String
text_at k m = elim (lookup k m) [ some v ↦ v | none ↦ "" ]

module _ {W : Type 0} (x : Connector W) where
  abbrev finish : Result (Client W) → M W (Client W)
  finish (value client) = pure client
  finish (error e) = fail (wrap err_create_client e)

  abbrev with_secret : String → Option SecretKeySelector → M W (Client W)
  with_secret region none = fail (message err_no_connection_secret)
  with_secret region (some sel) = do
    secret ← wrap_err err_get_connection_secret (x.kube.get_secret sel.namespace sel.name)
    finish (
        x.new_redis_client (text_at "accessKeyId" secret) (text_at "accessKeySecret" secret) region)

  abbrev with_provider_config : ProviderConfig → M W (Client W)
  with_provider_config pc =
      let source = pc.spec.credentials.source in
      if not (source == x.credentials_source_secret)
      then fail
          (message ("credentials source " <> (x.quote source <> " is not currently supported")))
      else with_secret pc.spec.region pc.spec.credentials.secret_ref

  abbrev connect_from : Managed → Option String → M W (Client W)
  connect_from mg none = fail (message err_no_provider)
  connect_from mg (some name) = do
    wrap_err err_track_usage (x.kube.track mg)
    pc ← wrap_err err_get_provider_config (x.kube.get_provider_config name)
    with_provider_config pc

  unfoldable pub connect : Managed → M W (Client W)
  connect mg = elim (redis_kind.of_managed mg) [
    | none ↦ fail (message err_not_instance)
    | some cr ↦ connect_from mg cr.provider_config_reference
  ]

  -- For a Redis instance that names a provider config whose credentials come from a secret, where
  -- the tracker accepts it and both can be read, `Connect` makes the client with the two keys of
  -- the secret and the region of the config.
  pub connect-made :
      (cr : RedisInstance) {name : String} {pc : ProviderConfig} {sel : SecretKeySelector}
      {secret : Dict String} (w : W) {w1 w2 w3 : W}
      → cr.provider_config_reference ≡ some name
      → x.kube.track (redis_instance cr) w ≡ (ok tt, w1)
      → x.kube.get_provider_config name w1 ≡ (ok pc, w2)
      → pc.spec.credentials.source ≡ x.credentials_source_secret
      → pc.spec.credentials.secret_ref ≡ some sel
      → x.kube.get_secret sel.namespace sel.name w2 ≡ (ok secret, w3)
      → connect (redis_instance cr) w
        ≡ finish
            (x.new_redis_client
              (text_at "accessKeyId" secret)
              (text_at "accessKeySecret" secret)
              pc.spec.region)
            w3
  unfolding connect
  connect-made cr {pc = pc} w named tracked config source ref read =
      ground (arith, eq_iff pc.spec.credentials.source x.credentials_source_secret)

  -- For a Redis instance that names a provider config whose credentials come from elsewhere than a
  -- secret, where the tracker accepts it and the config can be read, `Connect` returns an error and
  -- reads no secret.
  pub connect-unsupported :
      (cr : RedisInstance) {name : String} {pc : ProviderConfig} (w : W) {w1 w2 : W}
      → cr.provider_config_reference ≡ some name
      → x.kube.track (redis_instance cr) w ≡ (ok tt, w1)
      → x.kube.get_provider_config name w1 ≡ (ok pc, w2)
      → pc.spec.credentials.source ≢ x.credentials_source_secret
      → (e : Err) × (connect (redis_instance cr) w ≡ (err e, w2))
  unfolding connect
  connect-unsupported cr {pc = pc} w named tracked config other = (
    message (
        "credentials source "
        <> (x.quote pc.spec.credentials.source <> " is not currently supported")),
    ground (arith, eq_iff pc.spec.credentials.source x.credentials_source_secret),
  )
