-- ===== src/Util/Connect.antt =====
-- The `Connect` methods of all controllers but the Redis one: the type assertion, `PrepareClient` with
-- the name behind `ProviderConfigReference`, and the constructor of the service's client. The
-- controllers give the kind, their messages and the constructor.
pub mod Laws
pub mod Served
use provider_alibaba.Base.{String, Option, none, some}
use provider_alibaba.Go.{message, wrap, M, Result, value, error, pure, fail, crash, ◌>>=◌}
use provider_alibaba.Crossplane.{Resource}
use provider_alibaba.Apis.{Managed, Kind}
use provider_alibaba.Util.Kube.{Kube}
use provider_alibaba.Util.Client.{ClientEstablishmentInfo, prepare_client}

module _ {W Cl : Type 0} (K : Kube W) (make : ClientEstablishmentInfo → Result Cl) where
  -- `return …, errors.Wrap(err, errCreateClient)`
  abbrev pub finish : String → Result Cl → M W Cl
  finish err_create_client (value client) = pure client
  finish err_create_client (error e) = fail (wrap err_create_client e)

  -- The name is read through a pointer, which may be nil.
  abbrev pub connect_named : Managed → String → String → Option String → M W Cl
  connect_named mg err_create_client kind none = crash
  connect_named mg err_create_client kind (some name) = do
    info ← prepare_client K mg (some kind) name
    finish err_create_client (make info)

  unfoldable pub connect_with :
      {P O : Type 0} → Kind (Resource P O) → String → String → Managed → M W Cl
  connect_with k err_not_kind err_create_client mg = elim (k.of_managed mg) [
    | none ↦ fail (message err_not_kind)
    | some cr ↦ connect_named mg err_create_client cr.kind cr.provider_config_reference
  ]
