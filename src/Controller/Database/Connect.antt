-- ===== src/Controller/Database/Connect.antt =====
-- `Connect` of pkg/controller/database/rdsinstance.go.
use provider_alibaba.Base.{String, ◌≡◌, ◌≢◌, ap, ◌∙◌, sym}
use mathlib.Core.Path.{subst}
use mathlib.Core.Option.{some-injective}
use provider_alibaba.Go.{M, Result, ok}
use provider_alibaba.Apis.{Managed, rds_kind, rds_instance}
use provider_alibaba.Apis.Database.{RdsInstance}
use provider_alibaba.Util.Kube.{Kube, JoinsGroupKind}
use provider_alibaba.Util.Endpoint.Laws.{IsUnserved}
use provider_alibaba.Util.Client.{ClientEstablishmentInfo}
use provider_alibaba.Util.Connect.{connect_with}
use provider_alibaba.Util.Connect.Laws.{connect_with-unserved}
use provider_alibaba.Clients.Rds.{Client}
use provider_alibaba.Controller.Database.Errors.{err_not_rds_instance, err_create_rds_client}

-- `connector`: the cluster, and the constructor of the client (key, secret, token, region).
pub record Connector (W : Type 0) : Type 0 where
  pub kube : Kube W
  pub new_rds_client : String → String → String → String → Result (Client W)

module _ {W : Type 0} (x : Connector W) where
  abbrev make : ClientEstablishmentInfo → Result (Client W)
  make info =
      x.new_rds_client info.access_key_id info.access_key_secret info.security_token info.region

  unfoldable pub connect : Managed → M W (Client W)
  connect = connect_with x.kube make rds_kind err_not_rds_instance err_create_rds_client

  -- Where GroupKind prints as documented, `Connect` gives no client for an RDS instance that bears
  -- its kind, whatever the cluster answers: `GetEndpoint` has no case for it.
  pub connect-never :
      JoinsGroupKind x.kube
      → (cr : RdsInstance) (w : W) (client : Client W) → cr.kind ≡ "RDSInstance"
      → (connect (rds_instance cr) w).0 ≢ ok client
  unfolding connect
  connect-never joins cr w client kind =
      connect_with-unserved x.kube make joins rds_kind _ _ (rds_instance cr) w
        (λ cr' same.
          subst IsUnserved (sym kind ∙ ap (λ (r : RdsInstance). r.kind) (some-injective _ _ same))
            IsUnserved.rds_instance)
        client
