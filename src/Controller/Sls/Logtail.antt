-- ===== src/Controller/Sls/Logtail.antt =====
-- pkg/controller/sls/logtail_controller.go
use provider_alibaba.Base.{String, true, Option, some, [], ◌==◌, if◌then◌else◌}
use provider_alibaba.Go.{
  value, error, wrap, M, pure, fail, attempt, wrap_err, ◌>>=◌, ◌>>◌, Env, get_cr, update_cr, call,
}
use provider_alibaba.Crossplane.{
  ConnectionDetails, creating, deleting, set_conditions, set_at_provider, ExternalObservation,
  no_observation, ExternalCreation,
}
use provider_alibaba.Crossplane.Handler.{on_kind}
use provider_alibaba.Apis.{Managed, logtail_kind}
use provider_alibaba.Apis.Sls.{Logtail}
use provider_alibaba.Clients.Sls.{Client}
use provider_alibaba.Clients.Sls.Sdk.{LogConfig}
use provider_alibaba.Clients.Sls.Config.{
  is_logtail_not_found_error, generate_logtail_observation, is_logtail_update_to_date,
}
use provider_alibaba.Controller.Sls.{missing, if_available}

abbrev pub err_create_logtail : String
err_create_logtail = "failed to create Logtail"

abbrev pub err_delete_logtail : String
err_delete_logtail = "failed to delete Logtail"

abbrev pub err_describe_logtail : String
err_describe_logtail = "failed to describe Logtail"

abbrev pub err_not_logtail : String
err_not_logtail = "managed resource is not a Logtail custom resource"

abbrev pub get_logtail_connection_details : Logtail → ConnectionDetails
get_logtail_connection_details cr = []

module _ {W : Type 0} (c : Client W) where
  abbrev H : Type 0 → Type 0
  H A = M (Env Logtail W) A

  -- `Observe` from a successful `DescribeConfig` on.
  unfoldable pub observe_described : Option LogConfig → H ExternalObservation
  observe_described logtail = do
    update_cr (set_at_provider (generate_logtail_observation logtail))
    cr ← get_cr
    up_to_date ← is_logtail_update_to_date cr logtail
    update_cr (if_available up_to_date)
    cr' ← get_cr
    pure (record {
      resource_exists = true;
      resource_up_to_date = up_to_date;
      connection_details = get_logtail_connection_details cr';
    })

  unfoldable pub observe_cr : H ExternalObservation
  observe_cr = do
    cr ← get_cr
    if cr.external_name == "" then pure no_observation else do
      found ←
          attempt
            (call (c.describe_config cr.for_provider.output_detail.project_name cr.external_name))
      elim found [
        | value logtail ↦ observe_described logtail
        | error e ↦
            if is_logtail_not_found_error (some e)
            then pure missing
            else fail (wrap err_describe_logtail e)
      ]

  unfoldable pub create_cr : H ExternalCreation
  create_cr = do
    update_cr (set_conditions creating)
    cr ← get_cr
    wrap_err err_create_logtail (call (c.create_config cr.external_name cr.for_provider))
    cr' ← get_cr
    pure (record { connection_details = get_logtail_connection_details cr' })

  unfoldable pub delete_cr : H (Unit {0})
  delete_cr = do
    update_cr (set_conditions deleting)
    cr ← get_cr
    wrap_err err_delete_logtail
        (call (c.delete_config cr.for_provider.output_detail.project_name cr.external_name))

  abbrev pub observe : M (Env Managed W) ExternalObservation
  observe = on_kind logtail_kind err_not_logtail observe_cr

  abbrev pub create : M (Env Managed W) ExternalCreation
  create = on_kind logtail_kind err_not_logtail create_cr

  -- `Update` does nothing, for any resource.
  abbrev pub update : M (Env Managed W) (Unit {0})
  update = pure tt

  abbrev pub delete : M (Env Managed W) (Unit {0})
  delete = on_kind logtail_kind err_not_logtail delete_cr
