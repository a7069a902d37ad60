-- ===== src/Controller/Sls/Index.antt =====
-- pkg/controller/sls/index_controller.go
use provider_alibaba.Base.{String, true, Option, some, [], ◌==◌, if◌then◌else◌}
use provider_alibaba.Go.{
  value, error, wrap, M, pure, fail, attempt, wrap_err, ◌>>=◌, ◌>>◌, Env, get_cr, update_cr, call,
}
use provider_alibaba.Crossplane.{
  ConnectionDetails, creating, deleting, set_conditions, set_at_provider, ExternalObservation,
  no_observation, ExternalCreation, no_creation,
}
use provider_alibaba.Crossplane.Handler.{on_kind}
use provider_alibaba.Apis.{Managed, logstore_index_kind}
use provider_alibaba.Apis.Sls.{LogstoreIndex}
use provider_alibaba.Clients.Sls.{Client}
use provider_alibaba.Clients.Sls.Sdk
use provider_alibaba.Clients.Sls.Index.{
  is_index_not_found_error, generate_index_observation, is_index_update_to_date,
}
use provider_alibaba.Controller.Sls.{missing, if_available}

abbrev pub err_create_index : String
err_create_index = "failed to create Index"

abbrev pub err_delete_index : String
err_delete_index = "failed to delete Index"

abbrev pub err_describe_index : String
err_describe_index = "failed to describe Index"

abbrev pub err_not_index : String
err_not_index = "managed resource is not an Index custom resource"

abbrev pub get_index_connection_details : LogstoreIndex → ConnectionDetails
get_index_connection_details cr = []

module _ {W : Type 0} (c : Client W) where
  abbrev H : Type 0 → Type 0
  H A = M (Env LogstoreIndex W) A

  -- `Observe` from a successful `DescribeIndex` on.
  unfoldable pub observe_described : Option Sdk.Index → H ExternalObservation
  observe_described index = do
    update_cr (set_at_provider (generate_index_observation index))
    cr ← get_cr
    let up_to_date = is_index_update_to_date cr index
    update_cr (if_available up_to_date)
    cr' ← get_cr
    pure (record {
      resource_exists = true;
      resource_up_to_date = up_to_date;
      connection_details = get_index_connection_details cr';
    })

  unfoldable pub observe_cr : H ExternalObservation
  observe_cr = do
    cr ← get_cr
    if cr.external_name == "" then pure no_observation else do
      found ←
          attempt
            (call (c.describe_index cr.for_provider.project_name cr.for_provider.logstore_name))
      elim found [
        | value index ↦ observe_described index
        | error e ↦
            if is_index_not_found_error (some e)
            then pure missing
            else fail (wrap err_describe_index e)
      ]

  unfoldable pub create_cr : H ExternalCreation
  create_cr = do
    update_cr (set_conditions creating)
    cr ← get_cr
    wrap_err err_create_index (call (c.create_index cr.for_provider))
    pure no_creation

  unfoldable pub delete_cr : H (Unit {0})
  delete_cr = do
    update_cr (set_conditions deleting)
    cr ← get_cr
    wrap_err err_delete_index
        (call (c.delete_index cr.for_provider.project_name cr.for_provider.logstore_name))

  abbrev pub observe : M (Env Managed W) ExternalObservation
  observe = on_kind logstore_index_kind err_not_index observe_cr

  abbrev pub create : M (Env Managed W) ExternalCreation
  create = on_kind logstore_index_kind err_not_index create_cr

  -- `Update` does nothing, for any resource.
  abbrev pub update : M (Env Managed W) (Unit {0})
  update = pure tt

  abbrev pub delete : M (Env Managed W) (Unit {0})
  delete = on_kind logstore_index_kind err_not_index delete_cr
