-- ===== src/Controller/Redis.antt =====
-- pkg/controller/redis/redis_instance.go
mod Details
pub mod Ready
pub mod Observation
pub mod Frame
pub mod Connection
pub mod Connect
pub mod Change
pub mod Published
pub mod Service
pub mod Lifecycle
pub mod Requests
pub mod Safety
unfoldable pub use Details.*
unfoldable pub use Ready.*
use provider_alibaba.Base.{String, true, Option, none, some, [], ◌∷◌, ◌==◌, if◌then◌else◌}
use provider_alibaba.Go.{
  Err, wrap_nil, M, value, error, pure, attempt, wrap_err, return_with, ◌>>=◌, ◌>>◌, Env, get_cr,
  update_cr, call,
}
use provider_alibaba.Crossplane.{
  available, creating, deleting, unavailable, set_conditions, set_at_provider, ExternalObservation,
  no_observation, ExternalCreation, no_creation, Runtime,
}
use provider_alibaba.Crossplane.Handler.{on_kind}
use provider_alibaba.Apis.{Managed, redis_kind}
use provider_alibaba.Apis.Redis.{
  RedisInstance, redis_instance_state_running, redis_instance_state_creating,
  redis_instance_state_deleting,
}
use provider_alibaba.Clients.Redis.{
  Client, DbInstance, generate_observation, make_create_db_instance_request, is_error_not_found,
}

abbrev pub err_create_instance_connection_failed : String
err_create_instance_connection_failed = "cannot instance connection"

abbrev pub err_not_instance : String
err_not_instance = "managed resource is not an instance custom resource"

abbrev pub err_create_failed : String
err_create_failed = "cannot create redis instance"

abbrev pub err_create_account_failed : String
err_create_account_failed = "cannot create redis account"

abbrev pub err_delete_failed : String
err_delete_failed = "cannot delete redis instance"

abbrev pub err_describe_failed : String
err_describe_failed = "cannot describe redis instance"

module _ {W : Type 0} (c : Client W) (R : Runtime W) where
  abbrev H : Type 0 → Type 0
  H A = M (Env RedisInstance W) A

  -- The case `RedisInstanceStateRunning`.
  unfoldable pub observe_running : DbInstance → H (String × DbInstance)
  observe_running instance = do
    update_cr (set_conditions available)
    (address, port) ← wrap_err err_create_instance_connection_failed (create_connection_if_needed c)
    pw ← wrap_err err_create_account_failed (create_account_if_needed c R)
    pure (pw, record instance { endpoint = some (record { address = address; port = port }) })

  -- The `switch` on the observed status: the new password, and the instance with its endpoint.
  unfoldable pub observe_status : DbInstance → H (String × DbInstance)
  observe_status instance = do
    cr ← get_cr
    let status = cr.at_provider.db_instance_status
    if status == redis_instance_state_running
        then observe_running instance
        else if status == redis_instance_state_creating
        then update_cr (set_conditions creating) >> pure ("", instance)
        else if status == redis_instance_state_deleting
        then update_cr (set_conditions deleting) >> pure ("", instance)
        else update_cr (set_conditions unavailable) >> pure ("", instance)

  -- `Observe` from the answer of `DescribeDBInstance` on.
  unfoldable pub observe_described : DbInstance → H ExternalObservation
  observe_described instance = do
    update_cr (set_at_provider (generate_observation instance))
    (pw, seen) ← observe_status instance
    cr ← get_cr
    pure (record {
      resource_exists = true;
      resource_up_to_date = true;
      connection_details = get_connection_details R pw cr seen;
    })

  unfoldable pub observe_cr : H ExternalObservation
  observe_cr = do
    cr ← get_cr
    if cr.at_provider.db_instance_id == "" then pure no_observation else do
      found ← attempt (call (c.describe_db_instance cr.at_provider.db_instance_id))
      elim found [
        | error e ↦
            return_with no_observation
              (wrap_nil err_describe_failed (R.ignore is_error_not_found (some e)))
        | value instance ↦ observe_described instance
      ]

  unfoldable pub create_cr : H ExternalCreation
  create_cr = do
    update_cr (set_conditions creating)
    cr ← get_cr
    if cr.at_provider.db_instance_status == redis_instance_state_creating
        then pure no_creation
        else do
          instance ← wrap_err err_create_failed (
              call (
                c.create_db_instance
                  (make_create_db_instance_request cr.external_name cr.for_provider)))
          update_cr (λ cr. record cr {
            at_provider = record cr.at_provider { db_instance_id = instance.id };
          })
          cr' ← get_cr
          pure (record { connection_details = get_connection_details R "" cr' instance })

  -- `managed.ExternalUpdate` stays empty.
  unfoldable pub update_instance : H (Unit {0})
  update_instance = do
    cr ← get_cr
    update_cr (set_conditions creating)
    call (c.update cr.external_name (record { instance_class = cr.for_provider.instance_class }))

  unfoldable pub delete_cr : H (Unit {0})
  delete_cr = do
    update_cr (set_conditions deleting)
    cr ← get_cr
    if cr.at_provider.db_instance_status == redis_instance_state_deleting then pure tt else do
      done ← attempt (call (c.delete_db_instance cr.at_provider.db_instance_id))
      let failed : Option Err = elim done [ value _ ↦ none | error e ↦ some e ]
      return_with tt (wrap_nil err_delete_failed (R.ignore is_error_not_found failed))

  -- `Observe`, `Create`, `Update` and `Delete`.
  abbrev pub observe : M (Env Managed W) ExternalObservation
  observe = on_kind redis_kind err_not_instance observe_cr

  abbrev pub create : M (Env Managed W) ExternalCreation
  create = on_kind redis_kind err_not_instance create_cr

  abbrev pub update : M (Env Managed W) (Unit {0})
  update = on_kind redis_kind err_not_instance update_instance

  abbrev pub delete : M (Env Managed W) (Unit {0})
  delete = on_kind redis_kind err_not_instance delete_cr
