-- ===== src/Controller/Database.antt =====
-- pkg/controller/database/rdsinstance.go
mod Errors
pub mod Connect
pub mod Frame
pub mod Laws
pub mod Running
pub use Errors.*
use provider_alibaba.Base.{String, true, ◌==◌, Option, none, some, [], ◌∷◌, if◌then◌else◌}
use provider_alibaba.Base.Dict.{insert}
use provider_alibaba.Go.{
  Err, as_sdk_error, wrap_nil, M, value, error, pure, fail, attempt, wrap_err, return_with, ◌>>=◌,
  ◌>>◌, Env, get_cr, update_cr, call,
}
use provider_alibaba.Crossplane.{
  ConnectionDetails, available, unavailable, set_conditions, set_at_provider, ExternalObservation,
  no_observation, ExternalCreation, no_creation, Runtime,
}
use provider_alibaba.Crossplane.Handler.{on_kind}
use provider_alibaba.Apis.{Managed, rds_kind}
use provider_alibaba.Apis.Database.{
  RdsInstance, Endpoint, rds_instance_state_running, rds_instance_state_creating,
  rds_instance_state_deleting,
}
use provider_alibaba.Clients.Rds.{
  Client, DbInstance, generate_observation, make_create_db_instance_request, is_error_not_found,
}

abbrev pub set_account_ready : RdsInstance → RdsInstance
set_account_ready cr = record cr { at_provider = record cr.at_provider { account_ready = true } }

abbrev pub with_id : String → RdsInstance → RdsInstance
with_id id cr = record cr { at_provider = record cr.at_provider { db_instance_id = id } }

module _ {W : Type 0} (c : Client W) (R : Runtime W) where
  abbrev H : Type 0 → Type 0
  H A = M (Env RdsInstance W) A

  abbrev with_endpoint : Option Endpoint → ConnectionDetails → ConnectionDetails
  with_endpoint none cd = cd
  with_endpoint (some e) cd = insert R.port_key e.port (insert R.endpoint_key e.address cd)

  unfoldable pub get_connection_details : String → RdsInstance → DbInstance → ConnectionDetails
  get_connection_details password cr instance =
      let start : ConnectionDetails = (R.user_key, cr.for_provider.master_username) ∷ [] in
      with_endpoint instance.endpoint
        (if password == "" then start else insert R.password_key password start)

  unfoldable pub create_account_if_needed : H String
  create_account_if_needed = do
    cr ← get_cr
    if cr.at_provider.account_ready then pure "" else do
      pw ← call R.generate_password
      made ←
          attempt (
            call
              (c.create_account cr.at_provider.db_instance_id cr.for_provider.master_username pw))
      elim made [
        | value _ ↦ update_cr set_account_ready >> pure pw
        | error e ↦ elim (as_sdk_error e) [
          | none ↦ fail e
          | some code ↦
              if code == err_account_name_duplicate
              then update_cr set_account_ready >> pure ""
              else fail e
        ]
      ]

  -- The `switch` on the observed status.
  unfoldable pub observe_status : H String
  observe_status = do
    cr ← get_cr
    if cr.at_provider.db_instance_status == rds_instance_state_running
        then update_cr (set_conditions available)
          >> wrap_err err_create_account_failed create_account_if_needed
        else update_cr (set_conditions unavailable) >> pure ""

  -- `Observe` from the answer of `DescribeDBInstance` on.
  unfoldable pub observe_described : DbInstance → H ExternalObservation
  observe_described instance = do
    update_cr (set_at_provider (generate_observation instance))
    pw ← observe_status
    cr ← get_cr
    pure (record {
      resource_exists = true;
      resource_up_to_date = true;
      connection_details = get_connection_details pw cr instance;
    })

  unfoldable pub observe_cr : H ExternalObservation
  observe_cr = do
    cr ← get_cr
    if cr.at_provider.db_instance_id == "" then pure no_observation else do
      found ← attempt (call (c.describe_db_instance cr.at_provider.db_instance_id))
      elim found [
        | error e ↦
            return_with no_observation
              (wrap_nil err_describe_failed (R.ignore is_error_not_found (some e)))
        | value instance ↦ observe_described instance
      ]

  unfoldable pub create_cr : H ExternalCreation
  create_cr = do
    cr ← get_cr
    if cr.at_provider.db_instance_status == rds_instance_state_creating
        then pure no_creation
        else do
          instance ← wrap_err err_create_failed (
              call (
                c.create_db_instance
                  (make_create_db_instance_request cr.external_name cr.for_provider)))
          update_cr (with_id instance.id)
          cr' ← get_cr
          pure (record { connection_details = get_connection_details "" cr' instance })

  unfoldable pub delete_cr : H (Unit {0})
  delete_cr = do
    cr ← get_cr
    if cr.at_provider.db_instance_status == rds_instance_state_deleting then pure tt else do
      done ← attempt (call (c.delete_db_instance cr.at_provider.db_instance_id))
      let failed : Option Err = elim done [ value _ ↦ none | error e ↦ some e ]
      return_with tt (wrap_nil err_delete_failed (R.ignore is_error_not_found failed))

  -- `Observe`, `Create` and `Delete`; `Update` does nothing, for any resource.
  abbrev pub observe : M (Env Managed W) ExternalObservation
  observe = on_kind rds_kind err_not_rds_instance observe_cr

  abbrev pub create : M (Env Managed W) ExternalCreation
  create = on_kind rds_kind err_not_rds_instance create_cr

  abbrev pub update : M (Env Managed W) (Unit {0})
  update = pure tt

  abbrev pub delete : M (Env Managed W) (Unit {0})
  delete = on_kind rds_kind err_not_rds_instance delete_cr
