-- ===== src/Clients/Sls/Project.antt =====
-- The parts of pkg/clients/sls/sls.go on projects and on log stores.
use provider_alibaba.Base.{String, Bool, true, false, Option, none, some, ◌==◌, ◌&&◌, if◌then◌else◌}
use provider_alibaba.Base.Int.{ℤ, pos, eqb_ℤ}
use provider_alibaba.Go.{Err, as_log_error, as_log_error_pointer, M, wrap_err}
use provider_alibaba.Apis.Sls.{ProjectObservation, StoreObservation}
use provider_alibaba.Apis
use provider_alibaba.Clients.Sls.Sdk.{SdkClient, LogProject, LogStore}

abbrev pub err_code_project_not_exist : String
err_code_project_not_exist = "ProjectNotExist"

abbrev pub err_failed_to_get_sls_project : String
err_failed_to_get_sls_project = "FailedToGetSLSProject"

abbrev pub err_failed_to_create_sls_project : String
err_failed_to_create_sls_project = "FailedToCreateSLSProject"

abbrev pub err_failed_to_update_sls_project : String
err_failed_to_update_sls_project = "FailedToUpdateSLSProject"

abbrev pub err_failed_to_delete_sls_project : String
err_failed_to_delete_sls_project = "FailedToDeleteSLSProject"

abbrev pub err_code_store_not_exist : String
err_code_store_not_exist = "LogStoreNotExist"

abbrev pub err_failed_to_get_sls_store : String
err_failed_to_get_sls_store = "FailedToGetSLSStore"

abbrev pub err_failed_to_create_sls_store : String
err_failed_to_create_sls_store = "FailedToCreateSLSStore"

abbrev pub err_failed_to_update_sls_store : String
err_failed_to_update_sls_store = "FailedToUpdateSLSStore"

abbrev pub err_failed_to_delete_sls_store : String
err_failed_to_delete_sls_store = "FailedToDeleteSLSStore"

-- `GenerateObservation`: the region is taken from the status.
unfoldable pub generate_observation : LogProject → ProjectObservation
generate_observation p = record {
  create_time = p.create_time;
  last_modify_time = p.last_modify_time;
  owner = p.owner;
  status = p.status;
  region = p.status;
}

-- `IsNotFoundError` looks for an `sdk.Error` value; the other tests look for a pointer to one.
unfoldable pub is_not_found_error : Option Err → Bool
is_not_found_error none = false
is_not_found_error (some e) = elim (as_log_error e) [
  | none ↦ false
  | some code ↦ code == err_code_project_not_exist
]

unfoldable pub is_store_not_found_error : Option Err → Bool
is_store_not_found_error none = false
is_store_not_found_error (some e) = elim (as_log_error_pointer e) [
  | none ↦ false
  | some code ↦ code == err_code_store_not_exist
]

unfoldable pub generate_store_observation : LogStore → StoreObservation
generate_store_observation store = record {
  create_time = store.create_time;
  last_modify_time = store.last_modify_time;
}

-- `IsStoreUpdateToDate`: the name is that of the object, not the external one.
unfoldable pub is_store_update_to_date : Apis.Sls.LogStore → LogStore → Bool
is_store_update_to_date cr store =
    if (cr.name == store.name) && eqb_ℤ cr.for_provider.ttl store.ttl then true else false

module _ {W : Type 0} (c : SdkClient W) where
  unfoldable pub describe : String → M W (Option LogProject)
  describe name = wrap_err err_failed_to_get_sls_project (c.get_project name)

  unfoldable pub create : String → String → M W (Option LogProject)
  create name description =
      wrap_err err_failed_to_create_sls_project (c.create_project name description)

  unfoldable pub update : String → String → M W (Option LogProject)
  update name description =
      wrap_err err_failed_to_update_sls_project (c.update_project name description)

  unfoldable pub delete : String → M W (Unit {0})
  delete name = wrap_err err_failed_to_delete_sls_project (c.delete_project name)

  unfoldable pub describe_store : String → String → M W (Option LogStore)
  describe_store project logstore =
      wrap_err err_failed_to_get_sls_store (c.get_log_store project logstore)

  unfoldable pub create_store : String → LogStore → M W (Unit {0})
  create_store project logstore =
      wrap_err err_failed_to_create_sls_store (c.create_log_store_v2 project logstore)

  -- The number of shards is always 2.
  unfoldable pub update_store : String → String → ℤ → M W (Unit {0})
  update_store project logstore ttl =
      wrap_err err_failed_to_update_sls_store (c.update_log_store project logstore ttl (pos 2))

  unfoldable pub delete_store : String → String → M W (Unit {0})
  delete_store project logstore =
      wrap_err err_failed_to_delete_sls_store (c.delete_log_store project logstore)
