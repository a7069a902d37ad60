-- ===== src/Controller/Sls/Project.antt =====
-- pkg/controller/sls/project_controller.go
pub mod Observed
use provider_alibaba.Base.{String, true, Option, some, [], ◌∷◌, ◌==◌, ◌&&◌, if◌then◌else◌}
use provider_alibaba.Go.{
  value, error, M, pure, fail, attempt, deref, ◌>>=◌, ◌>>◌, Env, get_cr, update_cr, call,
}
use provider_alibaba.Crossplane.{
  ConnectionDetails, set_at_provider, ExternalObservation, no_observation, ExternalCreation,
}
use provider_alibaba.Crossplane.Handler.{on_kind}
use provider_alibaba.Apis.{Managed, project_kind}
use provider_alibaba.Apis
use provider_alibaba.Clients.Sls.{Client}
use provider_alibaba.Clients.Sls.Sdk.{LogProject}
use provider_alibaba.Clients.Sls.Project.{is_not_found_error, generate_observation}
use provider_alibaba.Controller.Sls.{if_available}

abbrev pub err_not_project : String
err_not_project = "managed resource is not a SLS project custom resource"

unfoldable pub get_connection_details : LogProject → ConnectionDetails
get_connection_details project = ("Name", project.name) ∷ ("Endpoint", project.endpoint) ∷ []

module _ {W : Type 0} (c : Client W) where
  abbrev H : Type 0 → Type 0
  H A = M (Env Apis.Sls.Project W) A

  -- `Observe` from a successful `Describe` on.
  unfoldable pub observe_described : Option LogProject → H ExternalObservation
  observe_described found = do
    project ← deref found
    update_cr (set_at_provider (generate_observation project))
    cr ← get_cr
    let up_to_date =
        (cr.external_name == project.name) && (cr.for_provider.description == project.description)
    update_cr (if_available up_to_date)
    pure (record {
      resource_exists = true;
      resource_up_to_date = up_to_date;
      connection_details = get_connection_details project;
    })

  unfoldable pub observe_cr : H ExternalObservation
  observe_cr = do
    cr ← get_cr
    found ← attempt (call (c.describe cr.external_name))
    elim found [
      | value project ↦ observe_described project
      | error e ↦ if is_not_found_error (some e) then pure no_observation else fail e
    ]

  unfoldable pub create_cr : H ExternalCreation
  create_cr = do
    cr ← get_cr
    made ← call (c.create cr.external_name cr.for_provider.description)
    project ← deref made
    pure (record { connection_details = get_connection_details project })

  -- A description that the service did not take is compared, and nothing comes of it: the error that
  -- is returned then is nil.
  unfoldable pub update_project : H (Unit {0})
  update_project = do
    cr ← get_cr
    made ← call (c.update cr.external_name cr.for_provider.description)
    got ← deref made
    if got.description == cr.for_provider.description then pure tt else pure tt

  unfoldable pub delete_cr : H (Unit {0})
  delete_cr = do
    cr ← get_cr
    done ← attempt (call (c.delete cr.external_name))
    elim done [
      | value _ ↦ pure tt
      | error e ↦ if is_not_found_error (some e) then pure tt else fail e
    ]

  abbrev pub observe : M (Env Managed W) ExternalObservation
  observe = on_kind project_kind err_not_project observe_cr

  abbrev pub create : M (Env Managed W) ExternalCreation
  create = on_kind project_kind err_not_project create_cr

  abbrev pub update : M (Env Managed W) (Unit {0})
  update = on_kind project_kind err_not_project update_project

  abbrev pub delete : M (Env Managed W) (Unit {0})
  delete = on_kind project_kind err_not_project delete_cr
