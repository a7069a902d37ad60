-- ===== src/Tests/Sls.antt =====
-- The SLS theorems at concrete resources and services.
mod Resources
mod Observed
mod Projects
use provider_alibaba.Base.{ℕ, false, ◌≡◌, ◌≢◌, refl, arith, eq_iff}
use provider_alibaba.Go.{ok}
use provider_alibaba.Crossplane.{no_observation}
use provider_alibaba.Apis.{log_store}
use provider_alibaba.Apis
use provider_alibaba.Clients.Sls.Sdk
use provider_alibaba.Controller.Sls.{Connector}
use provider_alibaba.Controller.Sls.Project
use provider_alibaba.Controller.Sls.Store
use provider_alibaba.Controller.Sls.Index
use provider_alibaba.Controller.Sls.MachineGroupBinding
use provider_alibaba.Controller.Sls.Laws.{
  observe_cr-not_exist, observe_cr-index_up_to_date, present,
}
use provider_alibaba.Controller.Sls.Connect.{store_external, connect_store}
use provider_alibaba.Controller.Sls.Connect.Laws.{IsOwn, connect_project-never}
use provider_alibaba.Tests.Fixtures.{kube, kube-JoinsGroupKind}
use Resources.{sdk, service, start, store, index, no_keys, index_service}

observe_cr-not_exist_example :
    Project.observe_cr service start ≡ (ok no_observation, record start { world = 1 })
observe_cr-not_exist_example = observe_cr-not_exist sdk false start {w = 1} refl

observe_cr-index_up_to_date_example :
    (Index.observe_cr index_service (record { cr = index; world = 0 })).0 ≡ ok present
observe_cr-index_up_to_date_example =
    observe_cr-index_up_to_date index_service (record { cr = index; world = 0 }) {index = no_keys}
      {w = 1} (ground (arith, eq_iff "index" "")) refl

abbrev connector : Connector ℕ
connector = record { kube = kube; new_client_fn = λ key secret token endpoint. service }

connect_project-never_example :
    (connect_store connector (log_store store) 0).0 ≢ ok (store_external service)
connect_project-never_example =
    connect_project-never connector kube-JoinsGroupKind (IsOwn.of_log_store store refl) 0
      (store_external service)
