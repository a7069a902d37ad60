-- ===== src/Controller/External.antt =====
-- The implementations of `managed.ExternalClient` in pkg/controller, of which `Connect` hands one to the
-- reconciler of crossplane-runtime: the types `external` and their likes, and their four methods.
pub mod Lifecycle
pub mod ReadOnly
use provider_alibaba.Go.{M, Env}
use provider_alibaba.Crossplane.{Runtime, ExternalObservation, ExternalCreation}
use provider_alibaba.Apis.{Managed}
use provider_alibaba.Clients
use provider_alibaba.Controller
use provider_alibaba.Controller.Sls.Connect

pub data External (W : Type 0) : Type 0 where
  rds_external : Clients.Rds.Client W → Runtime W → External W
  redis_external : Clients.Redis.Client W → Runtime W → External W
  oss_external : Clients.Oss.Client W → External W
  nas_external : Clients.Nas.Client W → External W
  mount_target_external : Clients.Nas.Client W → External W
  slb_external : Clients.Slb.Client W → External W
  sls_external : Connect.External W → External W

-- The call of each method through the interface.
module _ {W : Type 0} where
  unfoldable pub observe : External W → M (Env Managed W) ExternalObservation
  observe (rds_external c R) = Controller.Database.observe c R
  observe (redis_external c R) = Controller.Redis.observe c R
  observe (oss_external c) = Controller.Oss.observe c
  observe (nas_external c) = Controller.Nas.observe c
  observe (mount_target_external c) = Controller.Nas.MountTarget.observe c
  observe (slb_external c) = Controller.Slb.observe c
  observe (sls_external e) = Connect.observe e

  unfoldable pub create : External W → M (Env Managed W) ExternalCreation
  create (rds_external c R) = Controller.Database.create c R
  create (redis_external c R) = Controller.Redis.create c R
  create (oss_external c) = Controller.Oss.create c
  create (nas_external c) = Controller.Nas.create c
  create (mount_target_external c) = Controller.Nas.MountTarget.create c
  create (slb_external c) = Controller.Slb.create c
  create (sls_external e) = Connect.create e

  unfoldable pub update : External W → M (Env Managed W) (Unit {0})
  update (rds_external c R) = Controller.Database.update c R
  update (redis_external c R) = Controller.Redis.update c R
  update (oss_external c) = Controller.Oss.update c
  update (nas_external c) = Controller.Nas.update c
  update (mount_target_external c) = Controller.Nas.MountTarget.update c
  update (slb_external c) = Controller.Slb.update c
  update (sls_external e) = Connect.update e

  unfoldable pub delete : External W → M (Env Managed W) (Unit {0})
  delete (rds_external c R) = Controller.Database.delete c R
  delete (redis_external c R) = Controller.Redis.delete c R
  delete (oss_external c) = Controller.Oss.delete c
  delete (nas_external c) = Controller.Nas.delete c
  delete (mount_target_external c) = Controller.Nas.MountTarget.delete c
  delete (slb_external c) = Controller.Slb.delete c
  delete (sls_external e) = Connect.delete e
