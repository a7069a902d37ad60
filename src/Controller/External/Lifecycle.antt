-- ===== src/Controller/External/Lifecycle.antt =====
-- Any history of a managed resource of any kind under any controller of pkg/controller: the four methods
-- in any order, and between them whatever else happens to the world.
use provider_alibaba.Base.{String, ◌≡◌, refl, arith, Option, none, some}
use provider_alibaba.Go.{M, Env}
use provider_alibaba.Crossplane.{Resource}
use provider_alibaba.Crossplane.Frame.{SameSpec}
use provider_alibaba.Crossplane.Handler.{on_kind}
use provider_alibaba.Apis.{Managed, Kind}
use provider_alibaba.Apis.Frame.{
  SameManaged, SameManaged-refl, SameManaged-trans, Fits, rds_kind-Fits, redis_kind-Fits,
  bucket_kind-Fits, nas_file_system_kind-Fits, nas_mount_target_kind-Fits, clb_kind-Fits,
  project_kind-Fits, log_store_kind-Fits, logtail_kind-Fits, logstore_index_kind-Fits,
  machine_group_kind-Fits, machine_group_binding_kind-Fits,
}
use provider_alibaba.Controller
use provider_alibaba.Controller.Sls.Connect.{
  project_external, store_external, logtail_external, index_external, machine_group_external,
  machine_group_binding_external,
}
use provider_alibaba.Controller.Sls.Connect as SlsConnect
use provider_alibaba.Controller.External.{
  External, rds_external, redis_external, oss_external, nas_external, mount_target_external,
  slb_external, sls_external, observe, create, update, delete,
}

module _ {P O W A : Type 0} where
  on_kind-SameManaged_of :
      (k : Kind (Resource P O)) (f : Fits k) (msg : String) (body : M (Env (Resource P O) W) A)
      → ((s : Env (Resource P O) W) → SameSpec s.cr (body s).1.cr)
      → (s : Env Managed W) (o : Option (Resource P O)) → k.of_managed s.cr ≡ o
      → SameManaged s.cr (on_kind k msg body s).1.cr
  on_kind-SameManaged_of k f msg body kept s none h = grind (arith, SameManaged-refl)
  on_kind-SameManaged_of k f msg body kept s (some cr) h =
      rw (h, on_kind) (f.same s.cr h (kept (record { cr = cr; world = s.world })))

  on_kind-SameManaged :
      (k : Kind (Resource P O)) (f : Fits k) (msg : String) (body : M (Env (Resource P O) W) A)
      → ((s : Env (Resource P O) W) → SameSpec s.cr (body s).1.cr)
      → (s : Env Managed W) → SameManaged s.cr (on_kind k msg body s).1.cr
  on_kind-SameManaged k f msg body kept s =
      on_kind-SameManaged_of k f msg body kept s (k.of_managed s.cr) refl

module _ {W : Type 0} where
  sls_observe-SameManaged :
      (e : SlsConnect.External W) (s : Env Managed W)
      → SameManaged s.cr (SlsConnect.observe e s).1.cr
  unfolding SlsConnect.observe
  sls_observe-SameManaged (project_external c) s =
      on_kind-SameManaged _ project_kind-Fits _ (Controller.Sls.Project.observe_cr c)
        (Controller.Sls.Frame.observe_project-SameSpec c) s
  sls_observe-SameManaged (store_external c) s =
      on_kind-SameManaged _ log_store_kind-Fits _ (Controller.Sls.Store.observe_cr c)
        (Controller.Sls.Frame.observe_store-SameSpec c) s
  sls_observe-SameManaged (logtail_external c) s =
      on_kind-SameManaged _ logtail_kind-Fits _ (Controller.Sls.Logtail.observe_cr c)
        (Controller.Sls.Frame.observe_logtail-SameSpec c) s
  sls_observe-SameManaged (index_external c) s =
      on_kind-SameManaged _ logstore_index_kind-Fits _ (Controller.Sls.Index.observe_cr c)
        (Controller.Sls.Frame.observe_index-SameSpec c) s
  sls_observe-SameManaged (machine_group_external c) s =
      on_kind-SameManaged _ machine_group_kind-Fits _ (Controller.Sls.MachineGroup.observe_cr c)
        (Controller.Sls.Frame.observe_group-SameSpec c) s
  sls_observe-SameManaged (machine_group_binding_external c) s =
      on_kind-SameManaged _ machine_group_binding_kind-Fits _
        (Controller.Sls.MachineGroupBinding.observe_cr c)
        (Controller.Sls.Frame.observe_binding-SameSpec c) s

  sls_create-SameManaged :
      (e : SlsConnect.External W) (s : Env Managed W)
      → SameManaged s.cr (SlsConnect.create e s).1.cr
  unfolding SlsConnect.create
  sls_create-SameManaged (project_external c) s =
      on_kind-SameManaged _ project_kind-Fits _ (Controller.Sls.Project.create_cr c)
        (Controller.Sls.Frame.create_project-SameSpec c) s
  sls_create-SameManaged (store_external c) s =
      on_kind-SameManaged _ log_store_kind-Fits _ (Controller.Sls.Store.create_cr c)
        (Controller.Sls.Frame.create_store-SameSpec c) s
  sls_create-SameManaged (logtail_external c) s =
      on_kind-SameManaged _ logtail_kind-Fits _ (Controller.Sls.Logtail.create_cr c)
        (Controller.Sls.Frame.create_logtail-SameSpec c) s
  sls_create-SameManaged (index_external c) s =
      on_kind-SameManaged _ logstore_index_kind-Fits _ (Controller.Sls.Index.create_cr c)
        (Controller.Sls.Frame.create_index-SameSpec c) s
  sls_create-SameManaged (machine_group_external c) s =
      on_kind-SameManaged _ machine_group_kind-Fits _ (Controller.Sls.MachineGroup.create_cr c)
        (Controller.Sls.Frame.create_group-SameSpec c) s
  sls_create-SameManaged (machine_group_binding_external c) s =
      on_kind-SameManaged _ machine_group_binding_kind-Fits _
        (Controller.Sls.MachineGroupBinding.create_cr c)
        (Controller.Sls.Frame.create_binding-SameSpec c) s

  sls_update-SameManaged :
      (e : SlsConnect.External W) (s : Env Managed W)
      → SameManaged s.cr (SlsConnect.update e s).1.cr
  unfolding SlsConnect.update
  sls_update-SameManaged (project_external c) s =
      on_kind-SameManaged _ project_kind-Fits _ (Controller.Sls.Project.update_project c)
        (Controller.Sls.Frame.update_project-SameSpec c) s
  sls_update-SameManaged (store_external c) s =
      on_kind-SameManaged _ log_store_kind-Fits _ (Controller.Sls.Store.update_store c)
        (Controller.Sls.Frame.update_store-SameSpec c) s
  sls_update-SameManaged (logtail_external c) s = SameManaged-refl s.cr
  sls_update-SameManaged (index_external c) s = SameManaged-refl s.cr
  sls_update-SameManaged (machine_group_external c) s = SameManaged-refl s.cr
  sls_update-SameManaged (machine_group_binding_external c) s = SameManaged-refl s.cr

  sls_delete-SameManaged :
      (e : SlsConnect.External W) (s : Env Managed W)
      → SameManaged s.cr (SlsConnect.delete e s).1.cr
  unfolding SlsConnect.delete
  sls_delete-SameManaged (project_external c) s =
      on_kind-SameManaged _ project_kind-Fits _ (Controller.Sls.Project.delete_cr c)
        (Controller.Sls.Frame.delete_project-SameSpec c) s
  sls_delete-SameManaged (store_external c) s =
      on_kind-SameManaged _ log_store_kind-Fits _ (Controller.Sls.Store.delete_cr c)
        (Controller.Sls.Frame.delete_store-SameSpec c) s
  sls_delete-SameManaged (logtail_external c) s =
      on_kind-SameManaged _ logtail_kind-Fits _ (Controller.Sls.Logtail.delete_cr c)
        (Controller.Sls.Frame.delete_logtail-SameSpec c) s
  sls_delete-SameManaged (index_external c) s =
      on_kind-SameManaged _ logstore_index_kind-Fits _ (Controller.Sls.Index.delete_cr c)
        (Controller.Sls.Frame.delete_index-SameSpec c) s
  sls_delete-SameManaged (machine_group_external c) s =
      on_kind-SameManaged _ machine_group_kind-Fits _ (Controller.Sls.MachineGroup.delete_cr c)
        (Controller.Sls.Frame.delete_group-SameSpec c) s
  sls_delete-SameManaged (machine_group_binding_external c) s =
      on_kind-SameManaged _ machine_group_binding_kind-Fits _
        (Controller.Sls.MachineGroupBinding.delete_cr c)
        (Controller.Sls.Frame.delete_binding-SameSpec c) s

  observe-SameManaged : (e : External W) (s : Env Managed W) → SameManaged s.cr (observe e s).1.cr
  unfolding observe
  observe-SameManaged (rds_external c R) s =
      on_kind-SameManaged _ rds_kind-Fits _ (Controller.Database.observe_cr c R)
        (Controller.Database.Frame.observe_cr-SameSpec c R) s
  observe-SameManaged (redis_external c R) s =
      on_kind-SameManaged _ redis_kind-Fits _ (Controller.Redis.observe_cr c R)
        (Controller.Redis.Frame.observe_cr-SameSpec c R) s
  observe-SameManaged (oss_external c) s =
      on_kind-SameManaged _ bucket_kind-Fits _ (Controller.Oss.observe_cr c)
        (Controller.Oss.Frame.observe_cr-SameSpec c) s
  observe-SameManaged (nas_external c) s =
      on_kind-SameManaged _ nas_file_system_kind-Fits _ (Controller.Nas.observe_cr c)
        (Controller.Nas.Frame.observe_cr-SameSpec c) s
  observe-SameManaged (mount_target_external c) s =
      on_kind-SameManaged _ nas_mount_target_kind-Fits _ (Controller.Nas.MountTarget.observe_cr c)
        (Controller.Nas.Frame.observe_target-SameSpec c) s
  observe-SameManaged (slb_external c) s =
      on_kind-SameManaged _ clb_kind-Fits _ (Controller.Slb.observe_cr c)
        (Controller.Slb.Frame.observe_cr-SameSpec c) s
  observe-SameManaged (sls_external e) s = sls_observe-SameManaged e s

  create-SameManaged : (e : External W) (s : Env Managed W) → SameManaged s.cr (create e s).1.cr
  unfolding create
  create-SameManaged (rds_external c R) s =
      on_kind-SameManaged _ rds_kind-Fits _ (Controller.Database.create_cr c R)
        (Controller.Database.Frame.create_cr-SameSpec c R) s
  create-SameManaged (redis_external c R) s =
      on_kind-SameManaged _ redis_kind-Fits _ (Controller.Redis.create_cr c R)
        (Controller.Redis.Frame.create_cr-SameSpec c R) s
  create-SameManaged (oss_external c) s =
      on_kind-SameManaged _ bucket_kind-Fits _ (Controller.Oss.create_cr c)
        (Controller.Oss.Frame.create_cr-SameSpec c) s
  create-SameManaged (nas_external c) s =
      on_kind-SameManaged _ nas_file_system_kind-Fits _ (Controller.Nas.create_cr c)
        (Controller.Nas.Frame.create_cr-SameSpec c) s
  create-SameManaged (mount_target_external c) s =
      on_kind-SameManaged _ nas_mount_target_kind-Fits _ (Controller.Nas.MountTarget.create_cr c)
        (Controller.Nas.Frame.create_target-SameSpec c) s
  create-SameManaged (slb_external c) s =
      on_kind-SameManaged _ clb_kind-Fits _ (Controller.Slb.create_cr c)
        (Controller.Slb.Frame.create_cr-SameSpec c) s
  create-SameManaged (sls_external e) s = sls_create-SameManaged e s

  update-SameManaged : (e : External W) (s : Env Managed W) → SameManaged s.cr (update e s).1.cr
  unfolding update
  update-SameManaged (rds_external c R) s = SameManaged-refl s.cr
  update-SameManaged (redis_external c R) s =
      on_kind-SameManaged _ redis_kind-Fits _ (Controller.Redis.update_instance c R)
        (Controller.Redis.Frame.update_instance-SameSpec c R) s
  update-SameManaged (oss_external c) s =
      on_kind-SameManaged _ bucket_kind-Fits _ (Controller.Oss.update_bucket c)
        (Controller.Oss.Frame.update_bucket-SameSpec c) s
  update-SameManaged (nas_external c) s = SameManaged-refl s.cr
  update-SameManaged (mount_target_external c) s = SameManaged-refl s.cr
  update-SameManaged (slb_external c) s = SameManaged-refl s.cr
  update-SameManaged (sls_external e) s = sls_update-SameManaged e s

  delete-SameManaged : (e : External W) (s : Env Managed W) → SameManaged s.cr (delete e s).1.cr
  unfolding delete
  delete-SameManaged (rds_external c R) s =
      on_kind-SameManaged _ rds_kind-Fits _ (Controller.Database.delete_cr c R)
        (Controller.Database.Frame.delete_cr-SameSpec c R) s
  delete-SameManaged (redis_external c R) s =
      on_kind-SameManaged _ redis_kind-Fits _ (Controller.Redis.delete_cr c R)
        (Controller.Redis.Frame.delete_cr-SameSpec c R) s
  delete-SameManaged (oss_external c) s =
      on_kind-SameManaged _ bucket_kind-Fits _ (Controller.Oss.delete_cr c)
        (Controller.Oss.Frame.delete_cr-SameSpec c) s
  delete-SameManaged (nas_external c) s =
      on_kind-SameManaged _ nas_file_system_kind-Fits _ (Controller.Nas.delete_cr c)
        (Controller.Nas.Frame.delete_cr-SameSpec c) s
  delete-SameManaged (mount_target_external c) s =
      on_kind-SameManaged _ nas_mount_target_kind-Fits _ (Controller.Nas.MountTarget.delete_cr c)
        (Controller.Nas.Frame.delete_target-SameSpec c) s
  delete-SameManaged (slb_external c) s =
      on_kind-SameManaged _ clb_kind-Fits _ (Controller.Slb.delete_cr c)
        (Controller.Slb.Frame.delete_cr-SameSpec c) s
  delete-SameManaged (sls_external e) s = sls_delete-SameManaged e s

  -- One call of a method of any controller, with any client, or anything else that happens to the world.
  pub data Step : Env Managed W → Env Managed W → Type 0 where
    observes : (e : External W) (s : Env Managed W) → Step s (observe e s).1
    creates : (e : External W) (s : Env Managed W) → Step s (create e s).1
    updates : (e : External W) (s : Env Managed W) → Step s (update e s).1
    deletes : (e : External W) (s : Env Managed W) → Step s (delete e s).1
    drifts : (s : Env Managed W) (w : W) → Step s (record s { world = w })

  pub data Reach (s : Env Managed W) : Env Managed W → Type 0 where
    here : Reach s s
    next : {t u : Env Managed W} → Reach s t → Step t u → Reach s u

  Step-SameManaged : {s t : Env Managed W} → Step s t → SameManaged s.cr t.cr
  Step-SameManaged (observes e s) = observe-SameManaged e s
  Step-SameManaged (creates e s) = create-SameManaged e s
  Step-SameManaged (updates e s) = update-SameManaged e s
  Step-SameManaged (deletes e s) = delete-SameManaged e s
  Step-SameManaged (drifts s w) = SameManaged-refl s.cr

  -- In every sequence of the four methods of any controllers, with any clients, on one managed
  -- resource of any kind, and of changes of the world, the resource keeps its kind, and its
  -- metadata and desired state stay as the user wrote them.
  pub Reach-SameManaged : {s t : Env Managed W} → Reach s t → SameManaged s.cr t.cr
  Reach-SameManaged {s = s} here = SameManaged-refl s.cr
  Reach-SameManaged (next r st) =
      SameManaged-trans _ _ _ (Reach-SameManaged r) (Step-SameManaged st)
