-- ===== src/Controller/External/ReadOnly.antt =====
-- The `Observe` methods of pkg/controller that only describe: all but those of the instances, which also
-- make connections and accounts.
use provider_alibaba.Base.{String, ◌≡◌, refl, arith, Option, none, some, List, [], ◌∷◌}
use provider_alibaba.Go.{M, Env}
use provider_alibaba.Crossplane.{Resource}
use provider_alibaba.Crossplane.Handler.{on_kind}
use provider_alibaba.Apis
use provider_alibaba.Apis.{Managed, Kind}
use provider_alibaba.Apis.Nas.{NasFileSystem, NasMountTarget}
use provider_alibaba.Apis.Oss.{Bucket}
use provider_alibaba.Apis.Slb.{Clb}
use provider_alibaba.Clients
use provider_alibaba.Clients.Nas.{
  generate_observation, is_update_to_date, is_not_found_error, is_mount_target_not_found_error,
}
use provider_alibaba.Clients.Slb as SlbClient
use provider_alibaba.Controller
use provider_alibaba.Controller.Nas.Frame.{target_check-reads}
use provider_alibaba.Controller.Slb.Frame.{check-reads}
use provider_alibaba.Controller.Sls.Frame.{logtail_check-reads, group_check-reads}
use provider_alibaba.Controller.Sls.Connect.{
  project_external, store_external, logtail_external, index_external, machine_group_external,
  machine_group_binding_external,
}
use provider_alibaba.Controller.Sls.Connect as SlsConnect
use provider_alibaba.Controller.External.{
  External, oss_external, nas_external, mount_target_external, slb_external, sls_external, observe,
}

module _ {P O W A V : Type 0} (view : W → V) where
  on_kind-reads_of :
      (k : Kind (Resource P O)) (msg : String) (body : M (Env (Resource P O) W) A)
      → ((s : Env (Resource P O) W) → view (body s).1.world ≡ view s.world)
      → (s : Env Managed W) (o : Option (Resource P O)) → k.of_managed s.cr ≡ o
      → view (on_kind k msg body s).1.world ≡ view s.world
  on_kind-reads_of k msg body kept s none h = ground arith
  on_kind-reads_of k msg body kept s (some cr) h =
      rw (h, on_kind) (kept (record { cr = cr; world = s.world }))

  on_kind-reads :
      (k : Kind (Resource P O)) (msg : String) (body : M (Env (Resource P O) W) A)
      → ((s : Env (Resource P O) W) → view (body s).1.world ≡ view s.world)
      → (s : Env Managed W) → view (on_kind k msg body s).1.world ≡ view s.world
  on_kind-reads k msg body kept s = on_kind-reads_of k msg body kept s (k.of_managed s.cr) refl

module _ {W V : Type 0} (view : W → V) where
  -- The describing request of the client leaves the view as it is.
  pub data ReadOnly : External W → Type 0 where
    oss_reads :
        (c : Clients.Oss.Client W)
        → ((n : String) (u : W) → view (c.describe n u).1 ≡ view u)
        → ReadOnly (oss_external c)
    nas_reads :
        (c : Clients.Nas.Client W)
        → ((i t v : Option String) (u : W) → view (c.describe_file_systems i t v u).1 ≡ view u)
        → ReadOnly (nas_external c)
    mount_target_reads :
        (c : Clients.Nas.Client W)
        → ((i d : Option String) (u : W) → view (c.describe_mount_targets i d u).1 ≡ view u)
        → ReadOnly (mount_target_external c)
    slb_reads :
        (c : Clients.Slb.Client W)
        → ((r i v w : Option String) (u : W)
            → view (c.describe_load_balancers r i v w u).1 ≡ view u)
        → ReadOnly (slb_external c)
    project_reads :
        (c : Clients.Sls.Client W)
        → ((n : String) (u : W) → view (c.describe n u).1 ≡ view u)
        → ReadOnly (sls_external (project_external c))
    store_reads :
        (c : Clients.Sls.Client W)
        → ((p n : String) (u : W) → view (c.describe_store p n u).1 ≡ view u)
        → ReadOnly (sls_external (store_external c))
    logtail_reads :
        (c : Clients.Sls.Client W)
        → ((p n : String) (u : W) → view (c.describe_config p n u).1 ≡ view u)
        → ReadOnly (sls_external (logtail_external c))
    index_reads :
        (c : Clients.Sls.Client W)
        → ((p l : Option String) (u : W) → view (c.describe_index p l u).1 ≡ view u)
        → ReadOnly (sls_external (index_external c))
    machine_group_reads :
        (c : Clients.Sls.Client W)
        → ((p : Option String) (n : String) (u : W)
            → view (c.describe_machine_group p n u).1 ≡ view u)
        → ReadOnly (sls_external (machine_group_external c))
    binding_reads :
        (c : Clients.Sls.Client W)
        → ((p g : Option String) (u : W) → view (c.get_applied_configs p g u).1 ≡ view u)
        → ReadOnly (sls_external (machine_group_binding_external c))

  observe_oss-reads :
      (c : Clients.Oss.Client W)
      → ((n : String) (u : W) → view (c.describe n u).1 ≡ view u)
      → (s : Env Bucket W) → view (Controller.Oss.observe_cr c s).1.world ≡ view s.world
  unfolding Controller.Oss.observe_cr Controller.Oss.observe_described
  observe_oss-reads c h s = grind (arith, h)

  observe_nas-reads :
      (c : Clients.Nas.Client W)
      → ((i t v : Option String) (u : W) → view (c.describe_file_systems i t v u).1 ≡ view u)
      → (s : Env NasFileSystem W) → view (Controller.Nas.observe_cr c s).1.world ≡ view s.world
  unfolding Controller.Nas.observe_cr Controller.Nas.observe_described generate_observation
      is_update_to_date is_not_found_error
  observe_nas-reads c h s = grind (arith, h)

  observe_mount_target-reads :
      (c : Clients.Nas.Client W)
      → ((i d : Option String) (u : W) → view (c.describe_mount_targets i d u).1 ≡ view u)
      → (s : Env NasMountTarget W)
      → view (Controller.Nas.MountTarget.observe_cr c s).1.world ≡ view s.world
  unfolding Controller.Nas.MountTarget.observe_cr Controller.Nas.MountTarget.observe_described
      is_mount_target_not_found_error
  observe_mount_target-reads c h s = grind (arith, h, target_check-reads {S = Env NasMountTarget W})

  observe_slb-reads :
      (c : Clients.Slb.Client W)
      → ((r i v w : Option String) (u : W) → view (c.describe_load_balancers r i v w u).1 ≡ view u)
      → (s : Env Clb W) → view (Controller.Slb.observe_cr c s).1.world ≡ view s.world
  unfolding Controller.Slb.observe_cr Controller.Slb.observe_described
      SlbClient.generate_observation Controller.Slb.get_connection_details
  observe_slb-reads c h s = grind (arith, h, check-reads {S = Env Clb W})

  observe_project-reads :
      (c : Clients.Sls.Client W)
      → ((n : String) (u : W) → view (c.describe n u).1 ≡ view u)
      → (s : Env Apis.Sls.Project W)
      → view (Controller.Sls.Project.observe_cr c s).1.world ≡ view s.world
  unfolding Controller.Sls.Project.observe_cr Controller.Sls.Project.observe_described
  observe_project-reads c h s = grind (arith, h)

  observe_store-reads :
      (c : Clients.Sls.Client W)
      → ((p n : String) (u : W) → view (c.describe_store p n u).1 ≡ view u)
      → (s : Env Apis.Sls.LogStore W)
      → view (Controller.Sls.Store.observe_cr c s).1.world ≡ view s.world
  unfolding Controller.Sls.Store.observe_cr Controller.Sls.Store.observe_described
  observe_store-reads c h s = grind (arith, h)

  observe_logtail-reads :
      (c : Clients.Sls.Client W)
      → ((p n : String) (u : W) → view (c.describe_config p n u).1 ≡ view u)
      → (s : Env Apis.Sls.Logtail W)
      → view (Controller.Sls.Logtail.observe_cr c s).1.world ≡ view s.world
  unfolding Controller.Sls.Logtail.observe_cr Controller.Sls.Logtail.observe_described
  observe_logtail-reads c h s = grind (arith, h, logtail_check-reads {S = Env Apis.Sls.Logtail W})

  observe_index-reads :
      (c : Clients.Sls.Client W)
      → ((p l : Option String) (u : W) → view (c.describe_index p l u).1 ≡ view u)
      → (s : Env Apis.Sls.LogstoreIndex W)
      → view (Controller.Sls.Index.observe_cr c s).1.world ≡ view s.world
  unfolding Controller.Sls.Index.observe_cr Controller.Sls.Index.observe_described
  observe_index-reads c h s = grind (arith, h)

  observe_machine_group-reads :
      (c : Clients.Sls.Client W)
      → ((p : Option String) (n : String) (u : W)
          → view (c.describe_machine_group p n u).1 ≡ view u)
      → (s : Env Apis.Sls.MachineGroup W)
      → view (Controller.Sls.MachineGroup.observe_cr c s).1.world ≡ view s.world
  unfolding Controller.Sls.MachineGroup.observe_cr Controller.Sls.MachineGroup.observe_described
  observe_machine_group-reads c h s =
      grind (arith, h, group_check-reads {S = Env Apis.Sls.MachineGroup W})

  configs-reads :
      (c : Clients.Sls.Client W) (l : List String) (s : Env Apis.Sls.MachineGroupBinding W)
      → (Controller.Sls.MachineGroupBinding.observe_configs c l s).1.world ≡ s.world
  unfolding Controller.Sls.MachineGroupBinding.observe_configs
  configs-reads c [] s = refl
  configs-reads c (f ∷ fs) s = refl

  observe_binding-reads :
      (c : Clients.Sls.Client W)
      → ((p g : Option String) (u : W) → view (c.get_applied_configs p g u).1 ≡ view u)
      → (s : Env Apis.Sls.MachineGroupBinding W)
      → view (Controller.Sls.MachineGroupBinding.observe_cr c s).1.world ≡ view s.world
  unfolding Controller.Sls.MachineGroupBinding.observe_cr
  observe_binding-reads c h s = grind (arith, h, configs-reads)

  -- For the external client of any kind but the two kinds of instances, and any view of the world
  -- that its describing request leaves as it is: `Observe` of any managed resource, also of another
  -- kind, leaves this view as it is.
  pub observe-reads :
      {e : External W}
      → ReadOnly e
      → (s : Env Managed W) → view (observe e s).1.world ≡ view s.world
  unfolding observe SlsConnect.observe
  observe-reads (oss_reads c h) s =
      on_kind-reads view Apis.bucket_kind _ (Controller.Oss.observe_cr c) (observe_oss-reads c h) s
  observe-reads (nas_reads c h) s =
      on_kind-reads view Apis.nas_file_system_kind _ (Controller.Nas.observe_cr c)
        (observe_nas-reads c h) s
  observe-reads (mount_target_reads c h) s =
      on_kind-reads view Apis.nas_mount_target_kind _ (Controller.Nas.MountTarget.observe_cr c)
        (observe_mount_target-reads c h) s
  observe-reads (slb_reads c h) s =
      on_kind-reads view Apis.clb_kind _ (Controller.Slb.observe_cr c) (observe_slb-reads c h) s
  observe-reads (project_reads c h) s =
      on_kind-reads view Apis.project_kind _ (Controller.Sls.Project.observe_cr c)
        (observe_project-reads c h) s
  observe-reads (store_reads c h) s =
      on_kind-reads view Apis.log_store_kind _ (Controller.Sls.Store.observe_cr c)
        (observe_store-reads c h) s
  observe-reads (logtail_reads c h) s =
      on_kind-reads view Apis.logtail_kind _ (Controller.Sls.Logtail.observe_cr c)
        (observe_logtail-reads c h) s
  observe-reads (index_reads c h) s =
      on_kind-reads view Apis.logstore_index_kind _ (Controller.Sls.Index.observe_cr c)
        (observe_index-reads c h) s
  observe-reads (machine_group_reads c h) s =
      on_kind-reads view Apis.machine_group_kind _ (Controller.Sls.MachineGroup.observe_cr c)
        (observe_machine_group-reads c h) s
  observe-reads (binding_reads c h) s =
      on_kind-reads view Apis.machine_group_binding_kind _
        (Controller.Sls.MachineGroupBinding.observe_cr c) (observe_binding-reads c h) s
