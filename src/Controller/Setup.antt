-- ===== src/Controller/Setup.antt =====
-- The Setup functions of pkg/controller, which register the controllers with the manager.
pub mod Laws
use provider_alibaba.Base.{String, Option, none, some, List, [], ◌∷◌}
use provider_alibaba.Go.{M, pure, ◌>>=◌, ◌>>◌}

-- `schema.GroupVersionKind`
pub record GroupVersionKind : Type 0 where
  pub group : String
  pub version : String
  pub kind : String

-- The types that implement `managed.ExternalConnecter`.
pub data Connecter : Type 0 where
  rds_connecter redis_connecter project_connecter store_connecter logtail_connecter
        index_connecter :
      Connecter
  machine_group_connecter machine_group_binding_connecter bucket_connecter nas_connecter
        mount_target_connecter slb_connecter :
      Connecter

-- `managed.NewReconciler` with the kind and the connecter, and `providerconfig.NewReconciler` with the
-- kinds of the configs and of the lists of their usages.
pub data Reconciler : Type 0 where
  managed_reconciler : GroupVersionKind → Connecter → Reconciler
  provider_config_reconciler : GroupVersionKind → GroupVersionKind → Reconciler

-- What a Setup function tells the builder: the name, the Go types of `For` and of `Watches`, and the
-- reconciler.
pub record Controller : Type 0 where
  pub name : String
  pub for_type : String
  pub watches : Option String
  pub reconciler : Reconciler

-- The libraries: `GroupKind.String`, the two functions `ControllerName`, and `Complete` on the builder
-- for the manager.
pub record Manager (W : Type 0) : Type 0 where
  pub group_kind : String → String → String
  pub managed_name : String → String
  pub provider_config_name : String → String
  pub complete : Controller → M W (Unit {0})

abbrev pub alibaba_group : String
alibaba_group = "alibaba.crossplane.io"

abbrev pub database_group : String
database_group = "database.alibaba.crossplane.io"

abbrev pub redis_group : String
redis_group = "redis.alibaba.crossplane.io"

abbrev pub sls_group : String
sls_group = "sls.alibaba.crossplane.io"

abbrev pub oss_group : String
oss_group = "oss.alibaba.crossplane.io"

abbrev pub nas_group : String
nas_group = "nas.alibaba.crossplane.io"

abbrev pub slb_group : String
slb_group = "slb.alibaba.crossplane.io"

-- `GroupVersion.WithKind`, for the version of all managed resources.
abbrev pub with_kind : String → String → GroupVersionKind
with_kind group kind = record { group = group; version = "v1alpha1"; kind = kind }

abbrev pub beta_kind : String → GroupVersionKind
beta_kind kind = record { group = alibaba_group; version = "v1beta1"; kind = kind }

-- `for _, setup := range … { if err := setup(mgr, l); err != nil { return err } }`
unfoldable pub run_all : {W : Type 0} → List (M W (Unit {0})) → M W (Unit {0})
run_all [] = pure tt
run_all (setup ∷ rest) = setup >> run_all rest

module _ {W : Type 0} (m : Manager W) where
  abbrev pub config_controller : Controller
  config_controller = record {
    name = m.provider_config_name (m.group_kind alibaba_group "ProviderConfig");
    for_type = "ProviderConfig";
    watches = some "ProviderConfigUsage";
    reconciler =
        provider_config_reconciler (beta_kind "ProviderConfig")
          (beta_kind "ProviderConfigUsageList");
  }

  abbrev pub rds_instance_controller : Controller
  rds_instance_controller = record {
    name = m.managed_name (m.group_kind database_group "RDSInstance");
    for_type = "RDSInstance";
    watches = none;
    reconciler = managed_reconciler (with_kind database_group "RDSInstance") rds_connecter;
  }

  abbrev pub redis_instance_controller : Controller
  redis_instance_controller = record {
    name = m.managed_name (m.group_kind redis_group "RedisInstance");
    for_type = "RedisInstance";
    watches = none;
    reconciler = managed_reconciler (with_kind redis_group "RedisInstance") redis_connecter;
  }

  abbrev pub project_controller : Controller
  project_controller = record {
    name = m.managed_name (m.group_kind sls_group "Project");
    for_type = "Project";
    watches = none;
    reconciler = managed_reconciler (with_kind sls_group "Project") project_connecter;
  }

  abbrev pub store_controller : Controller
  store_controller = record {
    name = m.managed_name (m.group_kind sls_group "LogStore");
    for_type = "LogStore";
    watches = none;
    reconciler = managed_reconciler (with_kind sls_group "LogStore") store_connecter;
  }

  abbrev pub logtail_controller : Controller
  logtail_controller = record {
    name = m.managed_name (m.group_kind sls_group "Logtail");
    for_type = "Logtail";
    watches = none;
    reconciler = managed_reconciler (with_kind sls_group "Logtail") logtail_connecter;
  }

  abbrev pub index_controller : Controller
  index_controller = record {
    name = m.managed_name (m.group_kind sls_group "LogstoreIndex");
    for_type = "LogstoreIndex";
    watches = none;
    reconciler = managed_reconciler (with_kind sls_group "LogstoreIndex") index_connecter;
  }

  -- The name is made from the kind alone, not from the group and the kind.
  abbrev pub machine_group_controller : Controller
  machine_group_controller = record {
    name = m.managed_name "MachineGroup";
    for_type = "MachineGroup";
    watches = none;
    reconciler = managed_reconciler (with_kind sls_group "MachineGroup") machine_group_connecter;
  }

  abbrev pub machine_group_binding_controller : Controller
  machine_group_binding_controller = record {
    name = m.managed_name (m.group_kind sls_group "MachineGroupBinding");
    for_type = "MachineGroupBinding";
    watches = none;
    reconciler =
        managed_reconciler (with_kind sls_group "MachineGroupBinding")
          machine_group_binding_connecter;
  }

  abbrev pub bucket_controller : Controller
  bucket_controller = record {
    name = m.managed_name (m.group_kind oss_group "Bucket");
    for_type = "Bucket";
    watches = none;
    reconciler = managed_reconciler (with_kind oss_group "Bucket") bucket_connecter;
  }

  abbrev pub nas_file_system_controller : Controller
  nas_file_system_controller = record {
    name = m.managed_name (m.group_kind nas_group "NASFileSystem");
    for_type = "NASFileSystem";
    watches = none;
    reconciler = managed_reconciler (with_kind nas_group "NASFileSystem") nas_connecter;
  }

  abbrev pub nas_mount_target_controller : Controller
  nas_mount_target_controller = record {
    name = m.managed_name (m.group_kind nas_group "NASMountTarget");
    for_type = "NASMountTarget";
    watches = none;
    reconciler = managed_reconciler (with_kind nas_group "NASMountTarget") mount_target_connecter;
  }

  abbrev pub clb_controller : Controller
  clb_controller = record {
    name = m.managed_name (m.group_kind slb_group "CLB");
    for_type = "CLB";
    watches = none;
    reconciler = managed_reconciler (with_kind slb_group "CLB") slb_connecter;
  }

  -- `Setup` of pkg/controller: the thirteen functions in the order of its list.
  unfoldable pub setup : M W (Unit {0})
  unfolding run_all
  setup = run_all (
      m.complete config_controller
      ∷ m.complete rds_instance_controller
      ∷ m.complete redis_instance_controller
      ∷ m.complete project_controller
      ∷ m.complete store_controller
      ∷ m.complete logtail_controller
      ∷ m.complete index_controller
      ∷ m.complete machine_group_controller
      ∷ m.complete machine_group_binding_controller
      ∷ m.complete bucket_controller
      ∷ m.complete nas_file_system_controller
      ∷ m.complete nas_mount_target_controller
      ∷ m.complete clb_controller
      ∷ [])
