-- ===== src/Controller/Sls/Laws.antt =====
-- Theorems on the handlers of pkg/controller/sls.
use provider_alibaba.Base.{
  Bool, true, false, String, if◌then◌else◌, ◌≡◌, ◌≢◌, arith, refl, Option, none, some, List, [],
  ◌∷◌, eq_iff, not, length, eqb_ℕ, Bool-cases,
}
use provider_alibaba.Go.{Env, Err, ok, err, message, log_error, log_error_pointer, wrap, cause}
use provider_alibaba.Crossplane.{ExternalObservation, no_observation}
use provider_alibaba.Apis
use provider_alibaba.Clients.Sls.{Client, client}
use provider_alibaba.Clients.Sls.Sdk.{SdkClient, LogStore}
use provider_alibaba.Clients.Sls.Sdk
use provider_alibaba.Clients.Sls.Project.{is_not_found_error, describe}
use provider_alibaba.Clients.Sls.Index.{is_index_update_to_date}
use provider_alibaba.Controller.Sls.Project
use provider_alibaba.Controller.Sls.Store
use provider_alibaba.Controller.Sls.Index
use provider_alibaba.Controller.Sls.MachineGroupBinding

-- The answer of the SDK for an unknown project, as a pointer to an `sdk.Error` or as a value.
abbrev pub not_exist : Bool → Err
not_exist true = log_error_pointer "ProjectNotExist"
not_exist false = log_error "ProjectNotExist"

module _ {W : Type 0} (c : SdkClient W) where
  -- Where the SDK answers that an SLS project does not exist, `Observe` reports it as absent if the
  -- error is a value, and fails if it is a pointer to one; the resource stays as it was.
  pub observe_cr-not_exist :
      (pointer : Bool) (s : Env Apis.Sls.Project W) {w : W}
      → c.get_project s.cr.external_name s.world ≡ (err (not_exist pointer), w)
      → Project.observe_cr (client c) s ≡ (
        (if pointer
            then err (wrap "FailedToGetSLSProject" (not_exist true))
            else ok no_observation),
        record s { world = w },
      )
  unfolding Project.observe_cr describe is_not_found_error cause
  observe_cr-not_exist true s h = ground arith
  observe_cr-not_exist false s h = ground arith

abbrev pub with_config : Option String → Apis.Sls.MachineGroupBinding → Apis.Sls.MachineGroupBinding
with_config name cr = record cr { for_provider = record cr.for_provider { config_name = name } }

-- The observation of a resource that exists and is up to date, with nothing to connect with.
abbrev pub present : ExternalObservation
present = record { resource_exists = true; resource_up_to_date = true; connection_details = [] }

module _ {W : Type 0} (c : Client W) where
  -- `Create` of a log store that shall split itself and has no limit on its shards is refused,
  -- makes no request and changes nothing.
  pub create_cr-without_limit :
      (s : Env Apis.Sls.LogStore W)
      → s.cr.for_provider.auto_split ≡ some true
      → s.cr.for_provider.max_split_shard ≡ none
      → Store.create_cr c s ≡ (err (message Store.err_max_split_shard_must_be_set), s)
  unfolding Store.create_cr Store.make_store
  create_cr-without_limit s split limit = ground arith

  -- `Observe` of an index that the service gives always reports it as up to date, whatever its keys are.
  pub observe_cr-index_up_to_date :
      (s : Env Apis.Sls.LogstoreIndex W) {index : Sdk.Index} {w : W}
      → s.cr.external_name ≢ ""
      → c.describe_index s.cr.for_provider.project_name s.cr.for_provider.logstore_name s.world
        ≡ (ok (some index), w)
      → (Index.observe_cr c s).0 ≡ ok present
  unfolding Index.observe_cr Index.observe_described is_index_update_to_date
  observe_cr-index_up_to_date s {index} named found = ground (
    arith,
    eq_iff s.cr.external_name "",
    Bool-cases (not (eqb_ℕ (length s.cr.for_provider.keys) (length index.keys))),
  )

  observe_configs-outcome :
      (l : List String) (a b : Apis.Sls.MachineGroupBinding) (w : W)
      → let t = MachineGroupBinding.observe_configs c l (record { cr = a; world = w }) in
        let s = MachineGroupBinding.observe_configs c l (record { cr = b; world = w }) in
        (t.0 ≡ s.0) × (t.1.world ≡ s.1.world)
  unfolding MachineGroupBinding.observe_configs
  observe_configs-outcome [] a b w = (refl, refl)
  observe_configs-outcome (f ∷ fs) a b w = (refl, refl)

  -- `Observe` of a machine group binding does not read which config is wanted: with any other it
  -- returns the same and leaves the same world.
  pub observe_cr-with_config :
      (name : Option String) (cr : Apis.Sls.MachineGroupBinding) (w : W)
      → let t = MachineGroupBinding.observe_cr c (record { cr = with_config name cr; world = w }) in
        let s = MachineGroupBinding.observe_cr c (record { cr = cr; world = w }) in
        (t.0 ≡ s.0) × (t.1.world ≡ s.1.world)
  unfolding MachineGroupBinding.observe_cr
  observe_cr-with_config name cr w = grind (arith, observe_configs-outcome)
