-- ===== src/Controller/Sls/Store.antt =====
-- pkg/controller/sls/store_controller.go
use provider_alibaba.Base.{String, Bool, true, false, Option, none, some, [], ◌∷◌, if◌then◌else◌}
use provider_alibaba.Base.Int.{ℤ, pos}
use provider_alibaba.Go.{
  value, error, message, M, pure, fail, attempt, deref, ◌>>=◌, ◌>>◌, Env, get_cr, update_cr, call,
}
use provider_alibaba.Crossplane.{
  ConnectionDetails, creating, deleting, set_conditions, set_at_provider, ExternalObservation,
  no_observation, ExternalCreation,
}
use provider_alibaba.Crossplane.Handler.{on_kind}
use provider_alibaba.Apis.{Managed, log_store_kind}
use provider_alibaba.Apis
use provider_alibaba.Apis.Sls.{StoreParameters}
use provider_alibaba.Clients.Sls.{Client}
use provider_alibaba.Clients.Sls.Sdk.{LogStore}
use provider_alibaba.Clients.Sls.Project.{
  is_store_not_found_error, generate_store_observation, is_store_update_to_date,
}
use provider_alibaba.Controller.Sls.{if_available}

abbrev pub err_not_store : String
err_not_store = "managed resource is not a SLS store custom resource"

abbrev pub err_max_split_shard_must_be_set : String
err_max_split_shard_must_be_set = "maxSplitShard must be set if autoSplit is true"

unfoldable pub get_store_connection_details : String → String → ConnectionDetails
get_store_connection_details project store = ("LogStore", store) ∷ ("Project", project) ∷ []

-- The store that `Create` asks for, with its limit on the number of shards.
abbrev new_store : String → StoreParameters → Bool → LogStore
new_store name p auto_split = record {
  name = name;
  ttl = p.ttl;
  shard_count = p.shard_count;
  auto_split = auto_split;
  max_split_shard = elim p.max_split_shard [ none ↦ pos 0 | some n ↦ n ];
  create_time = 0;
  last_modify_time = 0;
}

module _ {S : Type 0} where
  abbrev require_max_split_shard : Bool → Option ℤ → M S (Unit {0})
  require_max_split_shard true none = fail (message err_max_split_shard_must_be_set)
  require_max_split_shard true (some _) = pure tt
  require_max_split_shard false _ = pure tt

  -- `Create`, up to the request.
  unfoldable pub make_store : String → StoreParameters → M S LogStore
  make_store name p = elim p.auto_split [
    | none ↦ pure (new_store name p false)
    | some auto_split ↦
        require_max_split_shard auto_split p.max_split_shard >> pure (new_store name p auto_split)
  ]

module _ {W : Type 0} (c : Client W) where
  abbrev H : Type 0 → Type 0
  H A = M (Env Apis.Sls.LogStore W) A

  -- `Observe` from a successful `DescribeStore` on.
  unfoldable pub observe_described : Option LogStore → H ExternalObservation
  observe_described found = do
    store ← deref found
    update_cr (set_at_provider (generate_store_observation store))
    cr ← get_cr
    let up_to_date = is_store_update_to_date cr store
    update_cr (if_available up_to_date)
    pure (record {
      resource_exists = true;
      resource_up_to_date = up_to_date;
      connection_details =
          get_store_connection_details cr.for_provider.project_name cr.external_name;
    })

  unfoldable pub observe_cr : H ExternalObservation
  observe_cr = do
    cr ← get_cr
    found ← attempt (call (c.describe_store cr.for_provider.project_name cr.external_name))
    elim found [
      | value store ↦ observe_described store
      | error e ↦ if is_store_not_found_error (some e) then pure no_observation else fail e
    ]

  unfoldable pub create_cr : H ExternalCreation
  create_cr = do
    cr ← get_cr
    store ← make_store cr.external_name cr.for_provider
    update_cr (set_conditions creating)
    call (c.create_store cr.for_provider.project_name store)
    pure (record {
      connection_details =
          get_store_connection_details cr.for_provider.project_name cr.external_name;
    })

  unfoldable pub update_store : H (Unit {0})
  update_store = do
    update_cr (set_conditions creating)
    cr ← get_cr
    call (c.update_store cr.for_provider.project_name cr.external_name cr.for_provider.ttl)

  unfoldable pub delete_cr : H (Unit {0})
  delete_cr = do
    update_cr (set_conditions deleting)
    cr ← get_cr
    call (c.delete_store cr.for_provider.project_name cr.external_name)

  abbrev pub observe : M (Env Managed W) ExternalObservation
  observe = on_kind log_store_kind err_not_store observe_cr

  abbrev pub create : M (Env Managed W) ExternalCreation
  create = on_kind log_store_kind err_not_store create_cr

  abbrev pub update : M (Env Managed W) (Unit {0})
  update = on_kind log_store_kind err_not_store update_store

  abbrev pub delete : M (Env Managed W) (Unit {0})
  delete = on_kind log_store_kind err_not_store delete_cr
