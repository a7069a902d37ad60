-- ===== src/Controller/Sls/Observed.antt =====
-- What `Observe` of the log stores and of the Logtail configs says after `Update` and `Create`
-- (store_controller.go and logtail_controller.go).
use provider_alibaba.Base.{String, true, ◌==◌, ◌≡◌, ◌≢◌, refl, arith, some, eq_iff, eq_refl, [], ap}
use provider_alibaba.Go.{Env, ok}
use provider_alibaba.Crossplane.{ExternalObservation, creating, set_conditions, set_at_provider}
use provider_alibaba.Apis.Sls.{Logtail, LogtailParameters}
use provider_alibaba.Clients.Sls.{client}
use provider_alibaba.Clients.Sls.Sdk
use provider_alibaba.Clients.Sls.Sdk.{SdkClient}
use provider_alibaba.Clients.Sls.Config.{
  make_config, make_input_detail, is_logtail_update_to_date, describe_config,
  generate_logtail_observation,
}
use provider_alibaba.Controller.Sls.Store
use provider_alibaba.Controller.Sls.Logtail

module _ {W : Type 0} (c : SdkClient W) where
  make_config-reads :
      (name : String) (t : LogtailParameters) (w : W) {config : Sdk.LogConfig}
      → (make_config name t w).0 ≡ ok config
      → (config.name ≡ name)
        × (t.input_type ≡ some config.input_type)
        × (t.output_type ≡ some config.output_type)
        × (config.project_name ≡ t.output_detail.project_name)
        × (config.log_store_name ≡ t.output_detail.log_store_name)
  unfolding make_config make_input_detail
  make_config-reads name t w h = ground arith

  logtail_check-made :
      {S : Type 0} (cr : Logtail) (w : W) (s : S) {config : Sdk.LogConfig}
      → (make_config cr.external_name cr.for_provider w).0 ≡ ok config
      → is_logtail_update_to_date cr (some config) s ≡ (ok (cr.name == cr.external_name), s)
  unfolding is_logtail_update_to_date
  logtail_check-made cr w s {config} made = ground (
    arith,
    make_config-reads cr.external_name cr.for_provider w {config = config} made,
    eq_refl config.input_type,
    eq_refl config.output_type,
    eq_refl config.project_name,
    eq_refl config.log_store_name,
  )

  create_logtail-cr :
      (s : Env Logtail W) → (Logtail.create_cr (client c) s).1.cr ≡ set_conditions creating s.cr
  unfolding Logtail.create_cr
  create_logtail-cr s = ground arith

  observe_logtail-found :
      (s : Env Logtail W) (v : W) {config : Sdk.LogConfig} {w : W}
      → s.cr.external_name ≢ ""
      → (make_config s.cr.external_name s.cr.for_provider v).0 ≡ ok config
      → c.get_config s.cr.for_provider.output_detail.project_name s.cr.external_name s.world
        ≡ (ok (some config), w)
      → (Logtail.observe_cr (client c) s).0
        ≡ ok (record {
          resource_exists = true;
          resource_up_to_date = (s.cr.name == s.cr.external_name);
          connection_details = [];
        })
  unfolding Logtail.observe_cr Logtail.observe_described describe_config
  observe_logtail-found s v {config} {w} given made found =
      let cr' = set_at_provider (generate_logtail_observation (some config)) s.cr in
      let s' : Env Logtail W = record { cr = cr'; world = w } in
      ground (arith, eq_iff s.cr.external_name "", logtail_check-made cr' v s' {config = config})

  -- For a Logtail with an external name and a config that can be built: where the service gives
  -- this config after `Create`, the next `Observe` succeeds, reports that it exists, and reports it
  -- as up to date exactly where the name of the object is the external name.
  pub create_logtail-observed :
      (s : Env Logtail W) {config : Sdk.LogConfig} {w : W}
      → s.cr.external_name ≢ ""
      → (make_config s.cr.external_name s.cr.for_provider s.world).0 ≡ ok config
      → let t = (Logtail.create_cr (client c) s).1 in
        c.get_config s.cr.for_provider.output_detail.project_name s.cr.external_name t.world
          ≡ (ok (some config), w)
        → (o : ExternalObservation) × ((Logtail.observe_cr (client c) t).0 ≡ ok o)
          × (o.resource_exists ≡ true)
          × (o.resource_up_to_date ≡ (s.cr.name == s.cr.external_name))
  create_logtail-observed s {config} {w} given made found =
      let t = (Logtail.create_cr (client c) s).1 in
      let same : t.cr ≡ set_conditions creating s.cr = create_logtail-cr s in
      let seen =
        observe_logtail-found t s.world {config = config} {w = w} (ground arith) (ground arith)
          (ground arith) in
      (_, seen, refl, ap (λ (cr : Logtail). cr.name == cr.external_name) same)
