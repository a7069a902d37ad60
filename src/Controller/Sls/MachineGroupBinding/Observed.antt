-- ===== src/Controller/Sls/MachineGroupBinding/Observed.antt =====
-- What `Observe` of machineGroupBinding_controller.go says after `Create` and after `Delete`.
use provider_alibaba.Base.{String, true, ◌≡◌, ◌≢◌, refl, arith, some, List, [], ◌∷◌, eq_iff}
use provider_alibaba.Go.{Env, Outcome, ok, err, panic}
use provider_alibaba.Crossplane.{
  ExternalObservation, ExternalCreation, Condition, creating, deleting, set_conditions,
}
use provider_alibaba.Apis.Sls.{MachineGroupBinding}
use provider_alibaba.Clients.Sls.{client}
use provider_alibaba.Clients.Sls.Sdk.{SdkClient}
use provider_alibaba.Clients.Sls.Applied.{Applies, contains}
use provider_alibaba.Clients.Sls.MachineGroup.{
  get_applied_configs, apply_config_to_machine_group, remove_config_from_machine_group,
}
use provider_alibaba.Controller.Sls.MachineGroupBinding.{
  observe_cr, observe_configs, create_cr, delete_cr, join,
  get_machine_group_binding_connection_details,
}

-- The names that the resource gives.
pub record Names (cr : MachineGroupBinding) (p g f : String) : Type 0 where
  pub project : cr.for_provider.project_name ≡ some p
  pub group : cr.for_provider.group_name ≡ some g
  pub config : cr.for_provider.config_name ≡ some f
  pub external : cr.external_name ≢ ""

module _ {W : Type 0} (c : SdkClient W) (K : Applies c) where
  observe_configs-bound :
      (f : String) (l : List String) (s : Env MachineGroupBinding W) {o : ExternalObservation}
      → contains f l ≡ true
      → (observe_configs (client c) l s).0 ≡ ok o
      → (o.resource_exists ≡ true)
        × (o.resource_up_to_date ≡ true)
        × (o.connection_details ≡ ("Configs", join ", " l) ∷ [])
  unfolding observe_configs get_machine_group_binding_connection_details
  observe_configs-bound f [] s held h = absurd (cc)
  observe_configs-bound f (x ∷ xs) s held h = ground arith

  observe_cr-bound_of :
      (s : Env MachineGroupBinding W) (x : String) (r : Outcome (List String)) {p g f : String}
      {w : W} {o : ExternalObservation}
      → Names s.cr p g f
      → c.get_applied_configs p g s.world ≡ (r, w)
      → contains x (K.applied s.world p g) ≡ true
      → (observe_cr (client c) s).0 ≡ ok o
      → (o.resource_exists ≡ true)
        × (o.resource_up_to_date ≡ true)
        × (o.connection_details ≡ ("Configs", join ", " (K.applied s.world p g)) ∷ [])
  unfolding observe_cr get_applied_configs
  observe_cr-bound_of s x (ok l) {p} {g} {f} {w} {o} n got held h = ground (
    arith,
    n.project,
    n.group,
    n.external,
    eq_iff s.cr.external_name "",
    K.got p g s.world {l = l},
    observe_configs-bound x l (record s { world = w }) {o = o},
  )
  observe_cr-bound_of s x (err e) n got held h =
      absurd (ground (arith, n.project, n.group, n.external, eq_iff s.cr.external_name ""))
  observe_cr-bound_of s x panic n got held h =
      absurd (ground (arith, n.project, n.group, n.external, eq_iff s.cr.external_name ""))

  observe_configs-ok :
      (l : List String) (s : Env MachineGroupBinding W)
      → (o : ExternalObservation) × ((observe_configs (client c) l s).0 ≡ ok o)
  unfolding observe_configs
  observe_configs-ok [] s = (_, refl)
  observe_configs-ok (x ∷ xs) s = (_, refl)

  observe_cr-answered :
      (s : Env MachineGroupBinding W) {p g f : String} {l : List String}
      → Names s.cr p g f
      → (c.get_applied_configs p g s.world).0 ≡ ok l
      → (o : ExternalObservation) × ((observe_cr (client c) s).0 ≡ ok o)
  unfolding observe_cr get_applied_configs
  observe_cr-answered s {p} {g} {l = l} n answered =
      let w = (c.get_applied_configs p g s.world).1 in
      let (o, ran) = observe_configs-ok l (record s { world = w }) in
      (o, ground (arith, n.project, n.group, n.external, eq_iff s.cr.external_name ""))

  create_cr-cr :
      (s : Env MachineGroupBinding W) → (create_cr (client c) s).1.cr ≡ set_conditions creating s.cr
  unfolding create_cr
  create_cr-cr s = ground arith

  delete_cr-cr :
      (s : Env MachineGroupBinding W) → (delete_cr (client c) s).1.cr ≡ set_conditions deleting s.cr
  unfolding delete_cr
  delete_cr-cr s = ground arith

  create_cr-applied :
      (s : Env MachineGroupBinding W) {p g f : String} {made : ExternalCreation}
      → Names s.cr p g f
      → (create_cr (client c) s).0 ≡ ok made
      → contains f (K.applied (create_cr (client c) s).1.world p g) ≡ true
  unfolding create_cr apply_config_to_machine_group
  create_cr-applied s {p} {g} {f} n h =
      ground (arith, n.project, n.group, n.config, K.applies p f g s.world)

  delete_cr-others :
      (s : Env MachineGroupBinding W) {p g f x : String}
      → Names s.cr p g f
      → x ≢ f
      → contains x (K.applied s.world p g) ≡ true
      → contains x (K.applied (delete_cr (client c) s).1.world p g) ≡ true
  unfolding delete_cr remove_config_from_machine_group
  delete_cr-others s {p} {g} {f} {x} n other held =
      ground
        (arith, n.project, n.group, n.config, K.removes_one p f g s.world {other = x} other held)

  Names-set :
      {cr : MachineGroupBinding} {p g f : String} (k : Condition)
      → Names cr p g f
      → Names (set_conditions k cr) p g f
  Names-set k n = record {
    project = n.project;
    group = n.group;
    config = n.config;
    external = n.external;
  }

  -- Over a service that keeps the configs of machine groups, for a binding whose project, group,
  -- config and external name are given: where `Create` succeeds and the service then answers the
  -- request for the configs of the group, the next `Observe` succeeds, reports the binding as
  -- existing and up to date, and its details list the configs of the group, of which the wanted one
  -- is one.
  pub create_cr-binding_observed :
      (s : Env MachineGroupBinding W) {p g f : String} {made : ExternalCreation} {l : List String}
      → Names s.cr p g f
      → (create_cr (client c) s).0 ≡ ok made
      → (c.get_applied_configs p g (create_cr (client c) s).1.world).0 ≡ ok l
      → (o : ExternalObservation) × ((observe_cr (client c) (create_cr (client c) s).1).0 ≡ ok o)
        × (o.resource_exists ≡ true)
        × (o.resource_up_to_date ≡ true)
        × (o.connection_details
            ≡ ("Configs", join ", " (K.applied (create_cr (client c) s).1.world p g)) ∷ [])
        × (contains f (K.applied (create_cr (client c) s).1.world p g) ≡ true)
  create_cr-binding_observed s {p} {g} {f} {l = l} n made answered =
      let t = (create_cr (client c) s).1 in
      let held = create_cr-applied s n made in
      let n' : Names t.cr p g f = rw (create_cr-cr s) (Names-set creating n) in
      let (o, again) = observe_cr-answered t {l = l} n' answered in
      let seen = observe_cr-bound_of t f (c.get_applied_configs p g t.world).0 n' refl held again in
      (o, again, seen.0, seen.1, seen.2, held)

  -- Over a service that keeps the configs of machine groups, for a binding whose names are given:
  -- where another config is applied to the group and the service answers the request for its
  -- configs after `Delete`, the next `Observe` succeeds and still reports the binding as existing
  -- and up to date.
  pub delete_cr-still_bound :
      (s : Env MachineGroupBinding W) {p g f x : String} {l : List String}
      → Names s.cr p g f
      → x ≢ f
      → contains x (K.applied s.world p g) ≡ true
      → (c.get_applied_configs p g (delete_cr (client c) s).1.world).0 ≡ ok l
      → (o : ExternalObservation) × ((observe_cr (client c) (delete_cr (client c) s).1).0 ≡ ok o)
        × (o.resource_exists ≡ true)
        × (o.resource_up_to_date ≡ true)
  delete_cr-still_bound s {p} {g} {f} {x} {l} n other held answered =
      let t = (delete_cr (client c) s).1 in
      let n' : Names t.cr p g f = rw (delete_cr-cr s) (Names-set deleting n) in
      let (o, again) = observe_cr-answered t {l = l} n' answered in
      let seen =
        observe_cr-bound_of t x (c.get_applied_configs p g t.world).0 n' refl
          (delete_cr-others s n other held) again in
      (o, again, seen.0, seen.1)
