-- ===== src/Controller/Slb.antt =====
-- pkg/controller/slb/slb_controller.go
pub mod Frame
pub mod Laws
pub mod Roundtrip
use provider_alibaba.Base.{String, Bool, true, false, [], ◌∷◌, ◌==◌, if◌then◌else◌}
use provider_alibaba.Base.Int.{pos, eqb_ℤ}
use provider_alibaba.Go.{
  M, Result, pure, wrap_err, deref, ◌>>=◌, ◌>>◌, Env, get_cr, update_cr, call,
}
use provider_alibaba.Crossplane.{
  ConnectionDetails, available, creating, deleting, set_conditions, set_at_provider,
  ExternalObservation, no_observation, ExternalCreation,
}
use provider_alibaba.Crossplane.Handler.{on_kind}
use provider_alibaba.Apis.{Managed, clb_kind}
use provider_alibaba.Apis.Slb.{Clb}
use provider_alibaba.Util.Kube.{Kube}
use provider_alibaba.Util.Client.{ClientEstablishmentInfo}
use provider_alibaba.Util.Connect.{connect_with}
use provider_alibaba.Clients.Slb.{
  Client, DescribeLoadBalancersResponse, generate_observation, is_update_to_date,
}

abbrev pub err_create_client : String
err_create_client = "cannot create SLB client"

abbrev pub err_failed_to_create_slb : String
err_failed_to_create_slb = "failed to create SLB"

abbrev pub err_failed_to_delete_slb : String
err_failed_to_delete_slb = "failed to delete SLB"

abbrev pub err_failed_to_describe_slb : String
err_failed_to_describe_slb = "failed to describe SLB"

abbrev pub err_not_clb : String
err_not_clb = "managed resource is not a CLB custom resource"

-- `NewClientFn` takes the endpoint, the key, the secret and the token.
pub record Connector (W : Type 0) : Type 0 where
  pub kube : Kube W
  pub new_client_fn : String → String → String → String → Result (Client W)

abbrev new_client_of : {W : Type 0} → Connector W → ClientEstablishmentInfo → Result (Client W)
new_client_of x info =
    x.new_client_fn info.endpoint info.access_key_id info.access_key_secret info.security_token

unfoldable pub connect : {W : Type 0} → Connector W → Managed → M W (Client W)
connect x = connect_with x.kube (new_client_of x) clb_kind err_not_clb err_create_client

-- What `Observe` reports where no load balancer is described.
abbrev pub missing : ExternalObservation
missing = record { resource_exists = false; resource_up_to_date = true; connection_details = [] }

abbrev if_available : Bool → Clb → Clb
if_available true cr = set_conditions available cr
if_available false cr = cr

-- It reads two pointers of the status.
unfoldable pub get_connection_details : {S : Type 0} → Clb → M S ConnectionDetails
get_connection_details cr = do
  address ← deref cr.at_provider.address
  id ← deref cr.at_provider.load_balancer_id
  pure (("Address", address) ∷ ("LoadBalancerId", id) ∷ [])

module _ {W : Type 0} (c : Client W) where
  abbrev H : Type 0 → Type 0
  H A = M (Env Clb W) A

  -- `Observe` from a response that counts at least one load balancer on.
  unfoldable pub observe_described : DescribeLoadBalancersResponse → H ExternalObservation
  observe_described slb = do
    observation ← generate_observation slb
    update_cr (set_at_provider observation)
    cr ← get_cr
    up_to_date ← is_update_to_date cr slb
    update_cr (if_available up_to_date)
    cr' ← get_cr
    details ← get_connection_details cr'
    pure (record {
      resource_exists = true;
      resource_up_to_date = up_to_date;
      connection_details = details;
    })

  unfoldable pub observe_cr : H ExternalObservation
  observe_cr = do
    cr ← get_cr
    if cr.external_name == "" then pure no_observation else do
      slb ← wrap_err err_failed_to_describe_slb (
          call (
            c.describe_load_balancers cr.for_provider.region cr.at_provider.load_balancer_id
              cr.for_provider.vpc_id cr.for_provider.vswitch_id))
      count ← deref slb.total_count
      if eqb_ℤ count (pos 0) then pure missing else observe_described slb

  unfoldable pub create_cr : H ExternalCreation
  create_cr = do
    update_cr (set_conditions creating)
    cr ← get_cr
    res ← wrap_err err_failed_to_create_slb (call (c.create_load_balancer cr.name cr.for_provider))
    lb ← wrap_err err_failed_to_describe_slb (
        call (
          c.describe_load_balancers cr.for_provider.region res.load_balancer_id
            cr.for_provider.vpc_id cr.for_provider.vswitch_id))
    observation ← generate_observation lb
    update_cr (set_at_provider observation)
    cr' ← get_cr
    details ← get_connection_details cr'
    pure (record { connection_details = details })

  unfoldable pub delete_cr : H (Unit {0})
  delete_cr = do
    update_cr (set_conditions deleting)
    cr ← get_cr
    wrap_err err_failed_to_delete_slb
        (call (c.delete_load_balancer cr.for_provider.region cr.at_provider.load_balancer_id))

  abbrev pub observe : M (Env Managed W) ExternalObservation
  observe = on_kind clb_kind err_not_clb observe_cr

  abbrev pub create : M (Env Managed W) ExternalCreation
  create = on_kind clb_kind err_not_clb create_cr

  -- `Update` does nothing, for any resource.
  abbrev pub update : M (Env Managed W) (Unit {0})
  update = pure tt

  abbrev pub delete : M (Env Managed W) (Unit {0})
  delete = on_kind clb_kind err_not_clb delete_cr
