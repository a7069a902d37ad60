-- ===== src/Controller/Redis/Service.antt =====
-- The controller over the client of pkg/clients/redis, down to the SDK.
use provider_alibaba.Base.{String, ◌<>◌, false, ◌≡◌, ◌≢◌, ◌⊎◌, inl, inr, arith, []}
use provider_alibaba.Base.Int.{pos, eqb_ℤ_iff}
use provider_alibaba.Base.Decimal.{itoa}
use provider_alibaba.Go.{Env, ok, err, wrap, cause, server_error}
use provider_alibaba.Crossplane.{Runtime, IsDocumented, no_observation}
use provider_alibaba.Apis.Redis.{RedisInstance}
use provider_alibaba.Clients.Redis.{
  SdkClient, DescribeInstancesRequest, client, is_error_not_found, describe_db_instance,
  modify_db_instance_connection_string, public_connection_domain, https_scheme, default_read_time,
  err_db_instance_not_found,
}
use provider_alibaba.Controller.Redis.{
  observe_cr, create_private_connection_if_needed, set_connection_ready,
}
use provider_alibaba.Controller.Redis.Observation.{observe_cr-undescribed}

abbrev pub describe_request : String → DescribeInstancesRequest
describe_request id = record { scheme = https_scheme; instance_ids = id }

module _ {W : Type 0} (c : SdkClient W) (R : Runtime W) (D : IsDocumented R) where
  -- With the documented runtime: where the service lists no Redis instance of the recorded id, or
  -- answers that the id does not exist, the resource is reported as absent and stays as it was.
  pub observe_cr-absent :
      (s : Env RedisInstance W) {w : W}
      → s.cr.at_provider.db_instance_id ≢ ""
      → let request = describe_request s.cr.at_provider.db_instance_id in
        (c.describe_instances request s.world ≡ (ok [], w))
          ⊎ (c.describe_instances request s.world
              ≡ (err (server_error "InvalidInstanceId.NotFound"), w))
        → observe_cr (client c) R s ≡ (ok no_observation, record s { world = w })
  unfolding describe_db_instance is_error_not_found cause
  observe_cr-absent s {w} created (inl empty) =
      let missing : describe_db_instance c s.cr.at_provider.db_instance_id s.world
          ≡ (err err_db_instance_not_found, w) =
        ground arith in
      observe_cr-undescribed (client c) R D s created missing
  observe_cr-absent s {w} created (inr unknown) =
      let missing : describe_db_instance c s.cr.at_provider.db_instance_id s.world ≡ (
        err (wrap "cannot describe redis instance" (server_error "InvalidInstanceId.NotFound")),
        w,
      ) =
        ground arith in
      observe_cr-undescribed (client c) R D s created missing

  -- Where the service takes the request, a private connection of a Redis instance with a port of
  -- its own, not yet ready, is reported under the public domain of the instance, which is the
  -- connection string that the client modifies.
  pub create_private_connection_if_needed-public_domain :
      (s : Env RedisInstance W) {w : W}
      → s.cr.for_provider.instance_port ≢ pos 0
      → s.cr.at_provider.connection_ready ≡ false
      → let id = s.cr.at_provider.db_instance_id in
        let port = s.cr.for_provider.instance_port in
        c.modify_db_instance_connection_string
            (record {
              scheme = https_scheme;
              db_instance_id = id;
              current_connection_string = id <> public_connection_domain;
              port = itoa port;
              read_timeout = default_read_time;
            })
            s.world
          ≡ (ok tt, w)
        → create_private_connection_if_needed (client c) s ≡ (
          ok (id <> public_connection_domain, itoa port),
          record { cr = set_connection_ready s.cr; world = w },
        )
  unfolding create_private_connection_if_needed modify_db_instance_connection_string
  create_private_connection_if_needed-public_domain s port unready made =
      ground (arith, eqb_ℤ_iff s.cr.for_provider.instance_port (pos 0))
