-- ===== src/Controller/Redis/Requests.antt =====
-- How many requests the handlers of pkg/controller/redis make.
use provider_alibaba.Base.{ℕ, ◌+◌, ◌≤◌, String, ◌≡◌, arith}
use provider_alibaba.Go.{Env}
use provider_alibaba.Crossplane.{Runtime}
use provider_alibaba.Apis.Redis.{RedisInstance}
use provider_alibaba.Clients.Redis.{
  SdkClient, client, DbInstance, ModifyRedisInstanceRequest, describe_db_instance,
  create_db_instance, create_account, delete_db_instance, allocate_instance_public_connection,
  modify_db_instance_connection_string, modify_instance_spec, update,
}
use provider_alibaba.Clients.Redis.{
  DescribeInstancesRequest, CreateRequest, CreateAccountRequest, DeleteRequest,
  AllocateConnectionRequest, ModifyConnectionRequest, ModifyInstanceSpecRequest,
}
use provider_alibaba.Controller.Redis.{
  create_private_connection_if_needed, create_public_connection_if_needed,
  create_connection_if_needed, create_account_if_needed, observe_running, observe_status,
  observe_described, observe_cr, create_cr, update_instance, delete_cr,
}
use provider_alibaba.Controller.Redis as RedisController
use provider_alibaba.Apis.{Managed}

-- A measure of the requests so far that every call of the SDK raises by at most one, and that making a
-- password leaves alone.
pub record Counts {W : Type 0} (c : SdkClient W) (R : Runtime W) : Type 0 where
  pub requests : W → ℕ
  pub describe_one :
      (req : DescribeInstancesRequest) (w : W)
      → requests (c.describe_instances req w).1 ≤ requests w + 1
  pub create_one :
      (req : CreateRequest) (w : W) → requests (c.create_instance req w).1 ≤ requests w + 1
  pub account_one :
      (req : CreateAccountRequest) (w : W) → requests (c.create_account req w).1 ≤ requests w + 1
  pub delete_one :
      (req : DeleteRequest) (w : W) → requests (c.delete_instance req w).1 ≤ requests w + 1
  pub allocate_one :
      (req : AllocateConnectionRequest) (w : W)
      → requests (c.allocate_instance_public_connection req w).1 ≤ requests w + 1
  pub modify_one :
      (req : ModifyConnectionRequest) (w : W)
      → requests (c.modify_db_instance_connection_string req w).1 ≤ requests w + 1
  pub spec_one :
      (req : ModifyInstanceSpecRequest) (w : W)
      → requests (c.modify_instance_spec req w).1 ≤ requests w + 1
  pub password_none : (w : W) → requests (R.generate_password w).1 ≡ requests w

module _ {W : Type 0} (c : SdkClient W) (R : Runtime W) (K : Counts c R) where
  private_connection-requests :
      (s : Env RedisInstance W)
      → K.requests (create_private_connection_if_needed (client c) s).1.world
        ≤ K.requests s.world + 1
  unfolding create_private_connection_if_needed modify_db_instance_connection_string
  private_connection-requests s = grind (arith, K.modify_one)

  public_connection-requests :
      (s : Env RedisInstance W)
      → K.requests (create_public_connection_if_needed (client c) s).1.world
        ≤ K.requests s.world + 1
  unfolding create_public_connection_if_needed allocate_instance_public_connection
  public_connection-requests s = grind (arith, K.allocate_one)

  connection-requests :
      (s : Env RedisInstance W)
      → K.requests (create_connection_if_needed (client c) s).1.world ≤ K.requests s.world + 1
  unfolding create_connection_if_needed
  connection-requests s =
      ground (arith, private_connection-requests s, public_connection-requests s)

  account-requests :
      (s : Env RedisInstance W)
      → K.requests (create_account_if_needed (client c) R s).1.world ≤ K.requests s.world + 1
  unfolding create_account_if_needed create_account
  account-requests s = grind (arith, K.account_one, K.password_none)

  running-requests :
      (i : DbInstance) (s : Env RedisInstance W)
      → K.requests (observe_running (client c) R i s).1.world ≤ K.requests s.world + 2
  unfolding observe_running
  running-requests i s = grind (arith, connection-requests, account-requests)

  status-requests :
      (i : DbInstance) (s : Env RedisInstance W)
      → K.requests (observe_status (client c) R i s).1.world ≤ K.requests s.world + 2
  unfolding observe_status
  status-requests i s = grind (arith, running-requests)

  described-requests :
      (i : DbInstance) (s : Env RedisInstance W)
      → K.requests (observe_described (client c) R i s).1.world ≤ K.requests s.world + 2
  unfolding observe_described
  described-requests i s = grind (arith, status-requests)

  observe_cr-requests :
      (s : Env RedisInstance W)
      → K.requests (observe_cr (client c) R s).1.world ≤ K.requests s.world + 3
  unfolding observe_cr describe_db_instance
  observe_cr-requests s = grind (arith, described-requests, K.describe_one)

  create_cr-requests :
      (s : Env RedisInstance W)
      → K.requests (create_cr (client c) R s).1.world ≤ K.requests s.world + 1
  unfolding create_cr create_db_instance
  create_cr-requests s = grind (arith, K.create_one)

  spec-requests :
      (id : String) (req : ModifyRedisInstanceRequest) (w : W)
      → K.requests (modify_instance_spec c id req w).1 ≤ K.requests w + 1
  unfolding modify_instance_spec
  spec-requests id req w = K.spec_one _ w

  update_instance-requests :
      (s : Env RedisInstance W)
      → K.requests (update_instance (client c) R s).1.world ≤ K.requests s.world + 1
  unfolding update_instance update
  update_instance-requests s =
      let req : ModifyRedisInstanceRequest = record {
        instance_class = s.cr.for_provider.instance_class;
      } in
      ground (arith, spec-requests s.cr.external_name req s.world)

  delete_cr-requests :
      (s : Env RedisInstance W)
      → K.requests (delete_cr (client c) R s).1.world ≤ K.requests s.world + 1
  unfolding delete_cr delete_db_instance
  delete_cr-requests s = grind (arith, K.delete_one)

  -- For every measure that each request to the Redis SDK raises by at most one and the making of a
  -- password leaves alone: `Observe` of any managed resource raises it by at most three, and
  -- `Create`, `Update` and `Delete` by at most one each.
  pub handlers_count :
      (s : Env Managed W)
      → (K.requests (RedisController.observe (client c) R s).1.world ≤ K.requests s.world + 3)
        × (K.requests (RedisController.create (client c) R s).1.world ≤ K.requests s.world + 1)
        × (K.requests (RedisController.update (client c) R s).1.world ≤ K.requests s.world + 1)
        × (K.requests (RedisController.delete (client c) R s).1.world ≤ K.requests s.world + 1)
  handlers_count s =
      grind (
        arith, observe_cr-requests, create_cr-requests, update_instance-requests,
        delete_cr-requests,
      )
