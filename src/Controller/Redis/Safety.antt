-- ===== src/Controller/Redis/Safety.antt =====
-- The handlers of pkg/controller/redis read no nil pointer.
use provider_alibaba.Base.{String, false, ◌≡◌, arith}
use provider_alibaba.Go.{Env, panics}
use provider_alibaba.Crossplane.{Runtime}
use provider_alibaba.Apis.{Managed}
use provider_alibaba.Apis.Redis.{RedisInstance}
use provider_alibaba.Clients.Redis.{
  SdkClient, client, DbInstance, ModifyRedisInstanceRequest, describe_db_instance,
  create_db_instance, create_account, delete_db_instance, allocate_instance_public_connection,
  modify_db_instance_connection_string, modify_instance_spec, update,
}
use provider_alibaba.Clients.Redis.{
  DescribeInstancesRequest, CreateRequest, CreateAccountRequest, DeleteRequest,
  AllocateConnectionRequest, ModifyConnectionRequest, ModifyInstanceSpecRequest,
}
use provider_alibaba.Controller.Redis.{
  create_private_connection_if_needed, create_public_connection_if_needed,
  create_connection_if_needed, create_account_if_needed, observe_running, observe_status,
  observe_described, observe_cr, create_cr, update_instance, delete_cr,
}
use provider_alibaba.Controller.Redis as RedisController

-- Every call of the SDK, and the making of a password, returns a value or an error.
pub record Returns {W : Type 0} (c : SdkClient W) (R : Runtime W) : Type 0 where
  pub describe_returns :
      (req : DescribeInstancesRequest) (w : W) → panics (c.describe_instances req w).0 ≡ false
  pub create_returns : (req : CreateRequest) (w : W) → panics (c.create_instance req w).0 ≡ false
  pub account_returns :
      (req : CreateAccountRequest) (w : W) → panics (c.create_account req w).0 ≡ false
  pub delete_returns : (req : DeleteRequest) (w : W) → panics (c.delete_instance req w).0 ≡ false
  pub allocate_returns :
      (req : AllocateConnectionRequest) (w : W)
      → panics (c.allocate_instance_public_connection req w).0 ≡ false
  pub modify_returns :
      (req : ModifyConnectionRequest) (w : W)
      → panics (c.modify_db_instance_connection_string req w).0 ≡ false
  pub spec_returns :
      (req : ModifyInstanceSpecRequest) (w : W) → panics (c.modify_instance_spec req w).0 ≡ false
  pub password_returns : (w : W) → panics (R.generate_password w).0 ≡ false

module _ {W : Type 0} (c : SdkClient W) (R : Runtime W) (K : Returns c R) where
  private_connection-returns :
      (s : Env RedisInstance W)
      → panics (create_private_connection_if_needed (client c) s).0 ≡ false
  unfolding create_private_connection_if_needed modify_db_instance_connection_string
  private_connection-returns s = grind (arith, K.modify_returns)

  public_connection-returns :
      (s : Env RedisInstance W) → panics (create_public_connection_if_needed (client c) s).0 ≡ false
  unfolding create_public_connection_if_needed allocate_instance_public_connection
  public_connection-returns s = grind (arith, K.allocate_returns)

  connection-returns :
      (s : Env RedisInstance W) → panics (create_connection_if_needed (client c) s).0 ≡ false
  unfolding create_connection_if_needed
  connection-returns s = ground (arith, private_connection-returns s, public_connection-returns s)

  account-returns :
      (s : Env RedisInstance W) → panics (create_account_if_needed (client c) R s).0 ≡ false
  unfolding create_account_if_needed create_account
  account-returns s = grind (arith, K.account_returns, K.password_returns)

  running-returns :
      (i : DbInstance) (s : Env RedisInstance W)
      → panics (observe_running (client c) R i s).0 ≡ false
  unfolding observe_running
  running-returns i s = grind (arith, connection-returns, account-returns)

  status-returns :
      (i : DbInstance) (s : Env RedisInstance W)
      → panics (observe_status (client c) R i s).0 ≡ false
  unfolding observe_status
  status-returns i s = grind (arith, running-returns)

  described-returns :
      (i : DbInstance) (s : Env RedisInstance W)
      → panics (observe_described (client c) R i s).0 ≡ false
  unfolding observe_described
  described-returns i s = grind (arith, status-returns)

  observe_cr-returns : (s : Env RedisInstance W) → panics (observe_cr (client c) R s).0 ≡ false
  unfolding observe_cr describe_db_instance
  observe_cr-returns s = grind (arith, described-returns, K.describe_returns)

  create_cr-returns : (s : Env RedisInstance W) → panics (create_cr (client c) R s).0 ≡ false
  unfolding create_cr create_db_instance
  create_cr-returns s = grind (arith, K.create_returns)

  spec-returns :
      (id : String) (req : ModifyRedisInstanceRequest) (w : W)
      → panics (modify_instance_spec c id req w).0 ≡ false
  unfolding modify_instance_spec
  spec-returns id req w = K.spec_returns _ w

  update_instance-returns :
      (s : Env RedisInstance W) → panics (update_instance (client c) R s).0 ≡ false
  unfolding update_instance update
  update_instance-returns s =
      let req : ModifyRedisInstanceRequest = record {
        instance_class = s.cr.for_provider.instance_class;
      } in
      ground (arith, spec-returns s.cr.external_name req s.world)

  delete_cr-returns : (s : Env RedisInstance W) → panics (delete_cr (client c) R s).0 ≡ false
  unfolding delete_cr delete_db_instance
  delete_cr-returns s = grind (arith, K.delete_returns)

  -- Where no call of the SDK panics, nor the making of a password, none of the four Redis handlers
  -- panics, for any managed resource and any state.
  pub handlers_return :
      (s : Env Managed W)
      → (panics (RedisController.observe (client c) R s).0 ≡ false)
        × (panics (RedisController.create (client c) R s).0 ≡ false)
        × (panics (RedisController.update (client c) R s).0 ≡ false)
        × (panics (RedisController.delete (client c) R s).0 ≡ false)
  handlers_return s =
      grind
        (arith, observe_cr-returns, create_cr-returns, update_instance-returns, delete_cr-returns)
