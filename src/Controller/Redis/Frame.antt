-- ===== src/Controller/Redis/Frame.antt =====
-- What no Redis handler touches: the metadata and the desired state.
use provider_alibaba.Base.{arith}
use provider_alibaba.Go.{Env}
use provider_alibaba.Crossplane.{Runtime}
use provider_alibaba.Crossplane.Frame.{SameSpec}
use provider_alibaba.Apis.Redis.{RedisInstance}
use provider_alibaba.Clients.Redis.{Client}
use provider_alibaba.Controller.Redis.{
  create_private_connection_if_needed, create_public_connection_if_needed,
  create_connection_if_needed, create_account_if_needed, observe_running, observe_status,
  observe_described, observe_cr, create_cr, update_instance, delete_cr,
}

module _ {W : Type 0} (c : Client W) (R : Runtime W) where
  private-SameSpec :
      (s : Env RedisInstance W) → SameSpec s.cr (create_private_connection_if_needed c s).1.cr
  unfolding create_private_connection_if_needed
  private-SameSpec s = ground arith

  public-SameSpec :
      (s : Env RedisInstance W) → SameSpec s.cr (create_public_connection_if_needed c s).1.cr
  unfolding create_public_connection_if_needed
  public-SameSpec s = ground arith

  connection-SameSpec :
      (s : Env RedisInstance W) → SameSpec s.cr (create_connection_if_needed c s).1.cr
  unfolding create_connection_if_needed
  connection-SameSpec s = ground (arith, private-SameSpec s, public-SameSpec s)

  account-SameSpec : (s : Env RedisInstance W) → SameSpec s.cr (create_account_if_needed c R s).1.cr
  unfolding create_account_if_needed
  account-SameSpec s = ground arith

  pub observe_cr-SameSpec : (s : Env RedisInstance W) → SameSpec s.cr (observe_cr c R s).1.cr
  unfolding observe_cr observe_described observe_status observe_running
  observe_cr-SameSpec s = grind (arith, connection-SameSpec, account-SameSpec)

  pub create_cr-SameSpec : (s : Env RedisInstance W) → SameSpec s.cr (create_cr c R s).1.cr
  unfolding create_cr
  create_cr-SameSpec s = ground arith

  pub update_instance-SameSpec :
      (s : Env RedisInstance W) → SameSpec s.cr (update_instance c R s).1.cr
  unfolding update_instance
  update_instance-SameSpec s = ground arith

  pub delete_cr-SameSpec : (s : Env RedisInstance W) → SameSpec s.cr (delete_cr c R s).1.cr
  unfolding delete_cr
  delete_cr-SameSpec s = ground arith
