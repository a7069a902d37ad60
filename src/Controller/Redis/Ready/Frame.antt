-- ===== src/Controller/Redis/Ready/Frame.antt =====
-- The connection and the account steps change nothing but the two ready flags.
use provider_alibaba.Base.{◌≡◌, arith}
use provider_alibaba.Go.{Env}
use provider_alibaba.Crossplane.{Runtime}
use provider_alibaba.Apis.Redis.{RedisInstance}
use provider_alibaba.Clients.Redis.{Client}
use provider_alibaba.Controller.Redis.Ready.{
  create_private_connection_if_needed, create_public_connection_if_needed,
  create_connection_if_needed, create_account_if_needed,
}

pub record SameObserved (a b : RedisInstance) : Type 0 where
  pub status_same : b.at_provider.db_instance_status ≡ a.at_provider.db_instance_status
  pub id_same : b.at_provider.db_instance_id ≡ a.at_provider.db_instance_id
  pub conditions_same : b.conditions ≡ a.conditions

module _ {W : Type 0} (c : Client W) where
  pub connection-SameObserved :
      (s : Env RedisInstance W) → SameObserved s.cr (create_connection_if_needed c s).1.cr
  unfolding create_connection_if_needed create_private_connection_if_needed
      create_public_connection_if_needed
  connection-SameObserved s = ground arith

  pub account-SameObserved :
      (R : Runtime W) (s : Env RedisInstance W)
      → SameObserved s.cr (create_account_if_needed c R s).1.cr
  unfolding create_account_if_needed
  account-SameObserved R s = ground arith
