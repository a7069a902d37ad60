-- ===== src/Controller/Redis/Lifecycle.antt =====
-- Any history of a Redis instance: the handlers in any order, and between them whatever else happens
-- to the service.
use provider_alibaba.Base.{String, ◌≡◌, ◌≢◌, refl, arith}
use provider_alibaba.Go.{Env, Outcome, ok, err, panic}
use provider_alibaba.Crossplane.{Runtime, set_conditions, available}
use provider_alibaba.Crossplane.Frame.{SameSpec, SameSpec-refl, SameSpec-trans}
use provider_alibaba.Apis.Redis.{RedisInstance}
use provider_alibaba.Clients.Redis.{
  Client, DbInstance, CreateRedisInstanceRequest, generate_observation,
  make_create_db_instance_request,
}
use provider_alibaba.Controller.Redis.{
  create_connection_if_needed, observe_running, observe_status, observe_described, observe_cr,
  create_cr, update_instance, delete_cr,
}
use provider_alibaba.Controller.Redis.Ready.Frame.{connection-SameObserved, account-SameObserved}
use provider_alibaba.Controller.Redis.Frame.{
  observe_cr-SameSpec, create_cr-SameSpec, update_instance-SameSpec, delete_cr-SameSpec,
}

-- What the service promises of ids: it describes the instance that it is asked for, and an instance
-- that it creates has an id.
pub record FindsById {W : Type 0} (c : Client W) : Type 0 where
  pub described :
      (id : String) (w : W) (i : DbInstance) → (c.describe_db_instance id w).0 ≡ ok i → i.id ≡ id
  pub created :
      (req : CreateRedisInstanceRequest) (w : W) (i : DbInstance)
      → (c.create_db_instance req w).0 ≡ ok i
      → i.id ≢ ""

module _ {W : Type 0} (c : Client W) (R : Runtime W) where
  pub data Step : Env RedisInstance W → Env RedisInstance W → Type 0 where
    observes : (s : Env RedisInstance W) → Step s (observe_cr c R s).1
    creates : (s : Env RedisInstance W) → Step s (create_cr c R s).1
    updates : (s : Env RedisInstance W) → Step s (update_instance c R s).1
    deletes : (s : Env RedisInstance W) → Step s (delete_cr c R s).1
    drifts : (s : Env RedisInstance W) (w : W) → Step s (record s { world = w })

  pub data Reach (s : Env RedisInstance W) : Env RedisInstance W → Type 0 where
    here : Reach s s
    next : {t u : Env RedisInstance W} → Reach s t → Step t u → Reach s u

  Step-SameSpec : {s t : Env RedisInstance W} → Step s t → SameSpec s.cr t.cr
  Step-SameSpec (observes s) = observe_cr-SameSpec c R s
  Step-SameSpec (creates s) = create_cr-SameSpec c R s
  Step-SameSpec (updates s) = update_instance-SameSpec c R s
  Step-SameSpec (deletes s) = delete_cr-SameSpec c R s
  Step-SameSpec (drifts s w) = SameSpec-refl s.cr

  -- In every sequence of `Observe`, `Create`, `Update`, `Delete` and changes of the world the
  -- metadata and the desired state of a Redis instance stay as the user wrote them.
  pub Reach-SameSpec : {s t : Env RedisInstance W} → Reach s t → SameSpec s.cr t.cr
  Reach-SameSpec {s = s} here = SameSpec-refl s.cr
  Reach-SameSpec (next r st) = SameSpec-trans (Reach-SameSpec r) (Step-SameSpec st)

  observe_running-id :
      (i : DbInstance) (s : Env RedisInstance W)
      → (observe_running c R i s).1.cr.at_provider.db_instance_id ≡ s.cr.at_provider.db_instance_id
  unfolding observe_running
  observe_running-id i s =
      let s1 : Env RedisInstance W = record s { cr = set_conditions available s.cr } in
      ground (
        arith,
        connection-SameObserved c s1,
        account-SameObserved c R (create_connection_if_needed c s1).1,
      )

  observe_status-id :
      (i : DbInstance) (s : Env RedisInstance W)
      → (observe_status c R i s).1.cr.at_provider.db_instance_id ≡ s.cr.at_provider.db_instance_id
  unfolding observe_status
  observe_status-id i s = ground (arith, observe_running-id i s)

  observe_described-id :
      (i : DbInstance) (s : Env RedisInstance W)
      → (observe_described c R i s).1.cr.at_provider.db_instance_id ≡ i.id
  unfolding observe_described generate_observation
  observe_described-id i s = grind (arith, observe_status-id)

  observe_cr-id_of :
      FindsById c
      → (s : Env RedisInstance W) (r : Outcome DbInstance) {w : W}
      → c.describe_db_instance s.cr.at_provider.db_instance_id s.world ≡ (r, w)
      → (observe_cr c R s).1.cr.at_provider.db_instance_id ≡ s.cr.at_provider.db_instance_id
  unfolding observe_cr
  observe_cr-id_of F s (ok i) {w} e = ground (
    arith,
    observe_described-id i (record s { world = w }),
    F.described s.cr.at_provider.db_instance_id s.world i,
  )
  observe_cr-id_of F s (err _) e = ground arith
  observe_cr-id_of F s panic e = ground arith

  create_cr-id_of :
      FindsById c
      → (s : Env RedisInstance W) (r : Outcome DbInstance) {w : W}
      → c.create_db_instance
          (make_create_db_instance_request s.cr.external_name s.cr.for_provider)
          s.world
        ≡ (r, w)
      → s.cr.at_provider.db_instance_id ≢ ""
      → (create_cr c R s).1.cr.at_provider.db_instance_id ≢ ""
  unfolding create_cr
  create_cr-id_of F s (ok i) e h = ground (
    arith,
    F.created (make_create_db_instance_request s.cr.external_name s.cr.for_provider) s.world i,
  )
  create_cr-id_of F s (err _) e h = ground arith
  create_cr-id_of F s panic e h = ground arith

  -- `Observe` keeps the instance id, on every path.
  pub observe_cr-id :
      FindsById c
      → (s : Env RedisInstance W)
      → (observe_cr c R s).1.cr.at_provider.db_instance_id ≡ s.cr.at_provider.db_instance_id
  observe_cr-id F s =
      observe_cr-id_of F s (c.describe_db_instance s.cr.at_provider.db_instance_id s.world).0 refl

  Step-created :
      FindsById c
      → {s t : Env RedisInstance W} → Step s t
      → s.cr.at_provider.db_instance_id ≢ ""
      → t.cr.at_provider.db_instance_id ≢ ""
  unfolding update_instance delete_cr
  Step-created F (observes s) h = ground (arith, observe_cr-id F s)
  Step-created F (creates s) h =
      create_cr-id_of F s
        (c.create_db_instance (make_create_db_instance_request s.cr.external_name s.cr.for_provider)
          s.world).0
        refl h
  Step-created F (updates s) h = h
  Step-created F (deletes s) h = ground arith
  Step-created F (drifts s w) h = h

  -- Over a service that describes the instance it is asked for and gives every new instance an id,
  -- a Redis instance that has an id has one after every sequence of `Observe`, `Create`, `Update`,
  -- `Delete` and changes of the world.
  pub Reach-created :
      FindsById c
      → {s t : Env RedisInstance W} → Reach s t
      → s.cr.at_provider.db_instance_id ≢ ""
      → t.cr.at_provider.db_instance_id ≢ ""
  Reach-created F here h = h
  Reach-created F (next r st) h = Step-created F st (Reach-created F r h)
