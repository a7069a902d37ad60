-- ===== src/Controller/Redis/Observation.antt =====
-- What `Observe` reports of a Redis instance.
use provider_alibaba.Base.{
  String, Bool, true, ◌≡◌, ◌≢◌, arith, some, ◌∷◌, ◌==◌, eq_iff, if◌then◌else◌,
}
use provider_alibaba.Go.{Env, ok, err, Err, wrap}
use provider_alibaba.Crossplane.{
  Runtime, IsDocumented, ExternalObservation, no_observation, Condition, available, creating,
  deleting, unavailable, set_conditions,
}
use provider_alibaba.Apis.Redis.{RedisInstance}
use provider_alibaba.Clients.Redis.{Client, DbInstance, is_error_not_found, generate_observation}
use provider_alibaba.Controller.Redis.{
  observe_cr, observe_described, observe_status, observe_running, err_describe_failed,
  create_connection_if_needed,
}
use provider_alibaba.Controller.Redis.Ready.Frame.{connection-SameObserved, account-SameObserved}

-- The resource with other ready flags.
abbrev pub with_flags : Bool → Bool → RedisInstance → RedisInstance
with_flags account connection cr = record cr {
  at_provider = record cr.at_provider { account_ready = account; connection_ready = connection };
}

-- The condition that the table of instance states gives.
pub condition_of : String → Condition
condition_of status =
    if status == "Normal"
    then available
    else if status == "Creating"
    then creating
    else if status == "Flushing"
    then deleting
    else unavailable

module _ {W : Type 0} (c : Client W) (R : Runtime W) where
  -- `Observe` never reads the two ready flags of the status of a Redis instance: whatever they are,
  -- it returns the same and leaves the same world.
  pub observe_cr-with_flags :
      (account connection : Bool) (cr : RedisInstance) (w : W)
      → let t = observe_cr c R (record { cr = with_flags account connection cr; world = w }) in
        let s = observe_cr c R (record { cr = cr; world = w }) in
        (t.0 ≡ s.0) × (t.1.world ≡ s.1.world)
  unfolding observe_cr observe_described
  observe_cr-with_flags account connection cr w = ground arith

  -- An existing instance is always reported as up to date, so `Update` is never asked for.
  pub observe_cr-up_to_date :
      (s : Env RedisInstance W) {o : ExternalObservation}
      → (observe_cr c R s).0 ≡ ok o
      → o.resource_exists ≡ o.resource_up_to_date
  unfolding observe_cr observe_described
  observe_cr-up_to_date s h = ground arith

  -- A resource without an instance id is reported as absent, with no call and no change.
  pub observe_cr-uncreated :
      (s : Env RedisInstance W)
      → s.cr.at_provider.db_instance_id ≡ ""
      → observe_cr c R s ≡ (ok no_observation, s)
  unfolding observe_cr
  observe_cr-uncreated s h = ground (arith, eq_iff s.cr.at_provider.db_instance_id "")

  -- With the documented runtime: where the description of a Redis instance with a recorded id
  -- fails, the resource stays as it was; a missing instance is reported as absent, and any other
  -- error is wrapped and returned.
  pub observe_cr-undescribed :
      IsDocumented R
      → (s : Env RedisInstance W) {e : Err} {w : W} → s.cr.at_provider.db_instance_id ≢ ""
      → c.describe_db_instance s.cr.at_provider.db_instance_id s.world ≡ (err e, w)
      → observe_cr c R s ≡ (
        (if is_error_not_found (some e)
            then ok no_observation
            else err (wrap err_describe_failed e)),
        record s { world = w },
      )
  unfolding observe_cr
  observe_cr-undescribed D s {e} created failed = ground (
    arith,
    eq_iff s.cr.at_provider.db_instance_id "",
    D.ignore_accepted is_error_not_found (some e),
    D.ignore_rejected is_error_not_found (some e),
  )

  -- What the `switch` leaves behind: the condition that belongs to the status, and the observed
  -- status and id untouched.
  observe_running-reports :
      (i : DbInstance) (s : Env RedisInstance W) (r : String × DbInstance)
      → (observe_running c R i s).0 ≡ ok r
      → let t = (observe_running c R i s).1.cr in
        (t.at_provider.db_instance_status ≡ s.cr.at_provider.db_instance_status)
        × (t.at_provider.db_instance_id ≡ s.cr.at_provider.db_instance_id)
        × (t.conditions ≡ available ∷ s.cr.conditions)
  unfolding observe_running
  observe_running-reports i s r h =
      let s1 : Env RedisInstance W = record s { cr = set_conditions available s.cr } in
      ground (
        arith,
        connection-SameObserved c s1,
        account-SameObserved c R (create_connection_if_needed c s1).1,
      )

  observe_status-reports :
      (i : DbInstance) (s : Env RedisInstance W) (r : String × DbInstance)
      → (observe_status c R i s).0 ≡ ok r
      → let t = (observe_status c R i s).1.cr in
        (t.at_provider.db_instance_status ≡ s.cr.at_provider.db_instance_status)
        × (t.at_provider.db_instance_id ≡ s.cr.at_provider.db_instance_id)
        × (t.conditions ≡ condition_of s.cr.at_provider.db_instance_status ∷ s.cr.conditions)
  unfolding observe_status condition_of
  observe_status-reports i s r h = ground (arith, observe_running-reports i s r)

  observe_described-reports :
      (i : DbInstance) (s : Env RedisInstance W) {o : ExternalObservation}
      → (observe_described c R i s).0 ≡ ok o
      → let t = (observe_described c R i s).1.cr in
        (o.resource_exists ≡ true)
        × (t.at_provider.db_instance_status ≡ i.status)
        × (t.at_provider.db_instance_id ≡ i.id)
        × (t.conditions ≡ condition_of i.status ∷ s.cr.conditions)
  unfolding observe_described generate_observation
  observe_described-reports i s h = grind (arith, observe_status-reports)

  -- Where a Redis instance with a recorded id is described and `Observe` succeeds, it reports that
  -- the instance exists, copies its status and id, and ends with the condition that the table of
  -- states gives.
  pub observe_cr-described :
      (s : Env RedisInstance W) {i : DbInstance} {w : W} {o : ExternalObservation}
      → s.cr.at_provider.db_instance_id ≢ ""
      → c.describe_db_instance s.cr.at_provider.db_instance_id s.world ≡ (ok i, w)
      → (observe_cr c R s).0 ≡ ok o
      → let t = (observe_cr c R s).1.cr in
        (o.resource_exists ≡ true)
        × (t.at_provider.db_instance_status ≡ i.status)
        × (t.at_provider.db_instance_id ≡ i.id)
        × (t.conditions ≡ condition_of i.status ∷ s.cr.conditions)
  unfolding observe_cr
  observe_cr-described s {i} {w} {o} created found h = ground (
    arith,
    eq_iff s.cr.at_provider.db_instance_id "",
    observe_described-reports i (record s { world = w }) {o = o},
  )
